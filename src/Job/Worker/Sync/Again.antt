-- ===== src/Job/Worker/Sync/Again.antt =====
-- What becomes of the scheduler of pkg/job/worker.go when a job that is registered is added again.
use mathlib.Core.Path.{subst}
use juno_agent.Base.{
  ℕ, some, true, false, ◌≡◌, ◌≢◌, sym, ap, ◌∙◌, [], ◌∷◌, inl, inr, arith, Bool-cases,
}
use juno_agent.Base.Text.{Bytes, text_eq, text_eq_iff}
use juno_agent.Base.Dict.{Dict, lookup, insert}
use juno_agent.Job.Types.{Job, Cmd, get_id, cmds, is_alone}
use juno_agent.Job.Worker.{Services, IsCron, Worker, add_cmd, each, is_ours, register, add_job}
use juno_agent.Job.Worker.Commands.{IsConsistent, insert-cases}
use juno_agent.Job.Worker.Sync.{IsKeyed, cmds-IsKeyed}

module _ {S : Services} (laws : IsCron S) where
  -- An entry that is scheduled, and that no registered command has.
  pub record Orphan (w : Worker S) (e : ℕ) : Type 0 where
    pub scheduled : S.is_entry w.world e ≡ true
    pub unowned : (k : Bytes) (c : Cmd) → lookup k w.table ≡ some c → c.entry ≢ e

  -- An entry that is scheduled, and that only the command under one id may have.
  record Sole (k : Bytes) (w : Worker S) (e : ℕ) : Type 0 where
    scheduled : S.is_entry w.world e ≡ true
    single : (j : Bytes) (c : Cmd) → lookup j w.table ≡ some c → c.entry ≡ e → j ≡ k

  fresh_differs :
      (w : Worker S) (c : Cmd) (e : ℕ)
      → S.is_entry w.world e ≡ true
      → (S.schedule c.timer.schedule (get_id c) w.world).0 ≢ e
  fresh_differs w c e live p =
      cc (laws.fresh c.timer.schedule (get_id c) w.world, ap (S.is_entry w.world) p, live)

  still_scheduled :
      (w : Worker S) (c : Cmd) (e : ℕ)
      → S.is_entry w.world e ≡ true
      → S.is_entry (add_cmd w c).world e ≡ true
  unfolding add_cmd
  still_scheduled w c e live = ground (arith, laws.scheduled c.timer.schedule (get_id c) w.world e)

  add_cmd-Orphan : (w : Worker S) (c : Cmd) (e : ℕ) → Orphan w e → Orphan (add_cmd w c) e
  unfolding add_cmd
  add_cmd-Orphan w c e o = record {
    scheduled = still_scheduled w c e o.scheduled;
    unowned = λ k x f p. elim (insert-cases (get_id c) k _ x w.table f) [
      | inl (q, r) ↦ fresh_differs w c e o.scheduled (ap (λ y. y.entry) r ∙ p)
      | inr (q, g) ↦ o.unowned k x g p
    ];
  }

  -- A command under another id leaves the entry to the id, one under the id makes it an orphan.
  add_cmd-Sole : (k : Bytes) (w : Worker S) (c : Cmd) (e : ℕ) → Sole k w e → Sole k (add_cmd w c) e
  unfolding add_cmd
  add_cmd-Sole k w c e o = record {
    scheduled = still_scheduled w c e o.scheduled;
    single = λ j x f p. elim (insert-cases (get_id c) j _ x w.table f) [
      | inl (q, r) ↦ absurd (fresh_differs w c e o.scheduled (ap (λ y. y.entry) r ∙ p))
      | inr (q, g) ↦ o.single j x g p
    ];
  }

  add_cmd-loses : (w : Worker S) (c : Cmd) (e : ℕ) → Sole (get_id c) w e → Orphan (add_cmd w c) e
  unfolding add_cmd
  add_cmd-loses w c e o = record {
    scheduled = still_scheduled w c e o.scheduled;
    unowned = λ k x f p. elim (insert-cases (get_id c) k _ x w.table f) [
      | inl (q, r) ↦ fresh_differs w c e o.scheduled (ap (λ y. y.entry) r ∙ p)
      | inr (q, g) ↦ q (sym (o.single k x g p))
    ];
  }

  each_add-Orphan : (m : Dict Cmd) (w : Worker S) (e : ℕ) → Orphan w e → Orphan (each add_cmd m w) e
  unfolding each
  each_add-Orphan [] w e o = o
  each_add-Orphan ((k, c) ∷ m) w e o = each_add-Orphan m (add_cmd w c) e (add_cmd-Orphan w c e o)

  each_add-loses :
      (k : Bytes) (c : Cmd) (m : Dict Cmd) (w : Worker S) (e : ℕ)
      → IsKeyed m
      → lookup k m ≡ some c
      → Sole k w e
      → Orphan (each add_cmd m w) e
  unfolding each lookup
  each_add-loses k c [] w e keyed at o = absurd (cc at)
  each_add-loses k c ((j, d) ∷ m) w e keyed at o = elim (Bool-cases (text_eq j k)) [
    | inl t ↦
        let same : get_id d ≡ k = keyed.0 ∙ (text_eq_iff j k).0 t in
        each_add-Orphan m (add_cmd w d) e
          (add_cmd-loses w d e (subst (λ i. Sole i w e) (sym same) o))
    | inr t ↦ each_add-loses k c m (add_cmd w d) e keyed.2 (rw t at at) (add_cmd-Sole k w d e o)
  ]

  -- Where the scheduler keeps to the documented behaviour of robfig/cron, and the table of a worker
  -- and its scheduler are in step: when a job for this node that does not ask for a lock is added
  -- while a command of it is registered already, as a second create event brings about, the entry
  -- that this command had stays scheduled and the two are no longer in step.
  pub add_job-leaks :
      (w : Worker S) (j : Job) (k : Bytes) (c d : Cmd)
      → IsConsistent w
      → is_ours w j ≡ true
      → is_alone j.job_type ≡ false
      → lookup k (cmds j) ≡ some c
      → lookup k w.table ≡ some d
      → (S.is_entry (add_job w j).world d.entry ≡ true) × ¬ (IsConsistent (add_job w j))
  unfolding add_job register is_ours
  add_job-leaks w j k c d h ours alone at old = rw (ours, alone) (orphan.scheduled, broken)
    where
      w' : Worker S
      w' = record w { jobs = insert j.id j w.jobs }

      orphan : Orphan (each add_cmd (cmds j) w') d.entry
      orphan =
          each_add-loses k c (cmds j) w' d.entry (cmds-IsKeyed j) at
            (record { scheduled = h.live k d old; single = λ i x f p. h.single i k x d f old p })

      broken : ¬ (IsConsistent (each add_cmd (cmds j) w'))
      broken g = let (i, x, f, p) = g.owned d.entry orphan.scheduled in orphan.unowned i x f p
