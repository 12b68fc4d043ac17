-- ===== src/Job/Worker/Sync/Steady.antt =====
-- The operations on jobs keep the table of commands and the scheduler in step.
use juno_agent.Base.{
  Option, none, some, Bool, true, false, not, ◌&&◌, ◌++◌, [], ◌∷◌, ◌≡◌, ◌≢◌, refl, sym, ap, ◌∙◌,
  arith, Bool-cases, inl, inr,
}
use juno_agent.Base.Text.{Bytes, text_eq_iff, text_eq_refl}
use juno_agent.Base.Dict.{Dict, lookup, insert, remove, lookup-insert}
use juno_agent.Job.Types.{Job, Cmd, get_id, cmds, is_alone, is_normal}
use juno_agent.Job.Keys.{lock_prefix}
use juno_agent.Job.Worker.{
  Services, IsCron, Worker, add_cmd, del_cmd, mod_cmd, each, lock_job, unlock_job, is_ours,
  register, register_locked, add_job, del_job, without, update, with_lock, mod_known, mod_job,
}
use juno_agent.Job.Worker.Commands.{
  IsConsistent, insert-cases, add_cmd-IsConsistent, del_cmd-IsConsistent, mod_cmd-IsConsistent,
  unchanged-InStep,
}
use juno_agent.Job.Worker.Sync.{IsKeyed, cmds-IsKeyed, cmds-locked}

module _ {S : Services} (laws : IsCron S) where
  pub each-IsConsistent :
      (op : Worker S → Cmd → Worker S)
      → ((w : Worker S) (c : Cmd) → IsConsistent w → IsConsistent (op w c))
      → (m : Dict Cmd) (w : Worker S) → IsConsistent w
      → IsConsistent (each op m w)
  unfolding each
  each-IsConsistent op keeps [] w h = h
  each-IsConsistent op keeps ((k, c) ∷ m) w h = each-IsConsistent op keeps m (op w c) (keeps w c h)

  pub unlock_job-IsConsistent :
      (w : Worker S) (j : Job) → IsConsistent w → IsConsistent (unlock_job w j)
  unfolding unlock_job
  unlock_job-IsConsistent w j h = go j.mutex refl
    where
      go : (o : Option Bytes) → j.mutex ≡ o → IsConsistent (unlock_job w j)
      go none e = rw (unlock_job, e) h
      go (some k) e =
          rw (unlock_job, e) (unchanged-InStep laws w.table w.world _ (laws.unlocked k w.world) h)

  -- Deleting a job, registered or not, keeps the commands and the scheduler in step.
  pub del_job-IsConsistent :
      (w : Worker S) (id : Bytes) → IsConsistent w → IsConsistent (del_job w id)
  unfolding del_job
  del_job-IsConsistent w id h = go _ refl
    where
      go : (o : Option Job) → lookup id w.jobs ≡ o → IsConsistent (del_job w id)
      go none e = rw (del_job, e) h
      go (some j) e =
          rw (del_job, e)
            (each-IsConsistent del_cmd (del_cmd-IsConsistent laws) (cmds j)
              (unlock_job (record w { jobs = remove id w.jobs }) j)
              (unlock_job-IsConsistent (record w { jobs = remove id w.jobs }) j h))

  pub update-IsConsistent :
      (w : Worker S) (old j : Job) → IsConsistent w → IsConsistent (update w old j)
  unfolding update
  update-IsConsistent w old j h =
      let w' : Worker S = record w { jobs = insert j.id j w.jobs } in
      each-IsConsistent del_cmd (del_cmd-IsConsistent laws) (without (cmds j) (cmds old))
        (each mod_cmd (cmds j) w')
        (each-IsConsistent mod_cmd (mod_cmd-IsConsistent laws) (cmds j) w' h)

  -- Where the scheduler keeps to the documented behaviour of robfig/cron, modifying a registered job
  -- that does not become a single-node job keeps the commands and the scheduler in step.
  pub mod_job-IsConsistent :
      (w : Worker S) (j old : Job)
      → IsConsistent w
      → lookup j.id w.jobs ≡ some old
      → (is_alone j.job_type && not (is_alone old.job_type)) ≡ false
      → IsConsistent (mod_job w j)
  unfolding mod_job
  mod_job-IsConsistent w j old h e stays =
      rw (mod_job, e)
        (elim (Bool-cases (is_ours w j')) [
          | inl ours ↦ elim (Bool-cases (is_normal j.job_type && not (is_normal old.job_type))) [
            | inl t ↦
                rw (mod_known, ours, stays, t)
                  (update-IsConsistent (unlock_job w old) old j' (unlock_job-IsConsistent w old h))
            | inr t ↦ rw (mod_known, ours, stays, t) (update-IsConsistent w old j' h)
          ]
          | inr ours ↦ rw (mod_known, ours) (del_job-IsConsistent w j.id h)
        ])
    where
      j' : Job
      j' = record j { mutex = old.mutex; locked = old.locked }

  -- No command of a map is registered.
  abbrev pub AreNew : Dict Cmd → Dict Cmd → Type 0
  AreNew m table = (k : Bytes) (c : Cmd) → lookup k m ≡ some c → lookup k table ≡ none

  head_new :
      (k : Bytes) (c : Cmd) (m : Dict Cmd) (w : Worker S)
      → AreNew ((k, c) ∷ m) w.table
      → lookup k w.table ≡ none
  unfolding lookup
  head_new k c m w new = new k c (rw (text_eq_refl k) refl)

  tail_new :
      (k : Bytes) (c : Cmd) (m : Dict Cmd) (w : Worker S)
      → IsKeyed ((k, c) ∷ m)
      → AreNew ((k, c) ∷ m) w.table
      → AreNew m (add_cmd w c).table
  unfolding lookup add_cmd
  tail_new k c m w keyed new j d e = ground (
    arith,
    keyed.0,
    keyed.1,
    text_eq_iff k j,
    new j d,
    e,
    lookup-insert (get_id c) j
        (record c { entry = (S.schedule c.timer.schedule (get_id c) w.world).0 }) w.table,
  )

  each_add-IsConsistent :
      (m : Dict Cmd) (w : Worker S)
      → IsKeyed m
      → AreNew m w.table
      → IsConsistent w
      → IsConsistent (each add_cmd m w)
  unfolding each
  each_add-IsConsistent [] w keyed new h = h
  each_add-IsConsistent ((k, c) ∷ m) w keyed new h =
      each_add-IsConsistent m (add_cmd w c) keyed.2 (tail_new k c m w keyed new) (
        add_cmd-IsConsistent laws w c h (ap (λ j. lookup j w.table) keyed.0 ∙ head_new k c m w new))

  register-IsConsistent :
      (w : Worker S) (j : Job)
      → IsConsistent w
      → AreNew (cmds j) w.table
      → IsConsistent (register w j)
  unfolding register
  register-IsConsistent w j h new =
      each_add-IsConsistent (cmds j) (record w { jobs = insert j.id j w.jobs }) (cmds-IsKeyed j) new
        h

  -- Where the scheduler keeps to the documented behaviour of robfig/cron, adding a job none of whose
  -- commands is registered keeps the commands and the scheduler in step,
  -- whether the job is for this node or not, and whether its lock is got or not.
  pub add_job-IsConsistent :
      (w : Worker S) (j : Job)
      → IsConsistent w
      → AreNew (cmds j) w.table
      → IsConsistent (add_job w j)
  unfolding add_job
  add_job-IsConsistent w j h new = elim (Bool-cases (is_ours w j)) [
    | inr e ↦ rw e h
    | inl e ↦ elim (Bool-cases (is_alone j.job_type)) [
      | inr f ↦ rw (e, f) (register-IsConsistent w j h new)
      | inl f ↦ rw (e, f) (locking _ refl)
    ]
  ]
    where
      key : Bytes
      key = lock_prefix ++ j.id

      w' : Worker S
      w' = record w { world = (S.lock key w.world).1 }

      h' : IsConsistent w'
      h' = unchanged-InStep laws w.table w.world _ (laws.locked key w.world) h

      locking :
          (got : Bool)
          → (S.lock key w.world).0 ≡ got
          → IsConsistent (register_locked (lock_job w j))
      locking true e =
          rw (lock_job, e)
            (register-IsConsistent w' (with_lock j key) h'
              (λ k c f. new k c (ap (lookup k) (sym (cmds-locked j (some key) true)) ∙ f)))
      locking false e = rw (lock_job, e) h'

  -- Adding a command whose id is taken leaves the entry that was there scheduled, while no command
  -- that is registered then has that entry.
  pub add_cmd-leaks :
      (w : Worker S) (c d x : Cmd) (k : Bytes)
      → IsConsistent w
      → lookup (get_id c) w.table ≡ some d
      → lookup k (add_cmd w c).table ≡ some x
      → (S.is_entry (add_cmd w c).world d.entry ≡ true) × (x.entry ≢ d.entry)
  unfolding add_cmd
  add_cmd-leaks w c d x k h at e = (
    ground
        (arith, laws.scheduled c.timer.schedule (get_id c) w.world d.entry, h.live (get_id c) d at),
    λ p. elim (insert-cases (get_id c) k _ x w.table e) [
      | inl (q, r) ↦ used (ap (λ y. y.entry) r ∙ p)
      | inr (q, f) ↦ q (h.single (get_id c) k d x at f (sym p))
    ],
  )
    where
      used : (S.schedule c.timer.schedule (get_id c) w.world).0 ≢ d.entry
      used p = cc (
        sym (ap (S.is_entry w.world) p) ∙ laws.fresh c.timer.schedule (get_id c) w.world,
        h.live (get_id c) d at,
      )
