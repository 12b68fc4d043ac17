-- ===== src/Job/Worker/Sync/Timers.antt =====
-- Which timers are registered after modJob.
use juno_agent.Base.{
  Option, none, some, Bool, true, false, not, ◌&&◌, [], ◌∷◌, ◌≡◌, refl, ap, ◌∙◌, arith, Bool-cases,
  inl, inr, if◌then◌else◌,
}
use juno_agent.Base.Text.{Bytes, text_eq, text_eq_iff}
use juno_agent.Base.Dict.{Dict, lookup, insert, remove, lookup-insert, lookup-remove}
use juno_agent.Job.Types.{Timer, Job, Cmd, get_id, cmds, is_alone, is_normal}
use juno_agent.Job.Worker.{
  inherit, Services, Worker, add_cmd, del_cmd, mod_cmd, each, unlock_job, is_ours, without, update,
  mod_known, mod_job,
}
use juno_agent.Job.Worker.Sync.{IsKeyed, cmds-IsKeyed, cmds-locked, remove-IsKeyed}

abbrev pub timer_in : Option Cmd → Option Timer
timer_in none = none
timer_in (some c) = some c.timer

-- The timer of the command that is registered under an id.
abbrev pub timer_at : {S : Services} → Bytes → Worker S → Option Timer
timer_at k w = timer_in (lookup k w.table)

abbrev pub is_some : Option Cmd → Bool
is_some none = false
is_some (some c) = true

-- The first of two that there is.
abbrev pub or_else {ℓ} : {A : Type ℓ} → Option A → Option A → Option A
or_else none b = b
or_else (some a) b = some a

pub without-IsKeyed : (m prev : Dict Cmd) → IsKeyed prev → IsKeyed (without m prev)
unfolding without
without-IsKeyed [] prev h = h
without-IsKeyed ((k, c) ∷ m) prev h = without-IsKeyed m (remove k prev) (remove-IsKeyed k prev h)

pub lookup-without :
    (k : Bytes) (m prev : Dict Cmd)
    → lookup k (without m prev) ≡ (if is_some (lookup k m) then none else lookup k prev)
unfolding without lookup
lookup-without k [] prev = refl
lookup-without k ((j, c) ∷ m) prev =
    lookup-without k m (remove j prev) ∙ ground (arith, lookup-remove j k prev)

-- The timer of an id after a job is updated: that of the job's new commands, none for its old
-- commands, and what it was for any other.
abbrev pub reconciled : Dict Cmd → Dict Cmd → Bytes → Option Timer → Option Timer
reconciled new old k t =
    or_else (timer_in (lookup k new)) (if is_some (lookup k old) then none else t)

module _ {S : Services} where
  pub timer-add_cmd :
      (k : Bytes) (w : Worker S) (c : Cmd)
      → timer_at k (add_cmd w c) ≡ (if text_eq (get_id c) k then some c.timer else timer_at k w)
  unfolding add_cmd
  timer-add_cmd k w c = ground (
    arith,
    lookup-insert (get_id c) k
        (record c { entry = (S.schedule c.timer.schedule (get_id c) w.world).0 }) w.table,
  )

  timer-mod_cmd :
      (k : Bytes) (w : Worker S) (c : Cmd)
      → timer_at k (mod_cmd w c) ≡ (if text_eq (get_id c) k then some c.timer else timer_at k w)
  unfolding mod_cmd
  timer-mod_cmd k w c = go _ refl
    where
      go :
          (o : Option Cmd)
          → lookup (get_id c) w.table ≡ o
          → timer_at k (mod_cmd w c) ≡ (if text_eq (get_id c) k then some c.timer else timer_at k w)
      go none e = rw (mod_cmd, e) (timer-add_cmd k w c)
      go (some d) e = elim (Bool-cases (text_eq c.timer.cron d.timer.cron)) [
        | inl t ↦
            rw (mod_cmd, e, t)
              (ground (arith, lookup-insert (get_id c) k (record c { entry = d.entry }) w.table))
        | inr t ↦
            rw (mod_cmd, e, t)
              (timer-add_cmd k (record w { world = S.remove_entry d.entry w.world }) c)
      ]

  timer-del_cmd :
      (k : Bytes) (w : Worker S) (c : Cmd)
      → timer_at k (del_cmd w c) ≡ (if text_eq (get_id c) k then none else timer_at k w)
  unfolding del_cmd
  timer-del_cmd k w c = go _ refl
    where
      go :
          (o : Option Cmd)
          → lookup (get_id c) w.table ≡ o
          → timer_at k (del_cmd w c) ≡ (if text_eq (get_id c) k then none else timer_at k w)
      go none e = rw (del_cmd, e) (ground (arith, text_eq_iff (get_id c) k, e))
      go (some d) e = rw (del_cmd, e) (ground (arith, lookup-remove (get_id c) k w.table))

  pub timer-each_mod :
      (k : Bytes) (m : Dict Cmd) (w : Worker S)
      → IsKeyed m
      → timer_at k (each mod_cmd m w) ≡ or_else (timer_in (lookup k m)) (timer_at k w)
  unfolding each lookup
  timer-each_mod k [] w h = refl
  timer-each_mod k ((j, c) ∷ m) w h =
      timer-each_mod k m (mod_cmd w c) h.2
      ∙ ground (arith, h.0, h.1, timer-mod_cmd k w c, text_eq_iff j k)

  pub timer-each_del :
      (k : Bytes) (m : Dict Cmd) (w : Worker S)
      → IsKeyed m
      → timer_at k (each del_cmd m w) ≡ (if is_some (lookup k m) then none else timer_at k w)
  unfolding each lookup
  timer-each_del k [] w h = refl
  timer-each_del k ((j, c) ∷ m) w h =
      timer-each_del k m (del_cmd w c) h.2
      ∙ ground (arith, h.0, timer-del_cmd k w c, text_eq_iff j k)

  pub timer-update :
      (k : Bytes) (w : Worker S) (old j : Job)
      → timer_at k (update w old j) ≡ reconciled (cmds j) (cmds old) k (timer_at k w)
  unfolding update
  timer-update k w old j =
      timer-each_del k (without (cmds j) (cmds old)) _
        (without-IsKeyed (cmds j) (cmds old) (cmds-IsKeyed old))
      ∙ ground (
        arith,
        lookup-without k (cmds j) (cmds old),
        timer-each_mod k (cmds j) (record w { jobs = insert j.id j w.jobs }) (cmds-IsKeyed j),
      )

  -- After modJob of a registered job that stays on this node and does not become a single-node job,
  -- the registered timers are: under the id of a command of the new job, that command's timer; under
  -- an id that only the old job had, none; under any other id, the timer that was there.
  pub mod_job-timers :
      (w : Worker S) (j old : Job) (k : Bytes)
      → lookup j.id w.jobs ≡ some old
      → is_ours w j ≡ true
      → (is_alone j.job_type && not (is_alone old.job_type)) ≡ false
      → timer_at k (mod_job w j) ≡ reconciled (cmds j) (cmds old) k (timer_at k w)
  unfolding mod_job is_ours
  mod_job-timers w j old k e ours stays =
      rw (mod_job, e, ← cmds-locked j old.mutex old.locked)
        (elim (Bool-cases (is_normal j.job_type && not (is_normal old.job_type))) [
          | inl t ↦
              rw (mod_known, ours, stays, t)
                (timer-update k (unlock_job w old) old (inherit j old)
                  ∙ ap (reconciled _ (cmds old) k) (unlocked _ refl))
          | inr t ↦ rw (mod_known, ours, stays, t) (timer-update k w old (inherit j old))
        ])
    where
      unlocked : (o : Option Bytes) → old.mutex ≡ o → timer_at k (unlock_job w old) ≡ timer_at k w
      unlocked none f = rw (unlock_job, f)
      unlocked (some key) f = rw (unlock_job, f)
