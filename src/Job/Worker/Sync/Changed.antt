-- ===== src/Job/Worker/Sync/Changed.antt =====
-- The operations of pkg/job/worker.go on jobs keep the commands those that the jobs declare.
use juno_agent.Base.{
  Option, none, some, Bool, true, false, [], ◌∷◌, ◌++◌, ◌≡◌, refl, sym, ap, ◌∙◌, arith, Bool-cases,
  inl, inr, if◌then◌else◌,
}
use juno_agent.Base.Text.{Bytes, text_eq_iff, Lacks}
use juno_agent.Base.Dict.{
  Dict, lookup, insert, remove, lookup-insert, lookup-remove, lookup-remove_self,
}
use juno_agent.Job.Types.{Job, Cmd, cmds, is_alone}
use juno_agent.Job.Keys.{lock_prefix}
use juno_agent.Job.Worker.{
  Services, Worker, add_cmd, del_cmd, mod_cmd, each, lock_job, unlock_job, is_ours, register,
  register_locked, add_job, del_job, update, without, with_lock,
}
use juno_agent.Job.Worker.Sync.{IsKeyed, cmds-IsKeyed}
use juno_agent.Job.Worker.Sync.Timers.{
  timer_in, timer_at, is_some, or_else, timer-add_cmd, timer-each_del, timer-update,
}
use juno_agent.Job.Worker.Sync.Declared.{
  cmds_of, declared, IsDeclared, cmds-Own, replace-IsDeclared,
}

module _ {S : Services} where
  -- The operations on commands leave the jobs alone.
  add_cmd-jobs : (w : Worker S) (c : Cmd) → (add_cmd w c).jobs ≡ w.jobs
  unfolding add_cmd
  add_cmd-jobs w c = refl

  del_cmd-jobs : (w : Worker S) (c : Cmd) → (del_cmd w c).jobs ≡ w.jobs
  unfolding del_cmd
  del_cmd-jobs w c = ground arith

  mod_cmd-jobs : (w : Worker S) (c : Cmd) → (mod_cmd w c).jobs ≡ w.jobs
  unfolding mod_cmd add_cmd
  mod_cmd-jobs w c = ground arith

  each-jobs :
      (op : Worker S → Cmd → Worker S)
      → ((w : Worker S) (c : Cmd) → (op w c).jobs ≡ w.jobs)
      → (m : Dict Cmd) (w : Worker S) → (each op m w).jobs ≡ w.jobs
  unfolding each
  each-jobs op keeps [] w = refl
  each-jobs op keeps ((k, c) ∷ m) w = each-jobs op keeps m (op w c) ∙ keeps w c

  timer-each_add :
      (k : Bytes) (m : Dict Cmd) (w : Worker S)
      → IsKeyed m
      → timer_at k (each add_cmd m w) ≡ or_else (timer_in (lookup k m)) (timer_at k w)
  unfolding each lookup
  timer-each_add k [] w h = refl
  timer-each_add k ((j, c) ∷ m) w h =
      timer-each_add k m (add_cmd w c) h.2
      ∙ ground (arith, h.0, h.1, timer-add_cmd k w c, text_eq_iff j k)

  register-IsDeclared :
      (w : Worker S) (j : Job)
      → IsDeclared w
      → lookup j.id w.jobs ≡ none
      → Lacks b'-' j.id
      → IsDeclared (register w j)
  unfolding register
  register-IsDeclared w j h e d =
      replace-IsDeclared w (register w j) j.id none (some j) h e (refl, d)
        (λ i.
          ap (lookup i) (each-jobs add_cmd add_cmd-jobs (cmds j) _) ∙ lookup-insert j.id i j w.jobs)
        (λ k. timer-each_add k (cmds j) _ (cmds-IsKeyed j) ∙ (unfold lookup in refl))

  -- The lock and the scheduler have nothing to do with what is declared.
  pub moved-IsDeclared :
      (w w' : Worker S) → w'.jobs ≡ w.jobs → w'.table ≡ w.table → IsDeclared w → IsDeclared w'
  moved-IsDeclared w w' p q h = record {
    timers = λ k. ap (λ m. timer_in (lookup k m)) q ∙ h.timers k ∙ ap (λ m. declared m k) (sym p);
    named = λ id j e. h.named id j (ap (lookup id) (sym p) ∙ e);
    dashless = λ id j e. h.dashless id j (ap (lookup id) (sym p) ∙ e);
  }

  pub unlock_job_lem :
      (w : Worker S) (j : Job)
      → ((unlock_job w j).jobs ≡ w.jobs) × ((unlock_job w j).table ≡ w.table)
  unfolding unlock_job
  unlock_job_lem w j = ground arith

  pub del_job-IsDeclared : (w : Worker S) (id : Bytes) → IsDeclared w → IsDeclared (del_job w id)
  unfolding del_job lookup
  del_job-IsDeclared w id h = go _ refl
    where
      go : (o : Option Job) → lookup id w.jobs ≡ o → IsDeclared (del_job w id)
      go none e = rw (del_job, e) h
      go (some j) e =
          let u = unlock_job (record w { jobs = remove id w.jobs }) j in
          let (p, q) = unlock_job_lem (record w { jobs = remove id w.jobs }) j in
          rw (del_job, e)
            (replace-IsDeclared w (each del_cmd (cmds j) u) id (some j) none h e tt
              (λ i.
                ap (lookup i) (each-jobs del_cmd del_cmd-jobs (cmds j) u ∙ p)
                ∙ lookup-remove id i w.jobs)
              (λ k.
                timer-each_del k (cmds j) u (cmds-IsKeyed j)
                ∙ ap (λ m. if is_some (lookup k (cmds j)) then none else timer_in (lookup k m)) q))

  pub del_job-gone : (w : Worker S) (id : Bytes) → lookup id (del_job w id).jobs ≡ none
  unfolding del_job
  del_job-gone w id = go _ refl
    where
      go : (o : Option Job) → lookup id w.jobs ≡ o → lookup id (del_job w id).jobs ≡ none
      go none e = rw (del_job, e) e
      go (some j) e =
          rw (del_job, e)
            (ap (lookup id) (
                each-jobs del_cmd del_cmd-jobs (cmds j) _
                ∙ (unlock_job_lem (record w { jobs = remove id w.jobs }) j).0)
              ∙ lookup-remove_self id w.jobs)

  pub update-IsDeclared :
      (w : Worker S) (old j : Job)
      → IsDeclared w
      → lookup j.id w.jobs ≡ some old
      → Lacks b'-' j.id
      → IsDeclared (update w old j)
  unfolding update
  update-IsDeclared w old j h e d =
      let v : Worker S = record w { jobs = insert j.id j w.jobs } in
      replace-IsDeclared w (update w old j) j.id (some old) (some j) h e (refl, d)
        (λ i.
          ap (lookup i) (
            each-jobs del_cmd del_cmd-jobs (without (cmds j) (cmds old)) (each mod_cmd (cmds j) v)
            ∙ each-jobs mod_cmd mod_cmd-jobs (cmds j) v)
          ∙ lookup-insert j.id i j w.jobs)
        (λ k. timer-update k w old j)

  pub add_job-IsDeclared :
      (w : Worker S) (j : Job)
      → IsDeclared w
      → lookup j.id w.jobs ≡ none
      → Lacks b'-' j.id
      → IsDeclared (add_job w j)
  unfolding add_job
  add_job-IsDeclared w j h e d = elim (Bool-cases (is_ours w j)) [
    | inr n ↦ rw n h
    | inl n ↦ elim (Bool-cases (is_alone j.job_type)) [
      | inr f ↦ rw (n, f) (register-IsDeclared w j h e d)
      | inl f ↦ rw (n, f) (locking _ refl)
    ]
  ]
    where
      key : Bytes
      key = lock_prefix ++ j.id

      w' : Worker S
      w' = record w { world = (S.lock key w.world).1 }

      h' : IsDeclared w'
      h' = moved-IsDeclared w w' refl refl h

      locking :
          (got : Bool) → (S.lock key w.world).0 ≡ got → IsDeclared (register_locked (lock_job w j))
      locking true q = rw (lock_job, q) (register-IsDeclared w' (with_lock j key) h' e d)
      locking false q = rw (lock_job, q) h'

  -- None of the commands of a job that is not registered is.
  pub declared-AreNew :
      (w : Worker S) (j : Job)
      → IsDeclared w
      → lookup j.id w.jobs ≡ none
      → Lacks b'-' j.id
      → (k : Bytes) (c : Cmd) → lookup k (cmds j) ≡ some c
      → lookup k w.table ≡ none
  declared-AreNew w j h e d k c f = no_timer _ (
      h.timers k
      ∙ ap (λ id. timer_in (lookup k (cmds_of (lookup id w.jobs)))) (cmds-Own j d k c f)
      ∙ ap (λ o. timer_in (lookup k (cmds_of o))) e
      ∙ (unfold lookup in refl))
    where
      no_timer : (o : Option Cmd) → timer_in o ≡ none → o ≡ none
      no_timer none p = refl
      no_timer (some c) p = absurd (cc p)
