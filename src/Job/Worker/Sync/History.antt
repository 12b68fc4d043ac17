-- ===== src/Job/Worker/Sync/History.antt =====
-- Histories of a worker: what the watch of pkg/job/worker.go brings to it, one event after another,
-- and what holds of the worker behind any of them.
use mathlib.Core.Path.{subst}
use juno_agent.Base.{
  ℕ, Option, none, some, false, not, ◌&&◌, [], ◌≡◌, refl, ap, ◌∙◌, Bool-cases, inl, inr,
}
use juno_agent.Base.Text.{Bytes, Lacks}
use juno_agent.Base.Dict.{lookup}
use juno_agent.Parser.Descriptor.{TimeText}
use juno_agent.Job.Types.{Job, is_alone, is_normal}
use juno_agent.Job.Keys.{get_id_from_key}
use juno_agent.Job.Worker.{
  Services, IsCron, Worker, unlock_job, is_ours, add_job, del_job, update, inherit, mod_known,
  mod_job,
}
use juno_agent.Job.Worker.Commands.{IsConsistent}
use juno_agent.Job.Worker.Watch.{
  Event, created, modified, deleted, Content, content, rejected, crashed, get_job_content,
  with_content, on_worker, handle,
}
use juno_agent.Job.Worker.Sync.Timers.{timer_at}
use juno_agent.Job.Worker.Sync.Steady.{
  add_job-IsConsistent, del_job-IsConsistent, unlock_job-IsConsistent, update-IsConsistent,
}
use juno_agent.Job.Worker.Sync.Declared.{declared, IsDeclared}
use juno_agent.Job.Worker.Sync.Changed.{
  add_job-IsDeclared, del_job-IsDeclared, del_job-gone, update-IsDeclared, moved-IsDeclared,
  unlock_job_lem, declared-AreNew,
}

-- The worker's table and the scheduler are in step, and hold what the jobs declare.
pub record IsSound {S : Services} (w : Worker S) : Type 0 where
  pub consistent : IsConsistent w
  pub declares : IsDeclared w

module _ {S : Services} (laws : IsCron S) where
  pub add_job-IsSound :
      (w : Worker S) (j : Job)
      → IsSound w
      → lookup j.id w.jobs ≡ none
      → Lacks b'-' j.id
      → IsSound (add_job w j)
  add_job-IsSound w j h e d = record {
    consistent = add_job-IsConsistent laws w j h.consistent (declared-AreNew w j h.declares e d);
    declares = add_job-IsDeclared w j h.declares e d;
  }

  del_job-IsSound : (w : Worker S) (id : Bytes) → IsSound w → IsSound (del_job w id)
  del_job-IsSound w id h = record {
    consistent = del_job-IsConsistent laws w id h.consistent;
    declares = del_job-IsDeclared w id h.declares;
  }

  mod_known-IsSound :
      (w : Worker S) (old j : Job)
      → IsSound w
      → lookup j.id w.jobs ≡ some old
      → Lacks b'-' j.id
      → IsSound (mod_known w old j)
  unfolding mod_known
  mod_known-IsSound w old j h e d = elim (Bool-cases (is_ours w j')) [
    | inr n ↦ rw n (del_job-IsSound w j.id h)
    | inl n ↦ elim (Bool-cases (is_alone j.job_type && not (is_alone old.job_type))) [
      | inl a ↦
          rw (n, a)
            (add_job-IsSound (del_job w j.id) j' (del_job-IsSound w j.id h) (del_job-gone w j.id) d)
      | inr a ↦ elim (Bool-cases (is_normal j.job_type && not (is_normal old.job_type))) [
        | inl b ↦ rw (n, a, b) (update-IsSound (unlock_job w old) unlocked (ap (lookup j.id) p ∙ e))
        | inr b ↦ rw (n, a, b) (update-IsSound w h e)
      ]
    ]
  ]
    where
      j' : Job
      j' = inherit j old

      p : (unlock_job w old).jobs ≡ w.jobs
      p = (unlock_job_lem w old).0

      unlocked : IsSound (unlock_job w old)
      unlocked = record {
        consistent = unlock_job-IsConsistent laws w old h.consistent;
        declares = moved-IsDeclared w (unlock_job w old) p (unlock_job_lem w old).1 h.declares;
      }

      update-IsSound :
          (v : Worker S) → IsSound v → lookup j.id v.jobs ≡ some old → IsSound (update v old j')
      update-IsSound v g f = record {
        consistent = update-IsConsistent laws v old j' g.consistent;
        declares = update-IsDeclared v old j' g.declares f d;
      }

  mod_job-IsSound : (w : Worker S) (j : Job) → IsSound w → Lacks b'-' j.id → IsSound (mod_job w j)
  unfolding mod_job
  mod_job-IsSound w j h d = go _ refl
    where
      go : (o : Option Job) → lookup j.id w.jobs ≡ o → IsSound (mod_job w j)
      go none e = rw (mod_job, e) (add_job-IsSound w j h e d)
      go (some old) e = rw (mod_job, e) (mod_known-IsSound w old j h e d)

-- What is asked of the job that an event brings, if it brings one.
abbrev pub Brings : Content → (Job → Type 0) → Type 0
Brings (content j) P = P j
Brings rejected P = Unit
Brings crashed P = Unit

module _ {S : Services} (lib : TimeText) (unmarshal : Bytes → Option Job) where
  -- A job that is created is not registered, and no job's id holds a '-'.
  abbrev pub Admits : Worker S → Event → Type 0
  Admits w (created key value) =
      Brings (get_job_content lib unmarshal value)
        λ j. (lookup j.id w.jobs ≡ none) × Lacks b'-' j.id
  Admits w (modified key value) = Brings (get_job_content lib unmarshal value) λ j. Lacks b'-' j.id
  Admits w (deleted key) = Unit

  -- The workers behind a sequence of events, from one with no job, no command and no entry.
  pub data History : Worker S → Type 0 where
    start :
        (host : Bytes) (world : S.World)
        → ((e : ℕ) → S.is_entry world e ≡ false)
        → History (record { host = host; jobs = []; table = []; world = world })
    event :
        {w : Worker S} (e : Event) {w' : Worker S}
        → History w
        → Admits w e
        → handle lib unmarshal w e ≡ some w'
        → History w'

  module _ (laws : IsCron S) where
    brought :
        (w w' : Worker S) (f : Job → Worker S) (P : Job → Type 0) (c : Content)
        → IsSound w
        → Brings c P
        → ((j : Job) → P j → IsSound (f j))
        → with_content lib unmarshal c w f ≡ some w'
        → IsSound w'
    brought w w' f P (content j) h b keeps e =
        let p : f j ≡ w' = cc in subst (λ v. IsSound v) p (keeps j b)
    brought w w' f P rejected h b keeps e = let p : w ≡ w' = cc in subst (λ v. IsSound v) p h
    brought w w' f P crashed h b keeps e = absurd (cc e)

    handle-IsSound :
        (w w' : Worker S) (e : Event)
        → IsSound w
        → Admits w e
        → handle lib unmarshal w e ≡ some w'
        → IsSound w'
    unfolding handle
    handle-IsSound w w' (created key value) h a q =
        brought w w' (λ job. add_job w (on_worker lib unmarshal w job)) _
          (get_job_content lib unmarshal value) h a
          (λ j b. add_job-IsSound laws w (on_worker lib unmarshal w j) h b.0 b.1) q
    handle-IsSound w w' (modified key value) h a q =
        brought w w' (λ job. mod_job w (on_worker lib unmarshal w job)) _
          (get_job_content lib unmarshal value) h a
          (λ j b. mod_job-IsSound laws w (on_worker lib unmarshal w j) h b) q
    handle-IsSound w w' (deleted key) h a q =
        let p : del_job w (get_id_from_key key) ≡ w' = cc in
        subst (λ v. IsSound v) p (del_job-IsSound laws w (get_id_from_key key) h)

    History-IsSound : (w : Worker S) → History w → IsSound w
    unfolding lookup
    History-IsSound w (start host world fresh) = record {
      consistent = record {
        live = λ k c e. absurd (cc e);
        owned = λ e r. absurd (cc (r, fresh e));
        single = λ k j c d e. absurd (cc e);
      };
      declares = record {
        timers = λ k. refl;
        named = λ id j e. absurd (cc e);
        dashless = λ id j e. absurd (cc e);
      };
    }
    History-IsSound w (event {w = v} e r a q) = handle-IsSound v w e (History-IsSound v r) a q

    -- Behind any sequence of events that the watch handles, from a worker with no job, no command and
    -- no scheduled entry, where robfig/cron does as it documents, the id of no job holds a '-' and a
    -- job that is created is not registered already: under every command id, the timer registered is
    -- the one that the registered jobs declare, or none if they declare none; and the commands and
    -- the scheduler's entries stand to one another one to one.
    pub History-timers :
        (w : Worker S)
        → History w
        → (k : Bytes) → (timer_at k w ≡ declared w.jobs k) × IsConsistent w
    History-timers w r k = let h = History-IsSound w r in (h.declares.timers k, h.consistent)
