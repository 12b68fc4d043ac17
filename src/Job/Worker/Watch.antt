-- ===== src/Job/Worker/Watch.antt =====
-- What the worker does at the events of etcd: loadJobs, the loop of watchJobs, watchExecutingProc,
-- watchLocks and tryGetJob. json.Unmarshal of a job is a parameter; `none` is its error.
use juno_agent.Base.{Option, none, some, Bool, List, [], ◌∷◌, ◌++◌, if◌then◌else◌}
use juno_agent.Base.Text.{Bytes, text_eq}
use juno_agent.Base.Dict.{lookup}
use juno_agent.Base.Outcome.{ok, err, panics, hangs}
use juno_agent.Parser.Descriptor.{TimeText}
use juno_agent.Job.Types.{Job, valid_rules}
use juno_agent.Job.Keys.{jobs_prefix, get_id_from_key, get_job_id_from_lock_key, get_proc_from_key}
use juno_agent.Job.Worker.{Services, Worker, add_job, mod_job, del_job}

-- The events of a watch on the jobs, with the key and, where there is one, the value.
pub data Event : Type 0 where
  created : Bytes → Bytes → Event
  modified : Bytes → Bytes → Event
  deleted : Bytes → Event

-- What reading a job may come to: the job, an error, or a panic of the expression parser.
pub data Content : Type 0 where
  content : Job → Content
  rejected : Content
  crashed : Content

module _ (lib : TimeText) (unmarshal : Bytes → Option Job) where
  -- GetJobContentFromKv
  unfoldable pub get_job_content : Bytes → Content
  get_job_content value = elim (unmarshal value) [
    | none ↦ rejected
    | some job ↦ elim (valid_rules lib job.timers) [
      | ok timers ↦ content (record job { timers = timers })
      | err e ↦ rejected
      | panics ↦ crashed
      | hangs ↦ crashed
    ]
  ]

  -- A watch goes on after an event, or the process has crashed.
  abbrev pub with_content {ℓ} : {A : Type ℓ} → Content → A → (Job → A) → Option A
  with_content (content job) w f = some (f job)
  with_content rejected w f = some w
  with_content crashed w f = none

  module _ {S : Services} where
    -- job.runOn = w.ID, the worker's id being its host name
    abbrev pub on_worker : Worker S → Job → Job
    on_worker w job = record job { run_on = w.host }

    -- A job that is not registered is added.
    unfoldable pub add_new : Worker S → Job → Worker S
    unfolding add_job
    add_new w job = elim (lookup job.id w.jobs) [ none ↦ add_job w job | some _ ↦ w ]

    unfoldable pub load_each : List (Bytes × Bytes) → Worker S → Option (Worker S)
    unfolding get_job_content add_new
    load_each [] w = some w
    load_each ((key, value) ∷ kvs) w =
        elim (with_content (get_job_content value) w (λ job. add_new w (on_worker w job))) [
          | none ↦ none
          | some w' ↦ load_each kvs w'
        ]

    -- loadJobs
    unfoldable pub load_jobs : List (Bytes × Bytes) → Worker S → Option (Worker S)
    unfolding load_each
    load_jobs kvs w = load_each kvs (record w { jobs = [] })

    -- The loop of watchJobs, at one event.
    unfoldable pub handle : Worker S → Event → Option (Worker S)
    unfolding get_job_content add_job mod_job del_job get_id_from_key
    handle w (created key value) =
        with_content (get_job_content value) w (λ job. add_job w (on_worker w job))
    handle w (modified key value) =
        with_content (get_job_content value) w (λ job. mod_job w (on_worker w job))
    handle w (deleted key) = some (del_job w (get_id_from_key key))

    -- tryGetJob, `get` being the value that etcd has under a key.
    unfoldable pub try_get_job : (Bytes → Option Bytes) → Worker S → Bytes → Option (Worker S)
    unfolding get_job_content add_new
    try_get_job get w id = elim (get (jobs_prefix ++ id)) [
      | none ↦ some w
      | some value ↦ with_content (get_job_content value) w (add_new w)
    ]

    -- watchLocks, at the end of a lock.
    unfoldable pub lock_deleted : (Bytes → Option Bytes) → Worker S → Bytes → Option (Worker S)
    unfolding try_get_job get_job_id_from_lock_key
    lock_deleted get w key = try_get_job get w (get_job_id_from_lock_key key)

-- watchExecutingProc, at a changed process: the pid text of the process to kill. `killed` reads the
-- flag from the value; `none` is an error.
unfoldable pub to_kill : Bytes → (Bytes → Option Bool) → Bytes → Bytes → Option Bytes
unfolding get_proc_from_key
to_kill host killed key value = elim (get_proc_from_key key) [
  | none ↦ none
  | some p ↦
      if text_eq p.node_id host
      then elim (killed value) [ none ↦ none | some k ↦ if k then some p.id else none ]
      else none
]
