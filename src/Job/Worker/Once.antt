-- ===== src/Job/Worker/Once.antt =====
-- What the worker does at an order to run a job at once: GetOnceJobFromKv and watchOnce of
-- pkg/job/worker.go, and NewTask of pkg/job/task.go.
use juno_agent.Base.{ℕ, Option, none, some, ◌==◌, if◌then◌else◌}
use juno_agent.Base.Text.{Bytes}
use juno_agent.Base.Outcome.{ok, err, panics, hangs}
use juno_agent.Parser.Descriptor.{TimeText}
use juno_agent.Job.Types.{Job, valid_rules}
use juno_agent.Job.Worker.Watch.{Event, created, modified, deleted}

-- OnceJob of oncejob.go
pub record OnceJob : Type 0 where
  pub job : Job
  pub task_id : ℕ

-- What a watch of orders does at an event: it starts a run, goes on, or crashes in the parser.
pub data Order : Type 0 where
  runs_once : OnceJob → Order
  passes : Order
  crashes : Order

-- GetOnceJobFromKv, and the run that watchOnce starts with its job.
unfoldable pub once_order : TimeText → (Bytes → Option OnceJob) → Bytes → Order
once_order lib unmarshal value = elim (unmarshal value) [
  | none ↦ passes
  | some once ↦ elim (valid_rules lib once.job.timers) [
    | ok timers ↦ runs_once (record once { job = record once.job { timers = timers } })
    | err e ↦ passes
    | panics ↦ crashes
    | hangs ↦ crashes
  ]
]

-- The loop of watchOnce, at one event.
unfoldable pub handle_once : TimeText → (Bytes → Option OnceJob) → Event → Order
unfolding once_order
handle_once lib unmarshal (created key value) = once_order lib unmarshal value
handle_once lib unmarshal (modified key value) = once_order lib unmarshal value
handle_once lib unmarshal (deleted key) = passes

-- NewTask: the task id that an option sets, or a new one where that is 0. `given` is what the options
-- set, 0 without one.
unfoldable pub new_task_id : ℕ → ℕ → ℕ
new_task_id given fresh = if given == 0 then fresh else given
