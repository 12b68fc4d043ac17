-- ===== src/Job/Delivery.antt =====
-- How the events of the watch reach the worker: the goroutine of WatchPrefix in pkg/job/etcd/watch.go
-- that fills the channel, and the loop of watchJobs in pkg/job/worker.go that empties it, in any
-- order.
pub mod Order
use juno_agent.Base.{Option, none, some, List, [], ◌∷◌}
use juno_agent.Base.Text.{Bytes}
use juno_agent.Parser.Descriptor.{TimeText}
use juno_agent.Job.Types.{Job}
use juno_agent.Job.EtcdWatch.{Response, Watch, take_in, receive}
use juno_agent.Job.Worker.{Services, Worker}
use juno_agent.Job.Worker.Watch.{Event, handle}

-- A response of etcd comes in, or the loop takes the next event out.
pub data Action : Type 0 where
  respond : Response Event → Action
  next_event : Action

-- The watch, and the worker until the loop has crashed.
pub record State (S : Services) : Type 0 where
  pub watch : Watch Event
  pub worker : Option (Worker S)

module _ {S : Services} (lib : TimeText) (unmarshal : Bytes → Option Job) where
  unfoldable pub handle_next : Event → Option (Worker S) → Option (Worker S)
  unfolding handle
  handle_next ev none = none
  handle_next ev (some w) = handle lib unmarshal w ev

  unfoldable pub step : Action → State S → State S
  unfolding take_in receive handle_next
  step (respond n) s = record s { watch = take_in s.watch n }
  step next_event s = elim (receive s.watch) [
    | none ↦ s
    | some (ev, watch) ↦ record { watch = watch; worker = handle_next ev s.worker }
  ]

  unfoldable pub run : List Action → State S → State S
  unfolding step
  run [] s = s
  run (a ∷ rest) s = run rest (step a s)

  -- What the loop makes of events that come one behind another.
  unfoldable pub handle_all : List Event → Option (Worker S) → Option (Worker S)
  unfolding handle_next
  handle_all [] w = w
  handle_all (ev ∷ events) w = handle_all events (handle_next ev w)
