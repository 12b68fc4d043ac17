-- ===== src/Job/EtcdWatch.antt =====
-- A watch of a prefix: WatchPrefix of pkg/job/etcd/watch.go, with its revision and its channel of 100
-- events. What etcd answers is a parameter.
pub mod Buffer
use juno_agent.Base.{
  ℕ, ◌+◌, Option, none, some, Bool, true, false, List, [], ◌∷◌, ◌++◌, ltb, if◌then◌else◌, length,
}

-- A clientv3.WatchResponse.
pub record Response (E : Type 0) : Type 0 where
  pub compact_revision : ℕ
  pub header_revision : ℕ
  pub failed : Bool
  pub events : List E

pub record Watch (E : Type 0) : Type 0 where
  pub revision : ℕ
  pub chan : List E

module _ {E : Type 0} where
  -- The send with a default, on a channel that holds 100 events.
  unfoldable pub send : List E → E → List E
  send chan ev = if ltb (length chan) 100 then chan ++ (ev ∷ []) else chan

  unfoldable pub send_all : List E → List E → List E
  unfolding send
  send_all chan [] = chan
  send_all chan (ev ∷ events) = send_all (send chan ev) events

  -- The two updates of the revision.
  unfoldable pub advance : Watch E → Response E → Watch E
  advance w n =
      let r = if ltb w.revision n.compact_revision then n.compact_revision else w.revision in
      record w { revision = if ltb r n.header_revision then n.header_revision else r }

  -- One response: an error is passed over behind the update of the revision.
  unfoldable pub take_in : Watch E → Response E → Watch E
  unfolding advance send_all
  take_in w n =
      let w = advance w n in if n.failed then w else record w { chan = send_all w.chan n.events }

  -- The loop over the responses of one connection.
  unfoldable pub take_in_all : Watch E → List (Response E) → Watch E
  unfolding take_in
  take_in_all w [] = w
  take_in_all w (n ∷ ns) = take_in_all (take_in w n) ns

  -- What the reader of C takes out.
  unfoldable pub receive : Watch E → Option (E × Watch E)
  receive w = elim w.chan [ [] ↦ none | ev ∷ events ↦ some (ev, record w { chan = events }) ]

  -- WatchPrefix, behind its first read of etcd at a revision.
  unfoldable pub watch_prefix : ℕ → Watch E
  watch_prefix revision = record { revision = revision; chan = [] }

  -- The revision from which the watch is made anew when a connection ends, if there is one.
  unfoldable pub again_from : Watch E → Option ℕ
  again_from w = if ltb 0 w.revision then some w.revision else none
