-- ===== src/Health.antt =====
-- Health checks: HealthCheck and DoHealthCheck of pkg/check/healthCheck.go with HealthCheckResult of
-- pkg/check/view, and checkServiceNodes of pkg/core/engine.go with the CheckMeta of client.go. What
-- the four kinds of checks do, and whether a node answers a ping, are parameters.
pub mod Laws
pub mod Dsn
pub mod Kinds
use juno_agent.Base.{
  ℕ, zero, suc, ◌+◌, Option, none, some, Bool, true, false, List, [], ◌∷◌, ◌++◌, ◌==◌, ltb,
  if◌then◌else◌, length, map,
}
use juno_agent.Base.Text.{Bytes, codes, text_eq}

pub data Component : Type 0 where
  mysql redis tcp http : Component

-- The container that init fills.
unfoldable pub component_of : Bytes → Option Component
component_of name =
    if text_eq name (codes "mysql")
    then some mysql
    else if text_eq name (codes "redis")
    then some redis
    else if text_eq name (codes "tcp")
    then some tcp
    else if text_eq name (codes "http")
    then some http
    else none

-- ResHealthCheck, without its time.
pub record ResHealthCheck : Type 0 where
  pub component_type : Bytes
  pub is_success : Bool
  pub msg : Bytes

-- A check's answer, the text of its error, or a panic.
pub data Checked : Type 0 where
  checked : ResHealthCheck → Checked
  failed : Bytes → Checked
  crashed : Checked

-- LoadExtConfig, with the text of its error if there is one, and DoHealthCheck of an implementation
-- that has the configuration.
pub record Checks : Type 0 where
  pub load_ext_config : Component → Bytes → Option Bytes
  pub check : Component → Bytes → Checked

module _ (C : Checks) where
  unfoldable pub do_health_check : Bytes → Bytes → Checked
  unfolding component_of
  do_health_check component_type ext_config = elim (component_of component_type) [
    | none ↦ failed (codes "can not load healthCheck instance")
    | some c ↦ elim (C.load_ext_config c ext_config) [
      | some e ↦ failed e
      | none ↦ C.check c ext_config
    ]
  ]

  -- What the goroutine of one check sends; a panic ends the agent.
  unfoldable pub sends : Bytes × Bytes → Option ResHealthCheck
  unfolding do_health_check
  sends (component_type, ext_config) = elim (do_health_check component_type ext_config) [
    | failed e ↦ some (record { component_type = component_type; is_success = false; msg = e })
    | checked res ↦ some res
    | crashed ↦ none
  ]

-- The loop that gathers results: it returns with those it got and those left in the channel, or it
-- still spins when all that ever arrive are received.
pub data Gathered : Type 0 where
  returned : List ResHealthCheck → List ResHealthCheck → Gathered
  spinning : List ResHealthCheck → Gathered

unfoldable pub gather : ℕ → List ResHealthCheck → List ResHealthCheck → Gathered
gather wanted results [] = spinning results
gather wanted results (res ∷ arriving) =
    let results = results ++ (res ∷ []) in
    let rest = gather wanted results arriving in
    if length results == wanted then returned results arriving else rest

-- HealthCheck of a request, with the order in which results arrive in the channel that all requests
-- share.
unfoldable pub health_check : List (Bytes × Bytes) → List ResHealthCheck → Gathered
unfolding gather
health_check check_datas arriving = gather (length check_datas) [] arriving

-- What checkServiceNodes does with one node in a round at the second `now`: the next check time,
-- which starts at 0, and whether the node was pinged.
unfoldable pub check_node : ℕ → Bool → ℕ → ℕ × Bool
check_node now alive next =
    if ltb now next then (next, false) else (next + (if alive then 60 else 3), true)

-- The rounds of one node, each with its time and whether the node answers: how many pinged it.
unfoldable pub check_rounds : List (ℕ × Bool) → ℕ → ℕ
unfolding check_node
check_rounds [] next = 0
check_rounds ((now, alive) ∷ rounds) next =
    let (next, pinged) = check_node now alive next in
    let rest = check_rounds rounds next in if pinged then suc rest else rest
