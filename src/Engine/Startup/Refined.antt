-- ===== src/Engine/Startup/Refined.antt =====
-- When the agent starts, and what it then runs.
use juno_agent.Base.{none, some, if◌then◌else◌, ◌≡◌, ap, ◌∙◌}
use juno_agent.Engine.Startup.{
  Engine, Plugins, Startup, starters, no_engine, new_engine, unless_panic,
}
use juno_agent.Engine.Startup.Steps.{startup-in_turn, all_of}
use juno_agent.Engine.Startup.Spec.{engine_of, requirements}
use juno_agent.Engine.Startup.Starters.{in_turn-starters}

module _ {B : Type 0} where
  -- Under a Startup that calls its functions in order, NewEngine panics unless every plug-in's section
  -- of the configuration can be read, every Build returns that is called, the proxy of configurations
  -- is enabled, both servers serve, and of the scanners that are enabled the watches can be set up, the
  -- scan of nginx's configurations does not panic and the processes can be listed. Else the engine
  -- holds what nginx's scan, supervisor's list and systemd's list give, in this order, and all
  -- processes, nothing of a scanner that is not enabled but of systemd, and it runs every loop, but
  -- those of reports and of registrations only where they are enabled, and those of supervisor's and of
  -- systemd's programs only where the first list gives no error.
  pub new_engine-refines :
      (P : Plugins B) (S : Startup (Engine B))
      → new_engine P S ≡ (if all_of (requirements P) then some (engine_of P) else none)
  unfolding new_engine
  new_engine-refines P S =
      ap unless_panic (startup-in_turn S (starters P) no_engine) ∙ in_turn-starters P
