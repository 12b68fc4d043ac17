-- ===== src/Examples/Start.antt =====
-- The theorem on the start of the agent at concrete inputs.
use juno_agent.Base.{◌≡◌, refl, none, some, true, false, Bool, Option, List, [], ◌∷◌}
use juno_agent.Base.Text.{Bytes, codes}
use juno_agent.Nginx.{scanned}
use juno_agent.Engine.Startup.{
  Engine, Plugin, supervisor_scanner, Plugins, Outcome, done, next, Startup, new_engine,
}
use juno_agent.Engine.Startup.Spec.{engine_of}
use juno_agent.Engine.Startup.Refined.{new_engine-refines}

abbrev serial : {A : Type 0} → List (A → Outcome A) → A → Outcome A
serial [] e = done e
serial (f ∷ fs) e = next (f e) (serial fs)

abbrev startup : Startup (Engine Bytes)
startup = record { startup = serial; startup-nil = λ e. refl; startup-cons = λ f fs e. refl }

-- A node on which the programs of systemd cannot be listed, and supervisor's scanner is not enabled.
abbrev sections : Plugin → Option Bool
sections supervisor_scanner = some false
sections _ = some true

abbrev plugins : Plugins Bytes
plugins = record {
  section = sections;
  flag = λ plugin. false;
  log_builds = true;
  nginx_scan =
      scanned (record { name = codes "/etc/n.conf"; status = codes "list"; block = [] } ∷ []) [];
  nginx_watch = true;
  processes = some [];
  conf_builds = true;
  reg_builds = true;
  supervisor_watch = true;
  list_supervisor = none;
  systemd_watch = true;
  list_systemd = none;
  worker_builds = true;
  grpc_builds = true;
  serve_grpc = true;
  http_builds = true;
  serve_http = true;
}

new_engine-refines_example : new_engine plugins startup ≡ some (engine_of plugins)
new_engine-refines_example = new_engine-refines plugins startup
