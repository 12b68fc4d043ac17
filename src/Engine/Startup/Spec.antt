-- ===== src/Engine/Startup/Spec.antt =====
-- What the start needs, and the engine that it leaves.
use juno_agent.Base.{
  not, ◌||◌, Option, none, some, Bool, true, false, ◌&&◌, List, [], ◌∷◌, if◌then◌else◌,
}
use juno_agent.Engine.{update_processes, is_there}
use juno_agent.Nginx.{ScanResult, NginxConfExt, crashes, scanned}
use juno_agent.Engine.Startup.{
  Loop, report, nginx_updates, process_updates, conf_nodes, reg_nodes, supervisor_programs,
  systemd_programs, service_nodes, worker, Engine, Plugin, agent_report, nginx_scanner,
  process_scanner, conf_proxy, reg_proxy, supervisor_scanner, systemd_scanner, health_check,
  cron_worker, Plugins, load_nginx, load_programs, by_command,
}

abbrev pub or_empty {ℓ} : {A : Type ℓ} → Option (List A) → List A
or_empty none = []
or_empty (some xs) = xs

abbrev pub select {ℓ} : {A : Type ℓ} → (A → Bool) → List A → List A
select p [] = []
select p (x ∷ xs) = let rest = select p xs in if p x then x ∷ rest else rest

abbrev pub all_loops : List Loop
all_loops =
    worker ∷ service_nodes ∷ systemd_programs ∷ supervisor_programs ∷ reg_nodes ∷ conf_nodes
    ∷ process_updates ∷ nginx_updates ∷ report ∷ []

module _ {B : Type 0} where
  abbrev pub is_scanned : ScanResult B → Bool
  is_scanned crashes = false
  is_scanned (scanned confs paths) = true

  abbrev pub confs_of : ScanResult B → List (NginxConfExt B)
  confs_of crashes = []
  confs_of (scanned confs paths) = confs

  -- Whether a section can be read, and whether the plug-in is enabled then.
  abbrev pub has_section : Plugins B → Plugin → Bool
  has_section P plugin = is_there (P.section plugin)

  abbrev pub enabled : Plugins B → Plugin → Bool
  enabled P plugin = elim (P.section plugin) [
    | none ↦ false
    | some enable ↦ P.flag plugin || enable
  ]

  -- What is asked of a plug-in that is enabled.
  abbrev pub when_enabled : Plugins B → Plugin → Bool → Bool
  when_enabled P plugin asked = has_section P plugin && (not (enabled P plugin) || asked)

  -- All that the start needs, in the order of its functions.
  abbrev pub requirements : Plugins B → List Bool
  requirements P =
      P.log_builds
      ∷ has_section P agent_report
      ∷ when_enabled P nginx_scanner (is_scanned P.nginx_scan && P.nginx_watch)
      ∷ when_enabled P process_scanner (is_there P.processes)
      ∷ (enabled P conf_proxy && P.conf_builds)
      ∷ when_enabled P reg_proxy P.reg_builds
      ∷ when_enabled P supervisor_scanner P.supervisor_watch
      ∷ when_enabled P systemd_scanner P.systemd_watch
      ∷ has_section P health_check
      ∷ (P.grpc_builds && P.serve_grpc)
      ∷ (P.http_builds && P.serve_http)
      ∷ (has_section P cron_worker && P.worker_builds)
      ∷ []

  -- The loops that run in an agent that has started.
  abbrev pub runs : Plugins B → Loop → Bool
  runs P report = enabled P agent_report
  runs P reg_nodes = enabled P reg_proxy
  runs P supervisor_programs = not (enabled P supervisor_scanner) || is_there P.list_supervisor
  runs P systemd_programs = is_there P.list_systemd
  runs P nginx_updates = true
  runs P process_updates = true
  runs P conf_nodes = true
  runs P service_nodes = true
  runs P worker = true

  abbrev pub if_enabled : {A : Type 0} → Plugins B → Plugin → List A → List A
  if_enabled P plugin xs = if enabled P plugin then xs else []

  abbrev pub engine_of : Plugins B → Engine B
  engine_of P = record {
    programs = load_programs (or_empty P.list_systemd) (
        load_programs (if_enabled P supervisor_scanner (or_empty P.list_supervisor))
          (load_nginx (if_enabled P nginx_scanner (confs_of P.nginx_scan)) []));
    process_map =
        update_processes (by_command (if_enabled P process_scanner (or_empty P.processes))) [];
    loops = select (runs P) all_loops;
  }
