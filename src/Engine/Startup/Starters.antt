-- ===== src/Engine/Startup/Starters.antt =====
-- The functions of the start by what they need and make.
use juno_agent.Base.{
  not, ◌||◌, none, some, Bool, true, ◌&&◌, List, [], ◌∷◌, if◌then◌else◌, ◌≡◌, refl, arith,
}
use juno_agent.Engine.{update_processes, is_there}
use juno_agent.Engine.Startup.{
  Loop, report, nginx_updates, process_updates, conf_nodes, reg_nodes, supervisor_programs,
  systemd_programs, service_nodes, worker, Engine, agent_report, nginx_scanner, process_scanner,
  conf_proxy, reg_proxy, supervisor_scanner, systemd_scanner, health_check, cron_worker, Plugins,
  next, load_nginx, load_programs, by_command, std_config, start_log_record, start_report_status,
  start_nginx_conf_scanner, start_process_scanner, start_conf_proxy, start_reg_proxy, start_scanner,
  start_supervisor_scanner, start_systemd_scanner, start_health_scanner, start_heal_check,
  start_worker, serve, nothing, starters, no_engine, unless_panic,
}
use juno_agent.Engine.Startup.Steps.{in_turn, Step, all_of, in_turn-steps}
use juno_agent.Engine.Startup.Spec.{
  confs_of, enabled, engine_of, has_section, if_enabled, is_scanned, or_empty, requirements,
  when_enabled,
}

module _ {B : Type 0} where
  abbrev leave_if : Bool → Loop → Engine B → Engine B
  leave_if b loop e = record e { loops = if b then loop ∷ e.loops else e.loops }

  start_log_record_lem :
      (P : Plugins B) (e : Engine B)
      → unless_panic (start_log_record P e) ≡ (if P.log_builds then some (e) else none)
  unfolding unless_panic next std_config start_log_record
  start_log_record_lem P e = ground arith

  start_report_status_lem :
      (P : Plugins B) (e : Engine B)
      → unless_panic (start_report_status P e) ≡ (
          if has_section P agent_report
          then some (leave_if (enabled P agent_report) report e)
          else none)
  unfolding unless_panic next std_config start_report_status
  start_report_status_lem P e = ground arith

  start_nginx_conf_scanner_lem :
      (P : Plugins B) (e : Engine B)
      → unless_panic (start_nginx_conf_scanner P e) ≡ (
          if when_enabled P nginx_scanner (is_scanned P.nginx_scan && P.nginx_watch)
          then some (record e {
            programs = load_nginx (if_enabled P nginx_scanner (confs_of P.nginx_scan)) e.programs;
            loops = nginx_updates ∷ e.loops;
          })
          else none)
  unfolding unless_panic next std_config start_nginx_conf_scanner load_nginx
  start_nginx_conf_scanner_lem P e = ground arith

  start_process_scanner_lem :
      (P : Plugins B) (e : Engine B)
      → unless_panic (start_process_scanner P e) ≡ (
          if when_enabled P process_scanner (is_there P.processes)
          then some (record e {
            process_map =
                update_processes
                  (by_command (if_enabled P process_scanner (or_empty P.processes)))
                  e.process_map;
            loops = process_updates ∷ e.loops;
          })
          else none)
  unfolding unless_panic next std_config start_process_scanner update_processes
  start_process_scanner_lem P e = ground arith

  start_conf_proxy_lem :
      (P : Plugins B) (e : Engine B)
      → unless_panic (start_conf_proxy P e) ≡ (
          if enabled P conf_proxy && P.conf_builds then some (leave_if true conf_nodes e) else none)
  unfolding unless_panic next std_config start_conf_proxy
  start_conf_proxy_lem P e = ground arith

  start_reg_proxy_lem :
      (P : Plugins B) (e : Engine B)
      → unless_panic (start_reg_proxy P e) ≡ (
          if when_enabled P reg_proxy P.reg_builds
          then some (leave_if (enabled P reg_proxy) reg_nodes e)
          else none)
  unfolding unless_panic next std_config start_reg_proxy
  start_reg_proxy_lem P e = ground arith

  start_supervisor_scanner_lem :
      (P : Plugins B) (e : Engine B)
      → unless_panic (start_supervisor_scanner P e) ≡ (
          if when_enabled P supervisor_scanner P.supervisor_watch
          then some (record e {
            programs =
                load_programs
                  (if_enabled P supervisor_scanner (or_empty P.list_supervisor))
                  e.programs;
            loops =
                if not (enabled P supervisor_scanner) || is_there P.list_supervisor
                then supervisor_programs ∷ e.loops
                else e.loops;
          })
          else none)
  unfolding unless_panic next std_config start_supervisor_scanner start_scanner load_programs
  start_supervisor_scanner_lem P e = ground arith

  start_systemd_scanner_lem :
      (P : Plugins B) (e : Engine B)
      → unless_panic (start_systemd_scanner P e) ≡ (
          if when_enabled P systemd_scanner P.systemd_watch
          then some (record e {
            programs = load_programs (or_empty P.list_systemd) e.programs;
            loops = if is_there P.list_systemd then systemd_programs ∷ e.loops else e.loops;
          })
          else none)
  unfolding unless_panic next std_config start_systemd_scanner start_scanner load_programs
  start_systemd_scanner_lem P e = ground arith

  start_health_scanner_lem :
      (P : Plugins B) (e : Engine B)
      → unless_panic (start_health_scanner P e)
        ≡ (if true then some (leave_if true service_nodes e) else none)
  unfolding unless_panic next std_config start_health_scanner
  start_health_scanner_lem P e = ground arith

  start_heal_check_lem :
      (P : Plugins B) (e : Engine B)
      → unless_panic (start_heal_check P e)
        ≡ (if has_section P health_check then some (e) else none)
  unfolding unless_panic next std_config start_heal_check
  start_heal_check_lem P e = ground arith

  start_worker_lem :
      (P : Plugins B) (e : Engine B)
      → unless_panic (start_worker P e) ≡ (
          if has_section P cron_worker && P.worker_builds
          then some (leave_if true worker e)
          else none)
  unfolding unless_panic next std_config start_worker
  start_worker_lem P e = ground arith

  serve_lem :
      (builds serves : Bool) (e : Engine B)
      → unless_panic (serve builds serves e) ≡ (if builds && serves then some e else none)
  unfolding unless_panic serve
  serve_lem builds serves e = ground arith

  nothing_lem : (e : Engine B) → unless_panic (nothing e) ≡ some e
  unfolding unless_panic
  nothing_lem e = refl

  abbrev steps : Plugins B → List (Step (Engine B))
  steps P =
      record {
        run = start_log_record P;
        needs = P.log_builds;
        makes = λ e. e;
        runs = start_log_record_lem P;
      }
      ∷ record {
        run = start_report_status P;
        needs = has_section P agent_report;
        makes = λ e. leave_if (enabled P agent_report) report e;
        runs = start_report_status_lem P;
      }
      ∷ record {
        run = start_nginx_conf_scanner P;
        needs = when_enabled P nginx_scanner (is_scanned P.nginx_scan && P.nginx_watch);
        makes = λ e. record e {
          programs = load_nginx (if_enabled P nginx_scanner (confs_of P.nginx_scan)) e.programs;
          loops = nginx_updates ∷ e.loops;
        };
        runs = start_nginx_conf_scanner_lem P;
      }
      ∷ record { run = nothing; needs = true; makes = λ e. e; runs = nothing_lem }
      ∷ record {
        run = start_process_scanner P;
        needs = when_enabled P process_scanner (is_there P.processes);
        makes = λ e. record e {
          process_map =
              update_processes (by_command (if_enabled P process_scanner (or_empty P.processes)))
                e.process_map;
          loops = process_updates ∷ e.loops;
        };
        runs = start_process_scanner_lem P;
      }
      ∷ record {
        run = start_conf_proxy P;
        needs = enabled P conf_proxy && P.conf_builds;
        makes = λ e. leave_if true conf_nodes e;
        runs = start_conf_proxy_lem P;
      }
      ∷ record {
        run = start_reg_proxy P;
        needs = when_enabled P reg_proxy P.reg_builds;
        makes = λ e. leave_if (enabled P reg_proxy) reg_nodes e;
        runs = start_reg_proxy_lem P;
      }
      ∷ record {
        run = start_supervisor_scanner P;
        needs = when_enabled P supervisor_scanner P.supervisor_watch;
        makes = λ e. record e {
          programs =
              load_programs (if_enabled P supervisor_scanner (or_empty P.list_supervisor))
                e.programs;
          loops =
              if not (enabled P supervisor_scanner) || is_there P.list_supervisor
              then supervisor_programs ∷ e.loops
              else e.loops;
        };
        runs = start_supervisor_scanner_lem P;
      }
      ∷ record {
        run = start_systemd_scanner P;
        needs = when_enabled P systemd_scanner P.systemd_watch;
        makes = λ e. record e {
          programs = load_programs (or_empty P.list_systemd) e.programs;
          loops = if is_there P.list_systemd then systemd_programs ∷ e.loops else e.loops;
        };
        runs = start_systemd_scanner_lem P;
      }
      ∷ record { run = nothing; needs = true; makes = λ e. e; runs = nothing_lem }
      ∷ record { run = nothing; needs = true; makes = λ e. e; runs = nothing_lem }
      ∷ record {
        run = start_health_scanner P;
        needs = true;
        makes = λ e. leave_if true service_nodes e;
        runs = start_health_scanner_lem P;
      }
      ∷ record {
        run = start_heal_check P;
        needs = has_section P health_check;
        makes = λ e. e;
        runs = start_heal_check_lem P;
      }
      ∷ record {
        run = serve P.grpc_builds P.serve_grpc;
        needs = P.grpc_builds && P.serve_grpc;
        makes = λ e. e;
        runs = serve_lem P.grpc_builds P.serve_grpc;
      }
      ∷ record {
        run = serve P.http_builds P.serve_http;
        needs = P.http_builds && P.serve_http;
        makes = λ e. e;
        runs = serve_lem P.http_builds P.serve_http;
      }
      ∷ record {
        run = start_worker P;
        needs = has_section P cron_worker && P.worker_builds;
        makes = λ e. leave_if true worker e;
        runs = start_worker_lem P;
      }
      ∷ []

  pub in_turn-starters :
      (P : Plugins B)
      → unless_panic (in_turn (starters P) no_engine)
        ≡ (if all_of (requirements P) then some (engine_of P) else none)
  unfolding load_nginx
  in_turn-starters P = in_turn-steps (steps P) no_engine
