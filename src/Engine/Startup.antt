-- ===== src/Engine/Startup.antt =====
-- The start of the agent: NewEngine of pkg/core/engine.go with the functions that it starts in turn.
-- What the plug-ins answer at the start is a parameter, and so is Startup of jupiter.
pub mod Steps
pub mod Spec
pub mod Starters
pub mod Refined
use juno_agent.Base.{
  ℕ, Option, none, some, Bool, true, false, List, [], ◌∷◌, ◌||◌, if◌then◌else◌, ◌≡◌,
}
use juno_agent.Base.Text.{Bytes}
use juno_agent.Base.Dict.{Dict}
use juno_agent.Engine.{update_program, update_processes}
use juno_agent.Nginx.{NginxConfExt, ScanResult, crashes, scanned}
use juno_agent.Processes.{ProcessStatus}
use juno_agent.Programs.{ProgramExt, uuid}

-- What the map of programs holds.
pub data Stored (B : Type 0) : Type 0 where
  program : ProgramExt → Stored B
  nginx : NginxConfExt B → Stored B

-- The loops that the functions leave behind.
pub data Loop : Type 0 where
  report nginx_updates process_updates conf_nodes reg_nodes : Loop
  supervisor_programs systemd_programs service_nodes worker : Loop

pub record Engine (B : Type 0) : Type 0 where
  pub programs : Dict (Stored B)
  pub process_map : Dict ProcessStatus
  pub loops : List Loop

-- The plug-ins that have a section of the configuration.
pub data Plugin : Type 0 where
  agent_report nginx_scanner process_scanner conf_proxy reg_proxy : Plugin
  supervisor_scanner systemd_scanner health_check cron_worker : Plugin

-- What the start finds. `section` is conf.UnmarshalKey over the defaults, with the Enable that it
-- leaves, `none` being an error; `flag` is the flag of a plug-in. The fields of the form `..._builds`
-- tell whether a Build returns, of the logger, of the etcd clients of the proxies and of the worker and
-- of the servers. The others are the answers of Scan, of the set-up of a watch, which tells whether it
-- gives no error, and of ListPrograms, unwrapped in the order of the loop over it, where the plug-in is
-- enabled; `none` is an error.
pub record Plugins (B : Type 0) : Type 0 where
  pub section : Plugin → Option Bool
  pub flag : Plugin → Bool
  pub log_builds : Bool
  pub nginx_scan : ScanResult B
  pub nginx_watch : Bool
  pub processes : Option (List ProcessStatus)
  pub conf_builds : Bool
  pub reg_builds : Bool
  pub supervisor_watch : Bool
  pub list_supervisor : Option (List ProgramExt)
  pub systemd_watch : Bool
  pub list_systemd : Option (List ProgramExt)
  pub worker_builds : Bool
  pub grpc_builds : Bool
  pub serve_grpc : Bool
  pub http_builds : Bool
  pub serve_http : Bool

-- A function of the start returns nil or an error, or it panics.
pub data Outcome (A : Type 0) : Type 0 where
  done : A → Outcome A
  error panic : Outcome A

unfoldable pub next : {A B : Type 0} → Outcome A → (A → Outcome B) → Outcome B
next (done e) f = f e
next error f = error
next panic f = panic

-- What NewEngine makes of it; `none` is its panic.
unfoldable pub unless_panic : {A : Type 0} → Outcome A → Option A
unless_panic (done e) = some e
unless_panic error = none
unless_panic panic = none

-- Startup calls functions one after the other, up to the first error.
pub record Startup (A : Type 0) : Type 0 where
  pub startup : List (A → Outcome A) → A → Outcome A
  pub startup-nil : (e : A) → startup [] e ≡ done e
  pub startup-cons :
      (f : A → Outcome A) (fs : List (A → Outcome A)) (e : A)
      → startup (f ∷ fs) e ≡ next (f e) (startup fs)

-- What updateProcesses stores.
abbrev pub by_command : List ProcessStatus → List (Bytes × ProcessStatus)
by_command [] = []
by_command (info ∷ infos) = (info.command, info) ∷ by_command infos

module _ {B : Type 0} where
  -- updateNginxProgram and updateProgram on the shared map, over a list.
  unfoldable pub load_nginx : List (NginxConfExt B) → Dict (Stored B) → Dict (Stored B)
  unfolding update_program
  load_nginx [] programs = programs
  load_nginx (conf ∷ confs) programs =
      load_nginx confs (update_program conf.status conf.name (nginx conf) programs)

  unfoldable pub load_programs : List ProgramExt → Dict (Stored B) → Dict (Stored B)
  unfolding uuid update_program
  load_programs [] programs = programs
  load_programs (pe ∷ pes) programs =
      load_programs pes (update_program pe.status (uuid pe) (program pe) programs)

  abbrev pub leave : Loop → Engine B → Engine B
  leave loop e = record e { loops = loop ∷ e.loops }

  abbrev pub check : Bool → Engine B → Outcome (Engine B)
  check ok e = if ok then done e else error

  -- loadServiceNode, startEventLogger and startShellProxy, which return nil and leave the caches.
  abbrev pub nothing : Engine B → Outcome (Engine B)
  nothing e = done e

  -- serveGRPC and serveHTTP, of Build and of Serve.
  unfoldable pub serve : Bool → Bool → Engine B → Outcome (Engine B)
  serve builds serves e = if builds then check serves e else panic

  -- &Engine{}
  abbrev pub no_engine : Engine B
  no_engine = record { programs = []; process_map = []; loops = [] }

module _ {B : Type 0} (P : Plugins B) where
  -- StdConfig of a plug-in: its Enable, or the panic at a section that cannot be read.
  unfoldable pub std_config : Plugin → Outcome Bool
  std_config plugin = elim (P.section plugin) [
    | none ↦ panic
    | some enable ↦ done (P.flag plugin || enable)
  ]

  unfoldable pub start_log_record : Engine B → Outcome (Engine B)
  start_log_record e = if P.log_builds then done e else panic

  unfoldable pub start_report_status : Engine B → Outcome (Engine B)
  unfolding next std_config
  start_report_status e =
      next (std_config agent_report) (λ enable. done (if enable then leave report e else e))

  -- Scan itself returns no error, since its walkFunc returns none.
  unfoldable pub start_nginx_conf_scanner : Engine B → Outcome (Engine B)
  unfolding next std_config load_nginx
  start_nginx_conf_scanner e = next (std_config nginx_scanner) (λ enable.
      elim (if enable then P.nginx_scan else scanned [] []) [
        | crashes ↦ panic
        | scanned confs paths ↦
            check (if enable then P.nginx_watch else true)
              (leave nginx_updates (record e { programs = load_nginx confs e.programs }))
      ])

  -- Start of the scanner returns no error.
  unfoldable pub start_process_scanner : Engine B → Outcome (Engine B)
  unfolding next std_config update_processes
  start_process_scanner e = next (std_config process_scanner) (λ enable.
      elim (if enable then P.processes else some []) [
        | none ↦ error
        | some infos ↦ done (
            leave process_updates
              (record e { process_map = update_processes (by_command infos) e.process_map }))
      ])

  -- Build gives nil for a proxy that is not enabled, of which Start reads a field.
  unfoldable pub start_conf_proxy : Engine B → Outcome (Engine B)
  unfolding next std_config
  start_conf_proxy e = next (std_config conf_proxy) (λ enable.
      if enable then (if P.conf_builds then done (leave conf_nodes e) else panic) else panic)

  -- Start of the proxy returns no error.
  unfoldable pub start_reg_proxy : Engine B → Outcome (Engine B)
  unfolding next std_config
  start_reg_proxy e = next (std_config reg_proxy) (λ enable.
      if enable then (if P.reg_builds then done (leave reg_nodes e) else panic) else done e)

  -- Behind StdConfig of a scanner of programs: of a loop, what Start and what ListPrograms answer.
  unfoldable pub start_scanner :
      Loop → Bool → Option (List ProgramExt) → Engine B → Outcome (Engine B)
  unfolding load_programs
  start_scanner loop starts listed e =
      if starts
      then elim listed [
        | none ↦ done e
        | some pes ↦ done (leave loop (record e { programs = load_programs pes e.programs }))
      ]
      else error

  unfoldable pub start_supervisor_scanner : Engine B → Outcome (Engine B)
  unfolding next std_config start_scanner
  start_supervisor_scanner e = next (std_config supervisor_scanner) (λ enable.
      start_scanner supervisor_programs (if enable then P.supervisor_watch else true)
        (if enable then P.list_supervisor else some []) e)

  -- ListPrograms of systemd does not test Enable.
  unfoldable pub start_systemd_scanner : Engine B → Outcome (Engine B)
  unfolding next std_config start_scanner
  start_systemd_scanner e = next (std_config systemd_scanner) (λ enable.
      start_scanner systemd_programs (if enable then P.systemd_watch else true) P.list_systemd e)

  unfoldable pub start_health_scanner : Engine B → Outcome (Engine B)
  start_health_scanner e = done (leave service_nodes e)

  unfoldable pub start_heal_check : Engine B → Outcome (Engine B)
  unfolding next std_config
  start_heal_check e = next (std_config health_check) (λ enable. done e)

  -- StdConfig of the worker has no flag, and its Enable is not read; Run returns no error.
  unfoldable pub start_worker : Engine B → Outcome (Engine B)
  unfolding next std_config
  start_worker e =
      next (std_config cron_worker)
        (λ enable. if P.worker_builds then done (leave worker e) else panic)

  abbrev pub starters : List (Engine B → Outcome (Engine B))
  starters =
      start_log_record
      ∷ start_report_status
      ∷ start_nginx_conf_scanner
      ∷ nothing
      ∷ start_process_scanner
      ∷ start_conf_proxy
      ∷ start_reg_proxy
      ∷ start_supervisor_scanner
      ∷ start_systemd_scanner
      ∷ nothing
      ∷ nothing
      ∷ start_health_scanner
      ∷ start_heal_check
      ∷ serve P.grpc_builds P.serve_grpc
      ∷ serve P.http_builds P.serve_http
      ∷ start_worker
      ∷ []

  -- NewEngine
  unfoldable pub new_engine : Startup (Engine B) → Option (Engine B)
  unfolding unless_panic
  new_engine S = unless_panic (S.startup starters no_engine)
