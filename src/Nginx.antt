-- ===== src/Nginx.antt =====
-- The scanner of nginx's configurations, pkg/nginx/scanner.go, and the programs that
-- startNginxConfScanner of pkg/core/engine.go keeps of what it sends. The walk over the files, their
-- contents and parser.Parse of go-nginx-conf-parser are parameters.
pub mod Tracking
pub mod Scanned
use juno_agent.Base.{Option, none, some, Bool, true, false, List, [], ◌∷◌, ◌++◌, if◌then◌else◌}
use juno_agent.Base.Text.{Bytes, codes, has_suffix}
use juno_agent.Base.Dict.{Dict}
use juno_agent.Engine.{update_program}

pub record NginxConfExt (B : Type 0) : Type 0 where
  pub name : Bytes
  pub status : Bytes
  pub block : B

-- A call of walkFunc: with no information, with that of a file, or with that of a directory.
pub data Visit : Type 0 where
  unreadable : Visit
  file : Bytes → Visit
  folder : Bytes → Visit

-- What fsnotify tells of a file; other operations, also several at once, are ignored.
pub data FileOp : Type 0 where
  create write remove other : FileOp

-- The panic at an information that is nil, or the configurations and the directories to watch.
pub data ScanResult (B : Type 0) : Type 0 where
  crashes : ScanResult B
  scanned : List (NginxConfExt B) → List Bytes → ScanResult B

-- The lists that walkFunc fills. filepath.Ext is ".conf" exactly where a name ends in it.
unfoldable pub walk : List Visit → Option (List Bytes × List Bytes)
unfolding has_suffix
walk [] = some ([], [])
walk (unreadable ∷ visits) = none
walk (file path ∷ visits) = elim (walk visits) [
  | none ↦ none
  | some (files, paths) ↦
      some (if has_suffix path (codes ".conf") then path ∷ files else files, paths)
]
walk (folder path ∷ visits) = elim (walk visits) [
  | none ↦ none
  | some (files, paths) ↦ some (files, path ∷ paths)
]

module _ {B : Type 0} where
  -- updateNginxProgram
  unfoldable pub update_nginx_program :
      NginxConfExt B → Dict (NginxConfExt B) → Dict (NginxConfExt B)
  unfolding update_program
  update_nginx_program conf programs = update_program conf.status conf.name conf programs

  -- What becomes of an event, one that sends a configuration or one that sends none.
  unfoldable pub tell : Option (NginxConfExt B) → Dict (NginxConfExt B) → Dict (NginxConfExt B)
  unfolding update_nginx_program
  tell none programs = programs
  tell (some conf) programs = update_nginx_program conf programs

  -- The loop of startNginxConfScanner over the configurations of the scan.
  unfoldable pub load : List (NginxConfExt B) → Dict (NginxConfExt B) → Dict (NginxConfExt B)
  unfolding update_nginx_program
  load [] programs = programs
  load (conf ∷ confs) programs = load confs (update_nginx_program conf programs)

module _ {B : Type 0} (parse : Bytes → Option B) where
  -- parseFile, `read` being the files at that time.
  unfoldable pub parse_file : (Bytes → Option Bytes) → Bytes → Option B
  parse_file read name = elim (read name) [ none ↦ none | some content ↦ parse content ]

  -- The loop over the files of Scan.
  unfoldable pub scan_files : (Bytes → Option Bytes) → List Bytes → List (NginxConfExt B)
  unfolding parse_file
  scan_files read [] = []
  scan_files read (name ∷ names) = elim (parse_file read name) [
    | none ↦ scan_files read names
    | some block ↦
        record { name = name; status = codes "list"; block = block } ∷ scan_files read names
  ]

  unfoldable pub scan : Bool → (Bytes → Option Bytes) → List Visit → ScanResult B
  unfolding walk scan_files
  scan enable read visits =
      if enable
      then elim (walk visits) [
        | none ↦ crashes
        | some (files, paths) ↦ scanned (scan_files read files) paths
      ]
      else scanned [] []

  -- What is sent at the change of a file that is created or written.
  unfoldable pub changed : Bytes → (Bytes → Option Bytes) → Bytes → Option (NginxConfExt B)
  unfolding parse_file
  changed status read name = elim (parse_file read name) [
    | none ↦ none
    | some block ↦ some (record { name = name; status = status; block = block })
  ]

  module _ (empty : B) where
    -- The switch over the operations.
    unfoldable pub file_event : (Bytes → Option Bytes) → Bytes → FileOp → Option (NginxConfExt B)
    unfolding changed
    file_event read name create = changed (codes "create") read name
    file_event read name write = changed (codes "update") read name
    file_event read name remove =
        some (record { name = name; status = codes "delete"; block = empty })
    file_event read name other = none

    -- The loop of watch, at one event: ConfigBlock{} is `empty`.
    unfoldable pub watch_event : (Bytes → Option Bytes) → Bytes → FileOp → Option (NginxConfExt B)
    unfolding has_suffix file_event
    watch_event read name op =
        if has_suffix name (codes ".conf") then file_event read name op else none

    -- The loop over what the channel brings, at the events of the watch.
    unfoldable pub follow :
        List ((Bytes → Option Bytes) × Bytes × FileOp)
        → Dict (NginxConfExt B)
        → Dict (NginxConfExt B)
    unfolding watch_event tell
    follow [] programs = programs
    follow ((read, name, op) ∷ events) programs =
        follow events (tell (watch_event read name op) programs)
