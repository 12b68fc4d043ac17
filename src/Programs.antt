-- ===== src/Programs.antt =====
-- The scanners of pkg/pmt/supervisor/supervisor.go and pkg/pmt/systemd/systemd.go, which tell the
-- engine the programs of a node, with program.go of each and ProgramExt of pkg/structs/program.go.
-- What reads files and ini sections is a parameter.
pub mod Tracking
use juno_agent.Base.{
  ℕ, Option, none, some, Bool, true, false, ◌&&◌, ◌||◌, not, List, [], ◌∷◌, ◌++◌, ◌==◌,
  if◌then◌else◌,
}
use juno_agent.Base.Text.{
  Bytes, codes, text_eq, is_empty, has_suffix, split, trim_right, trim_space, contains_byte,
}
use juno_agent.Base.Dict.{Dict, lookup, insert}
use juno_agent.Engine.{update_program}

-- structs.ProgramExt
pub record ProgramExt : Type 0 where
  pub status : Bytes
  pub file_name : Bytes
  pub file_path : Bytes
  pub manager : Bytes
  pub program_name : Bytes
  pub start_command : Bytes
  pub environments : List Bytes
  pub user : Bytes
  pub directory : Bytes
  pub restart : Bool
  pub restart_sec : ℕ
  pub conf_data : Bytes
  pub config : Bytes

-- ProgramExt.UUID
unfoldable pub uuid : ProgramExt → Bytes
uuid pe = pe.manager ++ (b'_' ∷ pe.config)

-- The value of one word of a command, where it is --config=value or -config=value.
abbrev pub two : List Bytes → Option (Bytes × Bytes)
two (a ∷ b ∷ []) = some (a, b)
two _ = none

abbrev pub is_config : Bytes → Bool
is_config name = text_eq name (codes "--config") || text_eq name (codes "-config")

unfoldable pub config_param : Bytes → Option Bytes
config_param word =
    if contains_byte b'=' word
    then elim (two (split b'=' (trim_space word))) [
      | none ↦ none
      | some p ↦ let (name, value) = p in if is_config name then some value else none
    ]
    else none

-- supervisor takes the first such word, systemd the last.
unfoldable pub first_config : List Bytes → Bytes
unfolding config_param
first_config [] = []
first_config (word ∷ words) = elim (config_param word) [
  | none ↦ first_config words
  | some value ↦ value
]

unfoldable pub last_config : List Bytes → Bytes → Bytes
unfolding config_param
last_config [] config = config
last_config (word ∷ words) config = elim (config_param word) [
  | none ↦ last_config words config
  | some value ↦ last_config words value
]

-- supervisor.Program and systemd.Program, with the fields that Unwrap and parse read.
pub record SupervisorProgram : Type 0 where
  pub command : Bytes
  pub user : Bytes
  pub autorestart : Bool
  pub startsecs : ℕ
  pub config : Bytes

pub record SystemdProgram : Type 0 where
  pub description : Bytes
  pub environments : List Bytes
  pub user : Bytes
  pub working_directory : Bytes
  pub exec_start : Bytes
  pub restart : Bytes
  pub config : Bytes

-- Program{}
abbrev pub no_supervisor : SupervisorProgram
no_supervisor = record { command = []; user = []; autorestart = false; startsecs = 0; config = [] }

abbrev pub no_systemd : SystemdProgram
no_systemd = record {
  description = [];
  environments = [];
  user = [];
  working_directory = [];
  exec_start = [];
  restart = [];
  config = [];
}

-- The `for` over the sections of supervisor's parse: the program of the first that is not the default
-- section. An error of MapTo is not read.
unfoldable pub first_program : List (Bytes × SupervisorProgram) → Option SupervisorProgram
unfolding first_config
first_program [] = none
first_program ((name, program) ∷ sections) =
    if text_eq name (codes "DEFAULT")
    then first_program sections
    else if is_empty program.command
    then some program
    else some (record program { config = first_config (split b' ' program.command) })

-- parse of supervisor and of systemd, `load` being the reading of the ini file: its sections, or its
-- program without the config that the command spells; `none` is an error.
unfoldable pub parse_supervisor :
    (Bytes → Option (List (Bytes × SupervisorProgram))) → Bytes → Option SupervisorProgram
unfolding first_program
parse_supervisor load content = elim (load content) [
  | none ↦ none
  | some sections ↦ first_program sections
]

-- MapTo of the section Service, which comes last, may set the config again: `map_service` is that.
unfoldable pub parse_systemd :
    (Bytes → Option SystemdProgram)
    → (Bytes → SystemdProgram → Option SystemdProgram)
    → Bytes
    → Option SystemdProgram
unfolding last_config
parse_systemd load map_service content = elim (load content) [
  | none ↦ none
  | some program ↦
      map_service content
        (record program { config = last_config (split b' ' program.exec_start) [] })
]

-- supervisor.ProgramExt and systemd.ProgramExt
pub record Scanned (P : Type 0) : Type 0 where
  pub manager : Bytes
  pub status : Bytes
  pub program : P
  pub content : Bytes
  pub file_name : Bytes
  pub file_path : Bytes
  pub app_name : Bytes

-- The two Unwrap
unfoldable pub unwrap_supervisor : Scanned SupervisorProgram → ProgramExt
unwrap_supervisor p = record {
  status = p.status;
  file_name = p.file_name;
  file_path = p.file_path;
  manager = codes "supervisor";
  program_name = [];
  start_command = [];
  environments = [];
  user = p.program.user;
  directory = [];
  restart = p.program.autorestart;
  restart_sec = p.program.startsecs;
  conf_data = p.content;
  config = p.program.config;
}

unfoldable pub unwrap_systemd : Scanned SystemdProgram → ProgramExt
unwrap_systemd p = record {
  status = p.status;
  file_name = p.file_name;
  file_path = p.file_path;
  manager = codes "systemd";
  program_name = p.program.description;
  start_command = p.program.exec_start;
  environments = p.program.environments;
  user = p.program.user;
  directory = p.program.working_directory;
  restart = text_eq p.program.restart (codes "always");
  restart_sec = 5;
  conf_data = p.content;
  config = p.program.config;
}

-- strings.TrimRight(fileName, ".conf") drops trailing bytes of a set, not a suffix.
unfoldable pub app_name_of : Bytes → Bytes
unfolding trim_right contains_byte
app_name_of file_name = trim_right (λ c. contains_byte c (codes ".conf")) file_name

abbrev pub last_part : List Bytes → Bytes
last_part [] = []
last_part (p ∷ []) = p
last_part (p ∷ q ∷ ps) = last_part (q ∷ ps)

-- filepath.Base of a name that does not end in a slash.
unfoldable pub base : Bytes → Bytes
base name = last_part (split b'/' name)

-- What fsnotify tells of a file; other operations, also several at once, are ignored.
pub data FileOp : Type 0 where
  create write remove other : FileOp

-- A scanner of one kind: its parse, and whether its events and its list name their manager.
module _ {P : Type 0} (parse : Bytes → Option P) (empty : P) where
  -- parseFile of a file that was made or written, and the entry with its program; `read` is the
  -- content of a file, or an error.
  unfoldable pub scan_file : Bytes → Bytes → (Bytes → Option Bytes) → Bytes → Option (Scanned P)
  unfolding base
  scan_file status manager read name = elim (read name) [
    | none ↦ none
    | some content ↦ elim (parse content) [
      | none ↦ none
      | some program ↦ some (record {
        manager = manager;
        status = status;
        program = program;
        content = content;
        file_name = base name;
        file_path = name;
        app_name = [];
      })
    ]
  ]

  -- The `switch` of startWatch: what is sent to the engine, if anything.
  unfoldable pub scan_op : Bytes → (Bytes → Option Bytes) → Bytes → FileOp → Option (Scanned P)
  unfolding base scan_file
  scan_op created_by read name create = scan_file (codes "create") created_by read name
  scan_op created_by read name write = scan_file (codes "update") [] read name
  scan_op created_by read name remove = some (record {
    manager = [];
    status = codes "delete";
    program = empty;
    content = [];
    file_name = base name;
    file_path = name;
    app_name = [];
  })
  scan_op created_by read name other = none

  -- The loop of startWatch, at one event.
  unfoldable pub scan_event : Bytes → (Bytes → Option Bytes) → Bytes → FileOp → Option (Scanned P)
  unfolding has_suffix scan_op
  scan_event created_by read name op =
      if not (has_suffix name (codes ".conf")) then none else scan_op created_by read name op

  -- The loop of ListPrograms over the files of the directory, `listed` making its entry.
  unfoldable pub list_programs :
      (Bytes → Bytes → P → Scanned P) → List (Bytes × Bytes) → Dict (Scanned P) → Dict (Scanned P)
  unfolding app_name_of
  list_programs listed [] tasks = tasks
  list_programs listed ((file_name, content) ∷ files) tasks =
      list_programs listed files (elim (parse content) [
        | none ↦ tasks
        | some program ↦ insert (app_name_of file_name) (listed file_name content program) tasks
      ])

-- The entries of the two ListPrograms.
unfoldable pub listed_supervisor :
    Bytes → Bytes → Bytes → SupervisorProgram → Scanned SupervisorProgram
unfolding app_name_of
listed_supervisor conf_dir file_name content program = record {
  manager = codes "supervisor";
  status = codes "list";
  program = program;
  content = content;
  file_name = file_name;
  file_path = conf_dir ++ (b'/' ∷ file_name);
  app_name = app_name_of file_name;
}

unfoldable pub listed_systemd : Bytes → Bytes → SystemdProgram → Scanned SystemdProgram
listed_systemd file_name content program = record {
  manager = [];
  status = codes "list";
  program = program;
  content = [];
  file_name = file_name;
  file_path = [];
  app_name = [];
}

-- The events and the lists of the two scanners. Only a file that systemd's scanner sees made names its
-- manager. supervisor lists nothing when it is not enabled.
unfoldable pub supervisor_event :
    (Bytes → Option SupervisorProgram)
    → (Bytes → Option Bytes)
    → Bytes
    → FileOp
    → Option (Scanned SupervisorProgram)
unfolding scan_event
supervisor_event parse = scan_event parse no_supervisor []

unfoldable pub systemd_event :
    (Bytes → Option SystemdProgram)
    → (Bytes → Option Bytes)
    → Bytes
    → FileOp
    → Option (Scanned SystemdProgram)
unfolding scan_event
systemd_event parse = scan_event parse no_systemd (codes "systemd")

unfoldable pub list_supervisor :
    (Bytes → Option SupervisorProgram)
    → Bool
    → Bytes
    → List (Bytes × Bytes)
    → Dict (Scanned SupervisorProgram)
unfolding list_programs listed_supervisor
list_supervisor parse enable conf_dir files =
    if enable then list_programs parse no_supervisor (listed_supervisor conf_dir) files [] else []

unfoldable pub list_systemd :
    (Bytes → Option SystemdProgram) → List (Bytes × Bytes) → Dict (Scanned SystemdProgram)
unfolding list_programs listed_systemd
list_systemd parse files = list_programs parse no_systemd listed_systemd files []

-- Engine.updateProgram, of a program under its UUID.
unfoldable pub track : ProgramExt → Dict ProgramExt → Dict ProgramExt
unfolding uuid update_program
track pe programs = update_program pe.status (uuid pe) pe programs
