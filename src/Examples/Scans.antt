-- ===== src/Examples/Scans.antt =====
-- The theorems on the scanners and the health checks at concrete inputs.
use mathlib.Core.Option
use juno_agent.Files.{FileInfo, IsReadable, read_dir_files, read_dir_files-lookup}
use juno_agent.Base.{
  All, false, ◌≡◌, refl, none, some, true, List, [], ◌∷◌, map, arith, Option, if◌then◌else◌,
}
use juno_agent.Base.Text.{Bytes, codes, text_eq, split, has_prefix, has_suffix, is_empty}
use juno_agent.Base.Dict.{lookup, insert}
use juno_agent.Engine.{get_config_status}
use juno_agent.Programs.{
  ProgramExt, uuid, Scanned, SupervisorProgram, no_supervisor, unwrap_supervisor, supervisor_event,
  remove, track,
}
use juno_agent.Programs.Tracking.{track-supervisor}
use juno_agent.Nginx.{folder, file, scan, walk, scan_files, parse_file, load, follow}
use juno_agent.Nginx
use juno_agent.Nginx.Tracking.{block_at}
use juno_agent.Nginx.Scanned.{scan-after}
use juno_agent.Processes.{ProcessStatus}
use juno_agent.Processes
use juno_agent.Processes.Lines.{write_rows, with_spaces, scan-write_rows}
use juno_agent.Health.{ResHealthCheck, returned, health_check}
use juno_agent.Health.Dsn.{Dsn, ok, parse_dsn, contains_text, with_timeout}
use juno_agent.Health.Dsn.RoundTrip.{
  IsWritten, write_dsn, parse_dsn-write_dsn, with_timeout-write_dsn,
}
use juno_agent.Health.Dsn.Indexed.{parse_dsn_at}
use juno_agent.Health.Dsn.Indexed.Same.{parse_dsn_at-parse_dsn}
use juno_agent.Health.Laws.{health_check_lem}

abbrev deleted : Scanned SupervisorProgram
deleted = record {
  manager = [];
  status = codes "delete";
  program = no_supervisor;
  content = [];
  file_name = codes "a.conf";
  file_path = codes "/s/a.conf";
  app_name = [];
}

abbrev running : Scanned SupervisorProgram
running = record deleted {
  program = record no_supervisor { config = codes "/c" };
  status = codes "create";
}

abbrev cached : List (Bytes × ProgramExt)
cached = track (unwrap_supervisor running) []

track-supervisor_example :
    (get_config_status (codes "/c") (track (unwrap_supervisor deleted) cached)).0 ≡ true
unfolding supervisor_event get_config_status track uuid unwrap_supervisor lookup text_eq split
    insert
track-supervisor_example =
    track-supervisor (λ c. none) (λ n. none) (codes "/s/a.conf") remove deleted refl (codes "/c")
      cached refl refl

abbrev up : ResHealthCheck
up = record { component_type = codes "tcp"; is_success = true; msg = [] }

health_check_lem_example :
    health_check ((codes "tcp", []) ∷ []) (up ∷ up ∷ []) ≡ returned (up ∷ []) (up ∷ [])
health_check_lem_example = health_check_lem ((codes "tcp", []) ∷ []) (up ∷ up ∷ [])

abbrev a_dsn : Dsn
a_dsn = record {
  user = codes "root";
  password = codes "p@:/w";
  net = codes "tcp";
  addr = codes "h:3306";
  db_name = codes "db";
  params = [];
}

a_dsn-IsWritten : IsWritten a_dsn
a_dsn-IsWritten = omega arith

parse_dsn-write_dsn_example : parse_dsn (λ t. some t) (write_dsn a_dsn none) ≡ ok a_dsn
parse_dsn-write_dsn_example = parse_dsn-write_dsn (λ t. some t) a_dsn none a_dsn-IsWritten tt refl

parse_dsn_at-parse_dsn_example :
    parse_dsn_at (λ t. some t) (codes "root:p@tcp(h:3306)/db?a=b")
    ≡ parse_dsn (λ t. some t) (codes "root:p@tcp(h:3306)/db?a=b")
parse_dsn_at-parse_dsn_example =
    parse_dsn_at-parse_dsn (λ t. some t) (codes "root:p@tcp(h:3306)/db?a=b")

with_timeout-write_dsn_example :
    parse_dsn (λ t. some t) (with_timeout (write_dsn a_dsn none))
    ≡ ok (record a_dsn { db_name = codes "db&timeout=2s" })
unfolding contains_text has_prefix
with_timeout-write_dsn_example =
    with_timeout-write_dsn (λ t. some t) a_dsn a_dsn-IsWritten refl refl

-- The configuration of nginx at a scan, and behind a write that cannot be parsed.
abbrev parse_text : Bytes → Option Bytes
parse_text t = if is_empty t then none else some t

abbrev site : Bytes
site = codes "/n/a.conf"

abbrev site_events : List ((Bytes → Option Bytes) × Bytes × Nginx.FileOp)
site_events = ((λ n. some []), site, Nginx.write) ∷ []

scan-after_example :
    block_at site (
      follow parse_text [] site_events
        (load ((record { name = site; status = codes "list"; block = codes "x" }) ∷ []) []))
    ≡ some (codes "x")
unfolding scan walk scan_files parse_file text_eq has_suffix
scan-after_example =
    scan-after parse_text [] site (λ n. some (codes "x")) (folder (codes "/n") ∷ file site ∷ [])
      ((record { name = site; status = codes "list"; block = codes "x" }) ∷ []) (codes "/n" ∷ [])
      site_events refl refl

abbrev a_process : ProcessStatus
a_process = record {
  user = codes "root";
  pid = codes "7";
  cpu = codes "0.0";
  mem = codes "0.1";
  vsz = codes "9";
  rss = codes "9";
  tty = codes "?";
  stat = codes "S";
  start = codes "10:00";
  time = codes "0:00";
  command = codes "/go/bin/web -c a";
}

scan-write_rows_example :
    Processes.scan true (some (write_rows (a_process ∷ [])))
    ≡ some (map with_spaces (a_process ∷ []))
scan-write_rows_example =
    scan-write_rows (a_process ∷ [])
      (record { words = omega arith; lines = omega arith; command = omega arith }, tt)

-- A directory with a directory and a file.
abbrev a_dir : List FileInfo
a_dir =
    record { name = codes "b"; is_dir = true } ∷ record { name = codes "a"; is_dir = false } ∷ []

a_dir-IsReadable : All (IsReadable (λ path. some path) (codes "/d")) a_dir
a_dir-IsReadable = (
  record { content = λ e. (codes "/d/b", refl) },
  (record { content = λ e. (codes "/d/a", refl) }, tt),
)

read_dir_files-lookup_example :
    Option.map
      (lookup (codes "a"))
      (read_dir_files (λ path. some path) (codes "/d") (some a_dir) (codes "a"))
    ≡ some (some (codes "/d/a"))
unfolding text_eq
read_dir_files-lookup_example =
    read_dir_files-lookup (λ path. some path) (codes "/d") a_dir (codes "a") (codes "a")
      a_dir-IsReadable
