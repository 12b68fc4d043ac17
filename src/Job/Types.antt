-- ===== src/Job/Types.antt =====
-- Job, Timer and Cmd of pkg/job/job.go, and InStringArray of util/strings.go.
use juno_agent.Base.{
  ℕ, ◌+◌, ◌++◌, Option, none, some, Bool, true, false, List, [], ◌∷◌, if◌then◌else◌,
}
use juno_agent.Base.Text.{Bytes, text_eq, is_empty}
use juno_agent.Base.Dict.{Dict, insert}
use juno_agent.Base.Int.{ℤ, pos, negsuc}
use juno_agent.Base.Outcome.{ok, err, ◌>>=◌}
use juno_agent.Parser.Types.{Parsed, empty_text}
use juno_agent.Parser.Descriptor.{Schedule, TimeText}
use juno_agent.Parser.Parse.{parse, my_parser}

-- `schedule` is nil until Valid has parsed `cron`.
pub record Timer : Type 0 where
  pub id : Bytes
  pub cron : Bytes
  pub schedule : Option Schedule

-- 0 and 1 in the JSON; a job of another number behaves as neither.
pub data JobType : Type 0 where
  type_normal : JobType
  type_alone : JobType
  type_other : ℤ → JobType

unfoldable pub is_alone : JobType → Bool
is_alone type_alone = true
is_alone type_normal = false
is_alone (type_other n) = false

unfoldable pub is_normal : JobType → Bool
is_normal type_normal = true
is_normal type_alone = false
is_normal (type_other n) = false

-- The fields that the worker reads; `mutex` is the key of the lock that the job holds, or nil.
pub record Job : Type 0 where
  pub id : Bytes
  pub script : Bytes
  pub timers : List Timer
  pub enable : Bool
  pub timeout : ℤ
  pub nodes : List Bytes
  pub retry_count : ℤ
  pub retry_interval : ℤ
  pub job_type : JobType
  pub run_on : Bytes
  pub mutex : Option Bytes
  pub locked : Bool

-- A Cmd, with its job by the job's id: the worker's table holds the job that this stands for.
pub record Cmd : Type 0 where
  pub job_id : Bytes
  pub timer : Timer
  pub entry : ℕ

-- Cmd.GetID
unfoldable pub get_id : Cmd → Bytes
get_id c = c.job_id ++ (b'-' ∷ c.timer.id)

-- &Cmd{Job: j, Timer: r}
abbrev pub command : Job → Timer → Cmd
command j r = record { job_id = j.id; timer = r; entry = 0 }

unfoldable pub add_commands : Job → List Timer → Dict Cmd → Dict Cmd
unfolding get_id
add_commands j [] m = m
add_commands j (r ∷ rs) m = add_commands j rs (insert (get_id (command j r)) (command j r) m)

-- Job.Cmds
unfoldable pub cmds : Job → Dict Cmd
unfolding add_commands
cmds j = if j.enable then add_commands j j.timers [] else []

-- InStringArray: the first place of a text, or -1.
unfoldable pub in_string_array : List Bytes → Bytes → ℤ
in_string_array arr str = go arr 0
  where
    go : List Bytes → ℕ → ℤ
    go [] n = negsuc 0
    go (x ∷ xs) n = if text_eq x str then pos n else go xs (n + 1)

-- Timer.Valid: the timer with its schedule.
unfoldable pub valid : TimeText → Timer → Parsed Timer
valid lib r = elim r.schedule [
  | some s ↦ ok r
  | none ↦
      if is_empty r.cron
      then err empty_text
      else parse lib my_parser r.cron >>= λ s. ok (record r { schedule = some s })
]

-- Job.ValidRules: the timers are parsed in order, up to the first error.
unfoldable pub valid_rules : TimeText → List Timer → Parsed (List Timer)
unfolding valid
valid_rules lib [] = ok []
valid_rules lib (r ∷ rs) = valid lib r >>= λ r'. valid_rules lib rs >>= λ rs'. ok (r' ∷ rs')
