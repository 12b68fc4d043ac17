-- ===== src/Job/Keys.antt =====
-- The keys of pkg/job: GetIDFromKey of job.go, Process.Key and GetProcFromKey of proc.go, Task.Key of
-- task.go and getJobIDFromLockKey of worker.go.
pub mod RoundTrip
use juno_agent.Base.{
  ℕ, zero, suc, ◌+◌, ◌-◌, ◌<◌, ◌^◌, ◌++◌, Option, none, some, Bool, true, false, List, [], ◌∷◌,
  if◌then◌else◌, length, get_or, ◌*◌, ◌/◌, ◌%◌, ltb, ◌==◌, arith,
}
use juno_agent.Base.Text.{Bytes, codes, text_eq, split, trim_left, contains_byte, push}
use juno_agent.Base.Int.{is_digit}

abbrev pub jobs_prefix : Bytes
jobs_prefix = codes "/juno/cronjob/job/"

abbrev pub lock_prefix : Bytes
lock_prefix = codes "/juno/cronjob/lock/"

abbrev pub proc_prefix : Bytes
proc_prefix = codes "/juno/cronjob/proc/"

abbrev pub result_prefix : Bytes
result_prefix = codes "/juno/cronjob/result/"

-- What is behind the last slash, or nothing if there is none.
unfoldable pub get_id_from_key : Bytes → Bytes
get_id_from_key [] = []
get_id_from_key (c ∷ s) =
    let rest = get_id_from_key s in
    if contains_byte b'/' s then rest else if c == b'/' then s else []

-- strings.TrimLeft drops leading bytes of a set, not a prefix.
unfoldable pub get_job_id_from_lock_key : Bytes → Bytes
get_job_id_from_lock_key key =
    get_or (split b'/' (trim_left (λ c. contains_byte c lock_prefix) key)) 0 []

-- The fields of a Process that its key spells; the number is a uint64.
pub record Process : Type 0 where
  pub id : Bytes
  pub job_id : Bytes
  pub node_id : Bytes
  pub task_id : ℕ

-- strconv.FormatUint in base 10, with a digit for each of the fuel's rounds at most.
unfoldable pub digits : ℕ → ℕ → Bytes
digits zero n = []
digits (suc fuel) n =
    if ltb n 10 then (b'0' + n) ∷ [] else digits fuel (n / 10) ++ ((b'0' + n % 10) ∷ [])

-- A number has no more digits than its value is large.
unfoldable pub format_uint : ℕ → Bytes
unfolding digits
format_uint n = digits (n + 1) n

unfoldable pub parse_digits : Bytes → ℕ → ℕ
parse_digits [] n = n
parse_digits (c ∷ s) n =
    let m = n * 10 + (c - b'0') in
    let rest = parse_digits s m in
    if is_digit c then if ltb (2 ^ 64 - 1) m then 2 ^ 64 - 1 else rest else 0

-- strconv.ParseUint of a decimal 64-bit number, its error not read: 0 at a wrong byte or an empty
-- text, the largest number at one that does not fit.
unfoldable pub parse_uint : Bytes → ℕ
unfolding parse_digits
parse_uint [] = 0
parse_uint (c ∷ s) = parse_digits (c ∷ s) 0

-- Process.Key
unfoldable pub process_key : Process → Bytes
unfolding format_uint
process_key p =
    proc_prefix
    ++ (p.job_id ++ (b'/' ∷ (format_uint p.task_id ++ (b'/' ∷ (p.node_id ++ (b'/' ∷ p.id))))))

-- GetProcFromKey; `none` is its error.
unfoldable pub get_proc_from_key : Bytes → Option Process
unfolding parse_uint
get_proc_from_key key =
    let ss = split b'/' key in
    let n = length ss in
    if ltb n 5
    then none
    else some (record {
      id = get_or ss (n - 1) [];
      node_id = get_or ss (n - 2) [];
      task_id = parse_uint (get_or ss (n - 3) []);
      job_id = get_or ss (n - 4) [];
    })

-- Task.Key
unfoldable pub result_key : Bytes → ℕ → Bytes
unfolding format_uint
result_key job_id task_id = result_prefix ++ (job_id ++ (b'/' ∷ format_uint task_id))
