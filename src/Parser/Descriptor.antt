-- ===== src/Parser/Descriptor.antt =====
-- parseDescriptor of pkg/job/parser/parser.go. What Go's `time` package reads from text (a
-- duration, a date, a time zone) is a parameter.
use juno_agent.Base.{ℕ, ◌^◌, Option, ◌||◌, List, [], ◌∷◌, if◌then◌else◌, drop}
use juno_agent.Base.Text.{Bytes, codes, text_eq, has_prefix, split, trim_space}
use juno_agent.Base.Int.{ℤ}
use juno_agent.Base.Outcome.{ok, err, ◌>>=◌, or_error}
use juno_agent.Parser.Types.{
  Bounds, Location, Parsed, SpecSchedule, seconds, minutes, hours, dom, months, dow, bad_duration,
  bad_time, unrecognized,
}
use juno_agent.Parser.Bits.{all_bits}
use juno_agent.Parser.Delay.{every, at}

-- time.LoadLocation, time.ParseDuration and time.ParseInLocation; `none` is their error.
pub record TimeText : Type 0 where
  pub load_location : Bytes → Option Location
  pub parse_duration : Bytes → Option ℤ
  pub parse_time : Bytes → Option ℕ

pub data Schedule : Type 0 where
  cron : SpecSchedule → Schedule
  constant_delay : ℕ → Schedule
  time_list : List ℕ → Schedule

-- 1 << r.min, or every value of a field
abbrev pub first : Bounds → Parsed ℕ
first r = ok (2 ^ r.min)

-- A bit-set schedule from the results of its fields: the first error stops the rest.
unfoldable pub schedule_of :
    Location → Parsed ℕ → Parsed ℕ → Parsed ℕ → Parsed ℕ → Parsed ℕ → Parsed ℕ → Parsed Schedule
schedule_of loc second minute hour day month weekday = second >>= λ s. minute >>= λ i. hour >>= λ h.
    day >>= λ d. month >>= λ m. weekday >>= λ w. ok (
      cron (record {
        second = s;
        minute = i;
        hour = h;
        dom_bits = d;
        month = m;
        dow_bits = w;
        location = loc;
      }))

abbrev pub table : Location → Parsed ℕ → Parsed ℕ → Parsed ℕ → Parsed ℕ → Parsed Schedule
table loc hour day month weekday =
    schedule_of loc (first seconds) (first minutes) hour day month weekday

-- The loop over the texts behind "@at ", each trimmed and read.
unfoldable pub read_times : TimeText → List Bytes → Parsed (List ℕ)
read_times lib [] = ok []
read_times lib (ts ∷ tss) = or_error bad_time (lib.parse_time (trim_space ts)) >>= λ att.
    read_times lib tss >>= λ atls. ok (att ∷ atls)

-- The cases of the `switch`, then the two prefixes.
pub data Kind : Type 0 where
  yearly monthly weekly daily hourly every_duration at_times other : Kind

unfoldable pub kind_of : Bytes → Kind
kind_of text =
    if text_eq text (codes "@yearly") || text_eq text (codes "@annually")
    then yearly
    else if text_eq text (codes "@monthly")
    then monthly
    else if text_eq text (codes "@weekly")
    then weekly
    else if text_eq text (codes "@daily") || text_eq text (codes "@midnight")
    then daily
    else if text_eq text (codes "@hourly")
    then hourly
    else if has_prefix text (codes "@every ")
    then every_duration
    else if has_prefix text (codes "@at ")
    then at_times
    else other

unfoldable pub by_kind : TimeText → Bytes → Location → Kind → Parsed Schedule
unfolding schedule_of read_times
by_kind lib text loc yearly = table loc (first hours) (first dom) (first months) (all_bits dow)
by_kind lib text loc monthly = table loc (first hours) (first dom) (all_bits months) (all_bits dow)
by_kind lib text loc weekly = table loc (first hours) (all_bits dom) (all_bits months) (first dow)
by_kind lib text loc daily = table loc (first hours) (all_bits dom) (all_bits months) (all_bits dow)
by_kind lib text loc hourly =
    table loc (all_bits hours) (all_bits dom) (all_bits months) (all_bits dow)
by_kind lib text loc every_duration =
    or_error bad_duration (lib.parse_duration (drop 7 text)) >>= λ d. ok (constant_delay (every d))
by_kind lib text loc at_times =
    read_times lib (split b',' (drop 4 text)) >>= λ atls. ok (time_list (at atls))
by_kind lib text loc other = err unrecognized

unfoldable pub parse_descriptor : TimeText → Bytes → Location → Parsed Schedule
unfolding kind_of by_kind
parse_descriptor lib text loc = by_kind lib text loc (kind_of text)
