-- ===== src/Parser/Next.antt =====
-- SpecSchedule.Next and dayMatches of pkg/job/parser/spec.go. Each of the five loops advances one
-- field until the schedule matches it, or goes back to WRAP when the field starts again.
pub mod Seek
pub mod Levels
pub mod Day
pub mod Clock
pub mod Round
pub mod Search
use Prim.Native.Nat.{bit_and}
use juno_agent.Base.{
  ℕ, zero, suc, ◌+◌, ◌-◌, ◌*◌, Bool, true, false, ◌&&◌, ◌||◌, not, ◌==◌, ltb, if◌then◌else◌,
}
use juno_agent.Base.Word.{shl64}
use juno_agent.Parser.Types.{SpecSchedule, Location, local, star_bit}
use juno_agent.Parser.Calendar.{
  Time, date, weekday, add_month, add_day, add_hour, add_minute, add_second, rank,
}

-- 1<<uint(x)&mask, against 0
abbrev pub names : ℕ → ℕ → Bool
names mask x = ltb 0 (bit_and (shl64 1 x) mask)

unfoldable pub day_matches : SpecSchedule → Time → Bool
unfolding weekday
day_matches s t =
    let dom_match = names s.dom_bits t.day in
    let dow_match = names s.dow_bits (weekday t) in
    if ltb 0 (bit_and s.dom_bits star_bit) || ltb 0 (bit_and s.dow_bits star_bit)
    then dom_match && dow_match
    else dom_match || dow_match

-- A loop of Next: its test, the reset when nothing was added before, the step, and the test for a
-- field that starts again.
pub record Level : Type 0 where
  pub test : Time → Bool
  pub reset : Time → Time
  pub advance : Time → Time
  pub at_start : Time → Bool

pub data Pass : Type 0 where
  matched : Time → Bool → Pass
  wrapped : Time → Pass
  starved : Pass

unfoldable pub seek : Level → ℕ → Time → Bool → Pass
seek l zero t added = starved
seek l (suc fuel) t added = elim (l.test t) [
  | true ↦ matched t added
  | false ↦
      let t' = l.advance (if added then t else l.reset t) in
      elim (l.at_start t') [ true ↦ wrapped t' | false ↦ seek l fuel t' true ]
]

unfoldable pub month_level : SpecSchedule → Level
month_level s = record {
  test = λ t. names s.month t.month;
  reset = λ t. date t.year t.month 1 t.location;
  advance = add_month;
  at_start = λ t. t.month == 1;
}

-- Midnight again, where a day begins or ends an hour off.
unfoldable pub to_midnight : Time → Time
to_midnight t =
    if t.hour == 0
    then t
    else if ltb 12 t.hour
    then record (add_day t) { hour = 0 }
    else record t { hour = 0 }

unfoldable pub day_level : SpecSchedule → Level
day_level s = record {
  test = day_matches s;
  reset = λ t. date t.year t.month t.day t.location;
  advance = λ t. to_midnight (add_day t);
  at_start = λ t. t.day == 1;
}

unfoldable pub hour_level : SpecSchedule → Level
hour_level s = record {
  test = λ t. names s.hour t.hour;
  reset = λ t. record t { minute = 0; second = 0; nanosecond = 0 };
  advance = add_hour;
  at_start = λ t. t.hour == 0;
}

-- Truncate(time.Minute), in a zone whose offset is whole minutes.
unfoldable pub minute_level : SpecSchedule → Level
minute_level s = record {
  test = λ t. names s.minute t.minute;
  reset = λ t. record t { second = 0; nanosecond = 0 };
  advance = add_minute;
  at_start = λ t. t.minute == 0;
}

unfoldable pub second_level : SpecSchedule → Level
second_level s = record {
  test = λ t. names s.second t.second;
  reset = λ t. record t { nanosecond = 0 };
  advance = add_second;
  at_start = λ t. t.second == 0;
}

abbrev pub then_seek : Pass → (Time → Bool → Pass) → Pass
then_seek (matched t added) k = k t added
then_seek (wrapped t) k = wrapped t
then_seek starved k = starved

-- One pass from WRAP through the five loops. A month loop makes at most 12 rounds, and so on.
unfoldable pub pass : SpecSchedule → Time → Bool → Pass
pass s t added = then_seek (seek (month_level s) 13 t added) λ t added.
    then_seek (seek (day_level s) 32 t added) λ t added.
      then_seek (seek (hour_level s) 25 t added) λ t added.
        then_seek (seek (minute_level s) 61 t added) λ t added. seek (second_level s) 61 t added

pub data Found : Type 0 where
  found : Time → Found
  zero_time : Found
  exhausted : Found

unfoldable pub search_from : ℕ → SpecSchedule → ℕ → Time → Bool → Found
search_from zero s year_limit t added = exhausted
search_from (suc fuel) s year_limit t added =
    let go : Found = elim (pass s t added) [
      | matched u _ ↦ found u
      | wrapped u ↦ search_from fuel s year_limit u true
      | starved ↦ exhausted
    ] in
    if ltb year_limit t.year then zero_time else go

-- The earliest possible time, the upcoming second.
unfoldable pub upcoming : Time → Time
unfolding add_second
upcoming t = record (add_second t) { nanosecond = 0 }

-- As many rounds as there are seconds up to the end of the last year searched.
unfoldable pub rounds : Time → ℕ
rounds t = (t.year + 7) * 33177600 + 1

unfoldable pub search : SpecSchedule → Time → Found
unfolding search_from upcoming rounds
search s t = let u = upcoming t in search_from (rounds u) s (u.year + 5) u false

abbrev pub is_local : Location → Bool
is_local local = true
is_local _ = false

-- The time in the schedule's zone, `convert` being t.In: it may also change the civil fields.
abbrev pub start_of : (Location → Time → Time) → SpecSchedule → Time → Time
start_of convert s t = if is_local s.location then t else convert s.location t

abbrev pub map_found : (Time → Time) → Found → Found
map_found f (found u) = found (f u)
map_found f zero_time = zero_time
map_found f exhausted = exhausted

unfoldable pub next : (Location → Time → Time) → SpecSchedule → Time → Found
unfolding search
next convert s t = map_found (convert t.location) (search s (start_of convert s t))
