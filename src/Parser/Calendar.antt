-- ===== src/Parser/Calendar.antt =====
-- What SpecSchedule.Next uses of Go's time.Time, in a zone whose offset does not change: civil times
-- of the proleptic Gregorian calendar from the year 1 on. A time is its civil fields.
pub mod Steps
pub mod Between
use juno_agent.Base.{
  ℕ, zero, suc, ◌+◌, ◌-◌, ◌*◌, ◌/◌, ◌%◌, ◌^◌, ◌≤◌, ◌<◌, ◌≡◌, Bool, true, false, ◌&&◌, ◌||◌, not,
  ◌==◌, ltb, leb, if◌then◌else◌, arith, ◌⊎◌,
}
use juno_agent.Parser.Types.{Location}

pub record Time : Type 0 where
  pub year : ℕ
  pub month : ℕ
  pub day : ℕ
  pub hour : ℕ
  pub minute : ℕ
  pub second : ℕ
  pub nanosecond : ℕ
  pub location : Location

unfoldable pub is_leap : ℕ → Bool
is_leap y = y % 4 == 0 && (not (y % 100 == 0) || y % 400 == 0)

unfoldable pub days_in : ℕ → ℕ → ℕ
days_in y m =
    if m == 2
    then if is_leap y then 29 else 28
    else if m == 4 || (m == 6 || (m == 9 || m == 11))
    then 30
    else 31

-- The days of a year before a month, leap day left out.
abbrev days_before : ℕ → ℕ
days_before m =
    if leb m 1
    then 0
    else if m == 2
    then 31
    else if m == 3
    then 59
    else if m == 4
    then 90
    else if m == 5
    then 120
    else if m == 6
    then 151
    else if m == 7
    then 181
    else if m == 8
    then 212
    else if m == 9
    then 243
    else if m == 10
    then 273
    else if m == 11
    then 304
    else 334

-- Day 1 is Monday, 1 January of the year 1.
unfoldable pub day_number : ℕ → ℕ → ℕ → ℕ
unfolding is_leap
day_number y m d =
    365 * (y - 1)
    + (y - 1) / 4
    - (y - 1) / 100
    + (y - 1) / 400
    + days_before m
    + (if ltb 2 m && is_leap y then 1 else 0)
    + d

-- Sunday is 0.
unfoldable pub weekday : Time → ℕ
unfolding day_number
weekday t = day_number t.year t.month t.day % 7

-- time.Date at midnight of a day of a month that may be 13 and a day that may lie behind its end.
unfoldable pub date : ℕ → ℕ → ℕ → Location → Time
date y m d loc =
    let y' = if ltb 12 m then y + 1 else y in
    let m' = if ltb 12 m then m - 12 else m in
    let over = ltb (days_in y' m') d in
    let wraps = over && m' == 12 in
    record {
      year = if wraps then y' + 1 else y';
      month = if wraps then 1 else if over then m' + 1 else m';
      day = if over then d - days_in y' m' else d;
      hour = 0;
      minute = 0;
      second = 0;
      nanosecond = 0;
      location = loc;
    }

-- The time of day of `t` on the day of `d`.
abbrev on_day : Time → Time → Time
on_day d t = record t { year = d.year; month = d.month; day = d.day }

-- t.AddDate(0, 1, 0) and t.AddDate(0, 0, 1)
unfoldable pub add_month : Time → Time
unfolding date
add_month t = on_day (date t.year (t.month + 1) t.day t.location) t

unfoldable pub add_day : Time → Time
unfolding date
add_day t = on_day (date t.year t.month (t.day + 1) t.location) t

-- t.Add of an hour, a minute and a second
unfoldable pub add_hour : Time → Time
unfolding add_day
add_hour t =
    if t.hour == 23 then record (add_day t) { hour = 0 } else record t { hour = t.hour + 1 }

unfoldable pub add_minute : Time → Time
unfolding add_hour
add_minute t =
    if t.minute == 59
    then record (add_hour t) { minute = 0 }
    else record t { minute = t.minute + 1 }

unfoldable pub add_second : Time → Time
unfolding add_minute
add_second t =
    if t.second == 59
    then record (add_minute t) { second = 0 }
    else record t { second = t.second + 1 }

pub record IsTime (t : Time) : Type 0 where
  pub year_pos : 1 ≤ t.year
  pub month_low : 1 ≤ t.month
  pub month_high : t.month ≤ 12
  pub day_low : 1 ≤ t.day
  pub day_high : t.day ≤ days_in t.year t.month
  pub hour_high : t.hour < 24
  pub minute_high : t.minute < 60
  pub second_high : t.second < 60

-- Seconds on a scale on which each month has 31 days: it orders times as they are.
unfoldable pub rank : Time → ℕ
rank t = ((((t.year * 12 + t.month) * 32 + t.day) * 24 + t.hour) * 60 + t.minute) * 60 + t.second
