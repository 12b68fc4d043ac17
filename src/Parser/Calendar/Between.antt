-- ===== src/Parser/Calendar/Between.antt =====
-- Times from one instant up to the start of the next month, day, hour or minute.
use juno_agent.Base.{◌+◌, ◌≤◌, ◌<◌, ◌≡◌, ◌∙◌, ap, sym, ◌⊎◌, arith, inl, inr}
use juno_agent.Parser.Calendar.{Time, IsTime, rank, days_in}
use juno_agent.Parser.Calendar.Steps.{days_in_bounds}

-- The times of day whose hour, or minute and second, or second is over.
abbrev pub Midnight : Time → Type 0
Midnight t = (t.hour ≡ 0) × (t.minute ≡ 0) × (t.second ≡ 0)

abbrev pub OnHour : Time → Type 0
OnHour t = (t.minute ≡ 0) × (t.second ≡ 0)

abbrev pub SameMonth : Time → Time → Type 0
SameMonth t u = (t.year ≡ u.year) × (t.month ≡ u.month)

abbrev pub SameDay : Time → Time → Type 0
SameDay t u = SameMonth t u × (t.day ≡ u.day)

abbrev pub SameHour : Time → Time → Type 0
SameHour t u = SameDay t u × (t.hour ≡ u.hour)

abbrev pub SameMinute : Time → Time → Type 0
SameMinute t u = SameHour t u × (t.minute ≡ u.minute)

-- The first instant of the month, day, hour, minute or second behind a time.
abbrev pub NextMonth : Time → Time → Type 0
NextMonth t u =
    ((t.year ≡ u.year) × (t.month + 1 ≡ u.month))
    ⊎ ((t.year + 1 ≡ u.year) × (t.month ≡ 12) × (u.month ≡ 1))

abbrev pub NextDay : Time → Time → Type 0
NextDay t u =
    (SameMonth t u × (t.day + 1 ≡ u.day))
    ⊎ (NextMonth t u × (t.day ≡ days_in t.year t.month) × (u.day ≡ 1))

abbrev pub NextHour : Time → Time → Type 0
NextHour t u = (SameDay t u × (t.hour + 1 ≡ u.hour)) ⊎ (NextDay t u × (t.hour ≡ 23) × (u.hour ≡ 0))

abbrev pub NextMinute : Time → Time → Type 0
NextMinute t u =
    (SameHour t u × (t.minute + 1 ≡ u.minute)) ⊎ (NextHour t u × (t.minute ≡ 59) × (u.minute ≡ 0))

abbrev pub NextSecond : Time → Time → Type 0
NextSecond t u =
    (SameMinute t u × (t.second + 1 ≡ u.second))
    ⊎ (NextMinute t u × (t.second ≡ 59) × (u.second ≡ 0))

module _ (t v u : Time) (p : IsTime t) (q : IsTime v) (low : rank t ≤ rank v)
    (high : rank v < rank u) where
  pub within_month : NextMonth t u → u.day ≡ 1 → Midnight u → SameMonth t v
  unfolding rank
  within_month n d m = ground (arith, days_in_bounds t.year t.month, days_in_bounds v.year v.month)

  pub within_day : NextDay t u → Midnight u → SameDay t v
  unfolding rank
  within_day (inl n) m =
      ground (arith, days_in_bounds t.year t.month, days_in_bounds v.year v.month)
  within_day (inr (n, d, e)) m =
      let s : SameMonth t v = within_month n e m in
      let same : days_in v.year v.month ≡ days_in t.year t.month =
        ap (λ y. days_in y v.month) (sym s.0) ∙ ap (λ k. days_in t.year k) (sym s.1) in
      ground (arith, same, s)

  pub within_hour : NextHour t u → OnHour u → SameHour t v
  unfolding rank
  within_hour (inl n) m =
      ground (arith, days_in_bounds t.year t.month, days_in_bounds v.year v.month)
  within_hour (inr (n, d, e)) m =
      let s : SameDay t v = within_day n (e, m.0, m.1) in ground (arith, s)

  pub within_minute : NextMinute t u → u.second ≡ 0 → SameMinute t v
  unfolding rank
  within_minute (inl n) m =
      ground (arith, days_in_bounds t.year t.month, days_in_bounds v.year v.month)
  within_minute (inr (n, d, e)) m = let s : SameHour t v = within_hour n (e, m) in ground (arith, s)

  pub within_second : NextSecond t u → SameMinute t v × (t.second ≡ v.second)
  unfolding rank
  within_second (inl n) =
      ground (arith, days_in_bounds t.year t.month, days_in_bounds v.year v.month)
  within_second (inr (n, d, e)) = let s : SameMinute t v = within_minute n e in ground (arith, s)

-- A time behind another, by the first field in which they differ.
module _ (t u : Time) (p : IsTime t) (q : IsTime u) where
  pub NextMonth-later : NextMonth t u → rank t < rank u
  unfolding rank
  NextMonth-later n = ground (arith, days_in_bounds t.year t.month)

  pub NextDay-later : NextDay t u → rank t < rank u
  unfolding rank
  NextDay-later (inl n) = ground arith
  NextDay-later (inr (n, d, e)) = unfold rank in NextMonth-later n

  pub NextHour-later : NextHour t u → rank t < rank u
  unfolding rank
  NextHour-later (inl n) = ground arith
  NextHour-later (inr (n, d, e)) = unfold rank in NextDay-later n

  pub NextMinute-later : NextMinute t u → rank t < rank u
  unfolding rank
  NextMinute-later (inl n) = ground arith
  NextMinute-later (inr (n, d, e)) = unfold rank in NextHour-later n

  pub NextSecond-later : NextSecond t u → rank t < rank u
  unfolding rank
  NextSecond-later (inl n) = ground arith
  NextSecond-later (inr (n, d, e)) = unfold rank in NextMinute-later n
