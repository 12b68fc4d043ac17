-- ===== src/Parser/Calendar/Steps.antt =====
-- What the steps of a time do: they keep it valid, and go forward.
use native.Mathlib.Decide.{dec_lt}
use juno_agent.Base.{ℕ, ◌+◌, ◌-◌, ◌≤◌, ◌<◌, ◌≡◌, ◌⊎◌, inl, inr, refl, arith}
use juno_agent.Parser.Calendar.{
  Time, IsTime, rank, days_in, add_month, add_day, add_hour, add_minute, add_second,
}

pub days_in_bounds : (y m : ℕ) → (28 ≤ days_in y m) × (days_in y m ≤ 31)
unfolding days_in
days_in_bounds y m = ground arith

-- The three ways in which a day goes on to the next.
pub add_day-cases :
    (t : Time)
    → IsTime t
    → ((t.day < days_in t.year t.month) × (add_day t ≡ record t { day = t.day + 1 }))
      ⊎ ((t.month < 12) × (add_day t ≡ record t { month = t.month + 1; day = 1 }))
      ⊎ ((t.month ≡ 12) × (add_day t ≡ record t { year = t.year + 1; month = 1; day = 1 }))
unfolding add_day
add_day-cases t v = ground arith

pub add_hour-cases :
    (t : Time)
    → IsTime t
    → ((t.hour < 23) × (add_hour t ≡ record t { hour = t.hour + 1 }))
      ⊎ ((t.hour ≡ 23) × (add_hour t ≡ record (add_day t) { hour = 0 }))
add_hour-cases t v = unfold add_hour in ground arith

pub add_minute-cases :
    (t : Time)
    → IsTime t
    → ((t.minute < 59) × (add_minute t ≡ record t { minute = t.minute + 1 }))
      ⊎ ((t.minute ≡ 59) × (add_minute t ≡ record (add_hour t) { minute = 0 }))
add_minute-cases t v = unfold add_minute in ground arith

pub add_second-cases :
    (t : Time)
    → IsTime t
    → ((t.second < 59) × (add_second t ≡ record t { second = t.second + 1 }))
      ⊎ ((t.second ≡ 59) × (add_second t ≡ record (add_minute t) { second = 0 }))
add_second-cases t v = unfold add_second in ground arith

pub add_day-IsTime : (t : Time) → IsTime t → IsTime (add_day t)
add_day-IsTime t v =
    ground
      (arith, add_day-cases t v, days_in_bounds t.year (t.month + 1), days_in_bounds (t.year + 1) 1)

pub add_hour-IsTime : (t : Time) → IsTime t → IsTime (add_hour t)
add_hour-IsTime t v = ground (arith, add_hour-cases t v, add_day-IsTime t v)

pub add_minute-IsTime : (t : Time) → IsTime t → IsTime (add_minute t)
add_minute-IsTime t v = ground (arith, add_minute-cases t v, add_hour-IsTime t v)

pub add_second-IsTime : (t : Time) → IsTime t → IsTime (add_second t)
add_second-IsTime t v = ground (arith, add_second-cases t v, add_minute-IsTime t v)

-- The day of the next month, or one of the first days of the month behind it.
pub add_month-cases :
    (t : Time)
    → IsTime t
    → ((t.month < 12)
        × (t.day ≤ days_in t.year (t.month + 1))
        × (add_month t ≡ record t { month = t.month + 1 }))
      ⊎ ((t.month < 11)
          × (days_in t.year (t.month + 1) < t.day)
          × (add_month t
              ≡ record t { month = t.month + 2; day = t.day - days_in t.year (t.month + 1) }))
      ⊎ ((t.month ≡ 12) × (add_month t ≡ record t { year = t.year + 1; month = 1 }))
unfolding add_month
add_month-cases t v = elim (dec_lt t.month 12) [
  | yes early ↦ ground (arith, december t.year, days_in_bounds t.year t.month)
  | no last ↦ ground (arith, january (t.year + 1), days_in_bounds t.year t.month)
]
  where
    december : (y : ℕ) → days_in y 12 ≡ 31
    december y = unfold days_in in refl

    january : (y : ℕ) → days_in y 1 ≡ 31
    january y = unfold days_in in refl

pub add_month-IsTime : (t : Time) → IsTime t → IsTime (add_month t)
add_month-IsTime t v = ground (
  arith,
  add_month-cases t v,
  days_in_bounds t.year t.month,
  days_in_bounds t.year (t.month + 1),
  days_in_bounds t.year (t.month + 2),
  days_in_bounds (t.year + 1) 1,
  january (t.year + 1),
)
  where
    january : (y : ℕ) → days_in y 1 ≡ 31
    january y = unfold days_in in refl

pub add_day-later :
    (t : Time) (h m s : ℕ)
    → IsTime t
    → rank t < rank (record (add_day t) { hour = h; minute = m; second = s })
unfolding rank
add_day-later t h m s v = ground (arith, add_day-cases t v, days_in_bounds t.year t.month)

pub add_hour-later :
    (t : Time) (m s : ℕ) → IsTime t → rank t < rank (record (add_hour t) { minute = m; second = s })
add_hour-later t m s v = elim (add_hour-cases t v) [
  | inl (lt, e) ↦ rw e (unfold rank in omega arith)
  | inr (eq, e) ↦ rw e (add_day-later t 0 m s v)
]

pub add_minute-later :
    (t : Time) (s : ℕ) → IsTime t → rank t < rank (record (add_minute t) { second = s })
add_minute-later t s v = elim (add_minute-cases t v) [
  | inl (lt, e) ↦ rw e (unfold rank in omega arith)
  | inr (eq, e) ↦ rw e (add_hour-later t 0 s v)
]

pub add_second-later : (t : Time) → IsTime t → rank t < rank (add_second t)
add_second-later t v = elim (add_second-cases t v) [
  | inl (lt, e) ↦ rw e (unfold rank in omega arith)
  | inr (eq, e) ↦ rw e (add_minute-later t 0 v)
]

pub add_month-later : (t : Time) → IsTime t → rank t < rank (add_month t)
unfolding rank
add_month-later t v = ground (arith, add_month-cases t v, days_in_bounds t.year t.month)
