-- ===== src/Parser/Next/Levels.antt =====
-- Where the five loops of Next may stand, and the month loop.
use juno_agent.Base.{ℕ, ◌+◌, ◌≤◌, ◌≡◌, refl, ◌⊎◌, ◌∙◌, sym, ap, Bool, true, false, arith, inl}
use juno_agent.Parser.Types.{SpecSchedule}
use juno_agent.Parser.Calendar.{Time, IsTime, days_in, date, weekday}
use juno_agent.Parser.Calendar.Steps.{days_in_bounds, add_month-cases, add_month-IsTime}
use juno_agent.Parser.Calendar.Between.{
  Midnight, OnHour, SameMonth, SameDay, SameHour, NextMonth, NextMonth-later, within_month,
}
use juno_agent.Parser.Next.{month_level, names, day_matches}
use juno_agent.Parser.Next.Seek.{IsLevel, step}

abbrev pub midnight : Time → ℕ → Time
midnight t d = record t { day = d; hour = 0; minute = 0; second = 0; nanosecond = 0 }

pub date_lem :
    (t : Time) (d : ℕ)
    → IsTime t
    → d ≤ days_in t.year t.month
    → date t.year t.month d t.location ≡ midnight t d
unfolding date
date_lem t d v h = ground arith

-- What a wrap of a loop leads to: a new month, or the same one with less of the fields left over.
abbrev pub MonthStart : Time → Type 0
MonthStart u = (u.day ≡ 1) × Midnight u

abbrev pub ToMonth : Time → Time → Type 0
ToMonth t u = MonthStart u

abbrev pub ToDay : Time → Time → Type 0
ToDay t u = ToMonth t u ⊎ (SameMonth t u × Midnight u)

abbrev pub ToHour : Time → Time → Type 0
ToHour t u = ToDay t u ⊎ (SameDay t u × OnHour u)

abbrev pub ToMinute : Time → Time → Type 0
ToMinute t u = ToHour t u ⊎ (SameHour t u × (u.second ≡ 0))

-- A loop advances by its whole field: when something was added, and the schedule does not name a
-- field, the fields below that one are at their start.
abbrev pub ReadyHour : SpecSchedule → Time → Type 0
ReadyHour s t = OnHour t ⊎ ((names s.hour t.hour ≡ true) × (t.second ≡ 0))

abbrev pub ReadyDay : SpecSchedule → Time → Type 0
ReadyDay s t = Midnight t ⊎ ((day_matches s t ≡ true) × ReadyHour s t)

abbrev pub ReadyMonth : SpecSchedule → Time → Type 0
ReadyMonth s t = MonthStart t ⊎ ((names s.month t.month ≡ true) × ReadyDay s t)

-- The condition holds once something was added.
abbrev pub Once : (Time → Type 0) → Time → Bool → Type 0
Once R t a = a ≡ true → R t

abbrev pub Anywhere : Time → Time → Type 0
Anywhere t u = Unit {0}

module _ (s : SpecSchedule) (t u : Time) where
  pub month_same : SameMonth t u → names s.month t.month ≡ names s.month u.month
  month_same h = ap (names s.month) h.1

  pub day_same : SameDay t u → day_matches s t ≡ day_matches s u
  unfolding day_matches weekday
  day_same h = rw (h.0.0, h.0.1, h.1)

  pub hour_same : SameHour t u → names s.hour t.hour ≡ names s.hour u.hour
  hour_same h = ap (names s.hour) h.1

-- A round of the month loop ends at the start of the next month.
month_step :
    (s : SpecSchedule) (t : Time) (a : Bool)
    → IsTime t
    → Once (ReadyMonth s) t a
    → names s.month t.month ≡ false
    → IsTime (step (month_level s) t a)
      × NextMonth t (step (month_level s) t a)
      × MonthStart (step (month_level s) t a)
unfolding month_level
month_step s t true v r fails = (
  add_month-IsTime t v,
  ground (arith, add_month-cases t v, r refl, days_in_bounds t.year (t.month + 1)),
  ground (arith, add_month-cases t v, r refl, days_in_bounds t.year (t.month + 1)),
)
month_step s t false v r fails =
    let d : Time = midnight t 1 in
    let w : IsTime d = ground (arith, days_in_bounds t.year t.month) in
    rw (date_lem t 1 v (omega (arith, days_in_bounds t.year t.month))) (
      add_month-IsTime d w,
      ground (arith, add_month-cases d w, days_in_bounds t.year (t.month + 1)),
      ground (arith, add_month-cases d w, days_in_bounds t.year (t.month + 1)),
    )

pub month-IsLevel :
    (s : SpecSchedule)
    → IsLevel (month_level s) (λ t. t.month) 12 Anywhere ToMonth (Once (ReadyMonth s))
unfolding month_level
month-IsLevel s = record {
  step_valid = λ t a v r f. (month_step s t a v r f).0;
  step_later = λ t a v r f. let (w, n, m) = month_step s t a v r f in NextMonth-later t _ v w n;
  step_within = λ t a v r f h.
      let (w, n, m) = month_step s t a v r f in (ground (arith, n, h), tt, λ _. inl m);
  step_wraps = λ t a v r f h. (month_step s t a v r f).2;
  step_skips = λ t a v r f x q low high.
      let (w, n, m) = month_step s t a v r f in
      sym (month_same s t x (within_month t x _ v q low high n m.0 m.1)) ∙ f;
  field_top = λ t v. v.month_high;
  same_refl = λ t. tt;
  same_trans = λ t u w p q. tt;
  same_after = λ t u w p q. q;
}
