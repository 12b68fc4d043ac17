-- ===== src/Parser/Next/Day.antt =====
-- The day loop of Next meets what `Seek` asks of a loop.
use juno_agent.Base.{◌≡◌, refl, ◌∙◌, sym, Bool, true, false, arith, inl}
use juno_agent.Parser.Types.{SpecSchedule}
use juno_agent.Parser.Calendar.{Time, IsTime, add_day}
use juno_agent.Parser.Calendar.Steps.{days_in_bounds, add_day-cases, add_day-IsTime}
use juno_agent.Parser.Calendar.Between.{Midnight, SameMonth, NextDay, NextDay-later, within_day}
use juno_agent.Parser.Next.{day_level, to_midnight, day_matches}
use juno_agent.Parser.Next.Seek.{IsLevel, step}
use juno_agent.Parser.Next.Levels.{midnight, date_lem, ToMonth, ReadyDay, Once, day_same}

pub add_day-NextDay : (t : Time) → IsTime t → NextDay t (add_day t)
unfolding add_day
add_day-NextDay t v = ground (arith, days_in_bounds t.year t.month)

-- From midnight, the step is to the midnight of the next day.
day_after :
    (t : Time)
    → IsTime t
    → Midnight t
    → IsTime (to_midnight (add_day t))
      × NextDay t (to_midnight (add_day t))
      × Midnight (to_midnight (add_day t))
unfolding to_midnight
day_after t v m =
    let stays : to_midnight (add_day t) ≡ add_day t = ground (arith, add_day-cases t v) in
    rw (stays) (add_day-IsTime t v, add_day-NextDay t v, ground (arith, add_day-cases t v))

day_step :
    (s : SpecSchedule) (t : Time) (a : Bool)
    → IsTime t
    → Once (ReadyDay s) t a
    → day_matches s t ≡ false
    → IsTime (step (day_level s) t a)
      × NextDay t (step (day_level s) t a)
      × Midnight (step (day_level s) t a)
unfolding day_level
day_step s t true v r fails = day_after t v (ground (arith, r refl))
day_step s t false v r fails =
    let d : Time = midnight t t.day in
    let w : IsTime d = ground arith in
    rw (date_lem t t.day v v.day_high) (day_after d w (refl, refl, refl))

pub day-IsLevel :
    (s : SpecSchedule) → IsLevel (day_level s) (λ t. t.day) 31 SameMonth ToMonth (Once (ReadyDay s))
unfolding day_level
day-IsLevel s = record {
  step_valid = λ t a v r f. (day_step s t a v r f).0;
  step_later = λ t a v r f. let (w, n, m) = day_step s t a v r f in NextDay-later t _ v w n;
  step_within = λ t a v r f h.
      let (w, n, m) = day_step s t a v r f in
      (ground (arith, n, h), ground (arith, n, h), λ _. inl m);
  step_wraps = λ t a v r f h. let (w, n, m) = day_step s t a v r f in (ground (arith, h), m);
  step_skips = λ t a v r f x q low high.
      let (w, n, m) = day_step s t a v r f in
      sym (day_same s t x (within_day t x _ v q low high n m)) ∙ f;
  field_top = λ t v. omega (arith, v.day_high, days_in_bounds t.year t.month);
  same_refl = λ t. (refl, refl);
  same_trans = λ t u w p q. (p.0 ∙ q.0, p.1 ∙ q.1);
  same_after = λ t u w p q. q;
}
