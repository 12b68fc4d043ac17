-- ===== src/Parser/Next/Clock.antt =====
-- The hour, minute and second loops of Next meet what `Seek` asks of a loop.
use juno_agent.Base.{◌≡◌, refl, ◌∙◌, sym, ap, Bool, true, false, arith, inl, inr}
use juno_agent.Parser.Types.{SpecSchedule}
use juno_agent.Parser.Calendar.{Time, IsTime, add_day, add_hour, add_minute, add_second}
use juno_agent.Parser.Calendar.Steps.{
  add_hour-cases, add_minute-cases, add_second-cases, add_hour-IsTime, add_minute-IsTime,
  add_second-IsTime,
}
use juno_agent.Parser.Calendar.Between.{
  OnHour, SameDay, SameHour, SameMinute, NextHour, NextMinute, NextSecond, NextHour-later,
  NextMinute-later, NextSecond-later, within_hour, within_minute, within_second,
}
use juno_agent.Parser.Next.{names, hour_level, minute_level, second_level}
use juno_agent.Parser.Next.Seek.{IsLevel, step}
use juno_agent.Parser.Next.Levels.{ToDay, ToHour, ToMinute, ReadyHour, Once, hour_same}
use juno_agent.Parser.Next.Day.{add_day-NextDay}

-- The seconds and the times on a full minute.
abbrev pub OnMinute : SpecSchedule → Time → Type 0
OnMinute s t = t.second ≡ 0

-- The second loop may start anywhere.
abbrev pub Always : SpecSchedule → Time → Type 0
Always s t = Unit {0}

add_hour-NextHour : (t : Time) → IsTime t → NextHour t (add_hour t)
add_hour-NextHour t v = elim (add_hour-cases t v) [
  | inl (h, e) ↦ rw e (inl (((refl, refl), refl), refl))
  | inr (h, e) ↦ rw e (inr (add_day-NextDay t v, h, refl))
]

add_minute-NextMinute : (t : Time) → IsTime t → NextMinute t (add_minute t)
add_minute-NextMinute t v = elim (add_minute-cases t v) [
  | inl (h, e) ↦ rw e (inl ((((refl, refl), refl), refl), refl))
  | inr (h, e) ↦ rw e (inr (add_hour-NextHour t v, h, refl))
]

pub add_second-NextSecond : (t : Time) → IsTime t → NextSecond t (add_second t)
add_second-NextSecond t v = elim (add_second-cases t v) [
  | inl (h, e) ↦ rw e (inl (((((refl, refl), refl), refl), refl), refl))
  | inr (h, e) ↦ rw e (inr (add_minute-NextMinute t v, h, refl))
]

add_hour-OnHour : (t : Time) → OnHour t → OnHour (add_hour t)
unfolding add_hour add_day
add_hour-OnHour t m = ground arith

add_minute-second : (t : Time) → (add_minute t).second ≡ t.second
unfolding add_minute add_hour add_day
add_minute-second t = ground arith

-- A round with or without its reset.
module _ (s : SpecSchedule) (t : Time) (v : IsTime t) where
  hour_step :
      (a : Bool)
      → Once (ReadyHour s) t a
      → names s.hour t.hour ≡ false
      → IsTime (step (hour_level s) t a)
        × NextHour t (step (hour_level s) t a)
        × OnHour (step (hour_level s) t a)
  unfolding hour_level
  hour_step true r fails =
      let m : OnHour t = ground (arith, r refl) in
      (add_hour-IsTime t v, add_hour-NextHour t v, add_hour-OnHour t m)
  hour_step false r fails =
      let u : Time = record t { minute = 0; second = 0; nanosecond = 0 } in
      let w : IsTime u = ground arith in
      (add_hour-IsTime u w, add_hour-NextHour u w, add_hour-OnHour u (refl, refl))

  minute_step :
      (a : Bool)
      → Once (OnMinute s) t a
      → IsTime (step (minute_level s) t a)
        × NextMinute t (step (minute_level s) t a)
        × ((step (minute_level s) t a).second ≡ 0)
  unfolding minute_level
  minute_step true r =
      (add_minute-IsTime t v, add_minute-NextMinute t v, add_minute-second t ∙ r refl)
  minute_step false r =
      let u : Time = record t { second = 0; nanosecond = 0 } in
      let w : IsTime u = ground arith in
      (add_minute-IsTime u w, add_minute-NextMinute u w, add_minute-second u)

  second_step :
      (a : Bool) → IsTime (step (second_level s) t a) × NextSecond t (step (second_level s) t a)
  unfolding second_level
  second_step true = (add_second-IsTime t v, add_second-NextSecond t v)
  second_step false =
      let u : Time = record t { nanosecond = 0 } in
      let w : IsTime u = ground arith in (add_second-IsTime u w, add_second-NextSecond u w)

module _ (s : SpecSchedule) where
  pub hour-IsLevel : IsLevel (hour_level s) (λ t. t.hour) 23 SameDay ToDay (Once (ReadyHour s))
  unfolding hour_level
  hour-IsLevel = record {
    step_valid = λ t a v r f. (hour_step s t v a r f).0;
    step_later = λ t a v r f. let (w, n, m) = hour_step s t v a r f in NextHour-later t _ v w n;
    step_within = λ t a v r f h.
        let (w, n, m) = hour_step s t v a r f in
        (ground (arith, n, h), ground (arith, n, h), λ _. inl m);
    step_wraps = λ t a v r f h. let (w, n, m) = hour_step s t v a r f in ground (arith, n, h, m);
    step_skips = λ t a v r f x q low high.
        let (w, n, m) = hour_step s t v a r f in
        sym (hour_same s t x (within_hour t x _ v q low high n m)) ∙ f;
    field_top = λ t v. omega (arith, v.hour_high);
    same_refl = λ t. ((refl, refl), refl);
    same_trans = λ t u w p q. ground arith;
    same_after = λ t u w p q. ground (arith, p, q);
  }

  pub minute-IsLevel :
      IsLevel (minute_level s) (λ t. t.minute) 59 SameHour ToHour (Once (OnMinute s))
  unfolding minute_level
  minute-IsLevel = record {
    step_valid = λ t a v r f. (minute_step s t v a r).0;
    step_later = λ t a v r f. let (w, n, m) = minute_step s t v a r in NextMinute-later t _ v w n;
    step_within = λ t a v r f h.
        let (w, n, m) = minute_step s t v a r in
        (ground (arith, n, h), ground (arith, n, h), λ _. m);
    step_wraps = λ t a v r f h. let (w, n, m) = minute_step s t v a r in ground (arith, n, h, m);
    step_skips = λ t a v r f x q low high.
        let (w, n, m) = minute_step s t v a r in
        sym (ap (names s.minute) (within_minute t x _ v q low high n m).1) ∙ f;
    field_top = λ t v. omega (arith, v.minute_high);
    same_refl = λ t. (((refl, refl), refl), refl);
    same_trans = λ t u w p q. ground arith;
    same_after = λ t u w p q. ground (arith, p, q);
  }

  pub second-IsLevel :
      IsLevel (second_level s) (λ t. t.second) 59 SameMinute ToMinute (Once (Always s))
  unfolding second_level
  second-IsLevel = record {
    step_valid = λ t a v r f. (second_step s t v a).0;
    step_later = λ t a v r f. let (w, n) = second_step s t v a in NextSecond-later t _ v w n;
    step_within = λ t a v r f h.
        let (w, n) = second_step s t v a in (ground (arith, n, h), ground (arith, n, h), λ _. tt);
    step_wraps = λ t a v r f h. let (w, n) = second_step s t v a in ground (arith, n, h);
    step_skips = λ t a v r f x q low high.
        let (w, n) = second_step s t v a in
        sym (ap (names s.second) (within_second t x _ v q low high n).1) ∙ f;
    field_top = λ t v. omega (arith, v.second_high);
    same_refl = λ t. ((((refl, refl), refl), refl), refl);
    same_trans = λ t u w p q. ground arith;
    same_after = λ t u w p q. ground (arith, p, q);
  }
