-- ===== src/Parser/Next/Round.antt =====
-- A pass of Next through its five loops: a time that matches, or a later time to pass again from,
-- with no time left out that matches.
use juno_agent.Base.{◌≤◌, ◌<◌, ◌≡◌, ◌∙◌, sym, ap, Bool, true, arith, inl, inr}
use native.Mathlib.Decide.{dec_lt}
use juno_agent.Parser.Types.{SpecSchedule}
use juno_agent.Parser.Calendar.{Time, IsTime, rank}
use juno_agent.Parser.Calendar.Between.{SameMonth, SameDay, SameHour, SameMinute}
use juno_agent.Parser.Next.{
  Level, Pass, matched, wrapped, seek, pass, names, day_matches, month_level, day_level, hour_level,
  minute_level, second_level, then_seek,
}
use juno_agent.Parser.Next.Seek.{Yields, Skips, match_at, wrap_at, seek-Yields}
use juno_agent.Parser.Next.Levels.{
  ToMonth, ToDay, ToHour, ToMinute, ReadyHour, ReadyDay, ReadyMonth, Once, Anywhere, month_same,
  day_same, hour_same, month-IsLevel,
}
use juno_agent.Parser.Next.Day.{day-IsLevel}
use juno_agent.Parser.Next.Clock.{OnMinute, Always, hour-IsLevel, minute-IsLevel, second-IsLevel}

-- The schedule names every field of a time.
pub record Matches (s : SpecSchedule) (t : Time) : Type 0 where
  pub month_named : names s.month t.month ≡ true
  pub day_named : day_matches s t ≡ true
  pub hour_named : names s.hour t.hour ≡ true
  pub minute_named : names s.minute t.minute ≡ true
  pub second_named : names s.second t.second ≡ true

-- No time from one instant up to another matches.
abbrev pub Lacks : SpecSchedule → Time → Time → Type 0
Lacks s t u = (v : Time) → IsTime v → rank t ≤ rank v → rank v < rank u → ¬ (Matches s v)

pub join-Lacks : (s : SpecSchedule) (t u w : Time) → Lacks s t u → Lacks s u w → Lacks s t w
join-Lacks s t u w f g v q low high = elim (dec_lt (rank v) (rank u)) [
  | yes early ↦ f v q low early
  | no late ↦ g v q (omega arith) high
]

-- What a pass may yield: a time that matches, or a later time from which to pass again.
pub data Passed (s : SpecSchedule) (t : Time) : Pass → Type 0 where
  at_match :
      (u : Time) (a : Bool)
      → Matches s u
      → IsTime u
      → rank t ≤ rank u
      → Lacks s t u
      → Passed s t (matched u a)
  at_wrap :
      (u : Time)
      → IsTime u
      → rank t < rank u
      → ReadyMonth s u
      → Lacks s t u
      → Passed s t (wrapped u)

-- From within a named month, day or hour, a wrap of a later loop leads to where a pass may start.
module _ (s : SpecSchedule) (t u : Time) (m : names s.month t.month ≡ true) where
  ToDay-ReadyMonth : ToDay t u → ReadyMonth s u
  ToDay-ReadyMonth (inl e) = inl e
  ToDay-ReadyMonth (inr (e, z)) = inr (sym (month_same s t u e) ∙ m, inl z)

  ToHour-ReadyMonth : day_matches s t ≡ true → ToHour t u → ReadyMonth s u
  ToHour-ReadyMonth d (inl e) = ToDay-ReadyMonth e
  ToHour-ReadyMonth d (inr (e, z)) =
      inr (sym (month_same s t u e.0) ∙ m, inr (sym (day_same s t u e) ∙ d, inl z))

  ToMinute-ReadyMonth :
      day_matches s t ≡ true → names s.hour t.hour ≡ true → ToMinute t u → ReadyMonth s u
  ToMinute-ReadyMonth d h (inl e) = ToHour-ReadyMonth d e
  ToMinute-ReadyMonth d h (inr (e, z)) = inr (
    sym (month_same s t u e.0.0) ∙ m,
    inr (sym (day_same s t u e.0) ∙ d, inr (sym (hour_same s t u e) ∙ h, z)),
  )

-- What is ready for one loop is ready for the next.
module _ (s : SpecSchedule) (t : Time) (a : Bool) where
  to_day : Once (ReadyMonth s) t a → Once (ReadyDay s) t a
  to_day r e = elim (r e) [ inl z ↦ inl z.1 | inr z ↦ z.1 ]

  to_hour : Once (ReadyDay s) t a → Once (ReadyHour s) t a
  to_hour r e = elim (r e) [ inl z ↦ inl (z.1, z.2) | inr z ↦ z.1 ]

  to_minute : Once (ReadyHour s) t a → Once (OnMinute s) t a
  to_minute r e = elim (r e) [ inl z ↦ z.1 | inr z ↦ z.1 ]

-- The stages of a pass, from the last loop to the first. `z` is the time of the whole pass.
module _ (s : SpecSchedule) (z : Time) where
  -- A loop that a matching time passes leaves none out.
  Skips-Lacks :
      (l : Level)
      → ((v : Time) → Matches s v → l.test v ≡ true)
      → (t u : Time) → Lacks s z t
      → Skips l t u
      → Lacks s z u
  Skips-Lacks l passes t u none skips =
      join-Lacks s z t u none λ v q low high m. cc (passes v m, skips v q low high)

  on_second :
      (t : Time)
      → rank z ≤ rank t
      → Lacks s z t
      → names s.month t.month ≡ true
      → day_matches s t ≡ true
      → names s.hour t.hour ≡ true
      → names s.minute t.minute ≡ true
      → (p : Pass) → Yields (second_level s) SameMinute ToMinute (Once (Always s)) t p
      → Passed s z p
  unfolding second_level
  on_second t le lack m d h n _ (match_at u a passes v r e w k) =
      at_match u a
        (record {
          month_named = sym (month_same s t u e.0.0.0) ∙ m;
          day_named = sym (day_same s t u e.0.0) ∙ d;
          hour_named = sym (hour_same s t u e.0) ∙ h;
          minute_named = sym (ap (names s.minute) e.1) ∙ n;
          second_named = passes;
        })
        v (omega arith) (Skips-Lacks (second_level s) (λ v m. m.second_named) t u lack k)
  on_second t le lack m d h n _ (wrap_at u v r e k) =
      at_wrap u v (omega arith) (ToMinute-ReadyMonth s t u m d h e)
        (Skips-Lacks (second_level s) (λ v m. m.second_named) t u lack k)

  on_minute :
      (t : Time)
      → rank z ≤ rank t
      → Lacks s z t
      → names s.month t.month ≡ true
      → day_matches s t ≡ true
      → names s.hour t.hour ≡ true
      → (p : Pass) → Yields (minute_level s) SameHour ToHour (Once (OnMinute s)) t p
      → Passed s z (then_seek p (seek (second_level s) 61))
  unfolding minute_level
  on_minute t le lack m d h _ (match_at u a passes v r e w k) =
      on_second u (omega arith) (Skips-Lacks (minute_level s) (λ v m. m.minute_named) t u lack k)
        (sym (month_same s t u e.0.0) ∙ m) (sym (day_same s t u e.0) ∙ d)
        (sym (hour_same s t u e) ∙ h) passes _
        (seek-Yields _ _ 59 SameMinute ToMinute (Once (Always s)) (second-IsLevel s) 61 u a v
          (λ _. tt) (omega arith))
  on_minute t le lack m d h _ (wrap_at u v r e k) =
      at_wrap u v (omega arith) (ToHour-ReadyMonth s t u m d e)
        (Skips-Lacks (minute_level s) (λ v m. m.minute_named) t u lack k)

  on_hour :
      (t : Time)
      → rank z ≤ rank t
      → Lacks s z t
      → names s.month t.month ≡ true
      → day_matches s t ≡ true
      → (p : Pass) → Yields (hour_level s) SameDay ToDay (Once (ReadyHour s)) t p
      → Passed s z
          (then_seek p λ t a. then_seek (seek (minute_level s) 61 t a) (seek (second_level s) 61))
  unfolding hour_level
  on_hour t le lack m d _ (match_at u a passes v r e w k) =
      on_minute u (omega arith) (Skips-Lacks (hour_level s) (λ v m. m.hour_named) t u lack k)
        (sym (month_same s t u e.0) ∙ m) (sym (day_same s t u e) ∙ d) passes _
        (seek-Yields _ _ 59 SameHour ToHour (Once (OnMinute s)) (minute-IsLevel s) 61 u a v
          (to_minute s u a w) (omega arith))
  on_hour t le lack m d _ (wrap_at u v r e k) =
      at_wrap u v (omega arith) (ToDay-ReadyMonth s t u m e)
        (Skips-Lacks (hour_level s) (λ v m. m.hour_named) t u lack k)

  on_day :
      (t : Time)
      → rank z ≤ rank t
      → Lacks s z t
      → names s.month t.month ≡ true
      → (p : Pass) → Yields (day_level s) SameMonth ToMonth (Once (ReadyDay s)) t p
      → Passed s z (
          then_seek p λ t a.
            then_seek
              (seek (hour_level s) 25 t a)
              λ t a. then_seek (seek (minute_level s) 61 t a) (seek (second_level s) 61))
  unfolding day_level
  on_day t le lack m _ (match_at u a passes v r e w k) =
      on_hour u (omega arith) (Skips-Lacks (day_level s) (λ v m. m.day_named) t u lack k)
        (sym (month_same s t u e) ∙ m) passes _
        (seek-Yields _ _ 23 SameDay ToDay (Once (ReadyHour s)) (hour-IsLevel s) 25 u a v
          (to_hour s u a w) (omega arith))
  on_day t le lack m _ (wrap_at u v r e k) =
      at_wrap u v (omega arith) (inl e) (Skips-Lacks (day_level s) (λ v m. m.day_named) t u lack k)

  on_month :
      (t : Time)
      → rank z ≤ rank t
      → Lacks s z t
      → (p : Pass) → Yields (month_level s) Anywhere ToMonth (Once (ReadyMonth s)) t p
      → Passed s z (
          then_seek p λ t a. then_seek (seek (day_level s) 32 t a) λ t a.
            then_seek
              (seek (hour_level s) 25 t a)
              λ t a. then_seek (seek (minute_level s) 61 t a) (seek (second_level s) 61))
  unfolding month_level
  on_month t le lack _ (match_at u a passes v r e w k) =
      on_day u (omega arith) (Skips-Lacks (month_level s) (λ v m. m.month_named) t u lack k) passes
        _
        (seek-Yields _ _ 31 SameMonth ToMonth (Once (ReadyDay s)) (day-IsLevel s) 32 u a v
          (to_day s u a w) (omega (arith, v.day_low)))
  on_month t le lack _ (wrap_at u v r e k) =
      at_wrap u v (omega arith) (inl e)
        (Skips-Lacks (month_level s) (λ v m. m.month_named) t u lack k)

pub pass-Passed :
    (s : SpecSchedule) (t : Time) (a : Bool)
    → IsTime t
    → Once (ReadyMonth s) t a
    → Passed s t (pass s t a)
unfolding pass
pass-Passed s t a v w =
    on_month s t t (omega arith) (λ x q low high. absurd (omega arith)) _
      (seek-Yields _ _ 12 Anywhere ToMonth (Once (ReadyMonth s)) (month-IsLevel s) 13 t a v w
        (omega (arith, v.month_low)))
