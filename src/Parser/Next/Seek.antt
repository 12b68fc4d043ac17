-- ===== src/Parser/Next/Seek.antt =====
-- One loop of Next ends: at a time that passes its test, or behind a wrap at a later time.
use juno_agent.Base.{
  ℕ, zero, suc, ◌+◌, ◌≤◌, ◌<◌, ◌≡◌, inl, inr, Bool, true, false, arith, Bool-cases, if◌then◌else◌,
}
use native.Mathlib.Decide.{dec_lt}
use juno_agent.Parser.Calendar.{Time, IsTime, rank}
use juno_agent.Parser.Next.{Level, Pass, matched, wrapped, seek}

-- What a round does when the test fails: reset if nothing was added before, then advance.
abbrev pub step : Level → Time → Bool → Time
step l t true = l.advance t
step l t false = l.advance (l.reset t)

-- No time from one instant up to another passes the test.
abbrev pub Skips : Level → Time → Time → Type 0
Skips l t u = (v : Time) → IsTime v → rank t ≤ rank v → rank v < rank u → l.test v ≡ false

-- What a loop needs of its rounds. `field` is the field that it advances, at most `top`; `Same`
-- says which fields a round within the loop leaves alone, `After` what a wrap leaves, and `Ready`
-- when a round may be made.
pub record IsLevel (l : Level) (field : Time → ℕ) (top : ℕ) (Same After : Time → Time → Type 0)
    (Ready : Time → Bool → Type 0) : Type 0 where
  pub step_valid :
      (t : Time) (a : Bool) → IsTime t → Ready t a → l.test t ≡ false → IsTime (step l t a)
  pub step_later :
      (t : Time) (a : Bool) → IsTime t → Ready t a → l.test t ≡ false → rank t < rank (step l t a)
  pub step_within :
      (t : Time) (a : Bool)
      → IsTime t
      → Ready t a
      → l.test t ≡ false
      → l.at_start (step l t a) ≡ false
      → (field t + 1 ≤ field (step l t a)) × Same t (step l t a) × Ready (step l t a) true
  pub step_wraps :
      (t : Time) (a : Bool)
      → IsTime t
      → Ready t a
      → l.test t ≡ false
      → l.at_start (step l t a) ≡ true
      → After t (step l t a)
  pub step_skips :
      (t : Time) (a : Bool) → IsTime t → Ready t a → l.test t ≡ false → Skips l t (step l t a)
  pub field_top : (t : Time) → IsTime t → field t ≤ top
  pub same_refl : (t : Time) → Same t t
  pub same_trans : (t u v : Time) → Same t u → Same u v → Same t v
  pub same_after : (t u v : Time) → Same t u → After u v → After t v

-- What a loop may yield from a time.
pub data Yields (l : Level) (Same After : Time → Time → Type 0) (Ready : Time → Bool → Type 0)
    (t : Time) : Pass → Type 0 where
  match_at :
      (u : Time) (added : Bool)
      → l.test u ≡ true
      → IsTime u
      → rank t ≤ rank u
      → Same t u
      → Ready u added
      → Skips l t u
      → Yields l Same After Ready t (matched u added)
  wrap_at :
      (u : Time)
      → IsTime u
      → rank t < rank u
      → After t u
      → Skips l t u
      → Yields l Same After Ready t (wrapped u)

module _ (l : Level) (field : Time → ℕ) (top : ℕ) (Same After : Time → Time → Type 0)
    (Ready : Time → Bool → Type 0) (laws : IsLevel l field top Same After Ready) where
  -- A round, with its step.
  seek_round :
      (fuel : ℕ) (t : Time) (added : Bool)
      → seek l (suc fuel) t added ≡ (
          if l.test t
          then matched t added
          else if l.at_start (step l t added)
          then wrapped (step l t added)
          else seek l fuel (step l t added) true)
  unfolding seek
  seek_round fuel t true = ground arith
  seek_round fuel t false = ground arith

  join-Skips : (t u w : Time) → Skips l t u → Skips l u w → Skips l t w
  join-Skips t u w f g v q low high = elim (dec_lt (rank v) (rank u)) [
    | yes early ↦ f v q low early
    | no late ↦ g v q (omega arith) high
  ]

  earlier :
      (t u : Time) (p : Pass)
      → rank t ≤ rank u
      → Same t u
      → Skips l t u
      → Yields l Same After Ready u p
      → Yields l Same After Ready t p
  earlier t u p le same skips (match_at w added passes v r s d k) =
      match_at w added passes v (omega arith) (laws.same_trans t u w same s) d
        (join-Skips t u w skips k)
  earlier t u p le same skips (wrap_at w v r a k) =
      wrap_at w v (omega arith) (laws.same_after t u w same a) (join-Skips t u w skips k)

  -- With a round for every value of the field that is left, the loop ends, by its test or by a wrap.
  pub seek-Yields :
      (fuel : ℕ) (t : Time) (added : Bool)
      → IsTime t
      → Ready t added
      → top < fuel + field t
      → Yields l Same After Ready t (seek l fuel t added)
  seek-Yields zero t added v d h = absurd (omega (arith, laws.field_top t v))
  seek-Yields (suc fuel) t added v d h = elim (Bool-cases (l.test t)) [
    | inl passes ↦
        rw (seek_round fuel t added, passes)
          (match_at t added passes v (omega arith) (laws.same_refl t) d
            (λ v q low high. absurd (omega arith)))
    | inr fails ↦
        let u = step l t added in
        let w = laws.step_valid t added v d fails in
        let later = laws.step_later t added v d fails in
        elim (Bool-cases (l.at_start u)) [
          | inl again ↦
              rw (seek_round fuel t added, fails, again)
                (wrap_at u w later (laws.step_wraps t added v d fails again)
                  (laws.step_skips t added v d fails))
          | inr more ↦
              let r = laws.step_within t added v d fails more in
              rw (seek_round fuel t added, fails, more)
                (earlier t u (seek l fuel u true) (omega arith) r.1
                  (laws.step_skips t added v d fails)
                  (seek-Yields fuel u true w r.2 (omega (arith, r.0))))
        ]
  ]
