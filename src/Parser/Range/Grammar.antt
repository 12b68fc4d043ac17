-- ===== src/Parser/Range/Grammar.antt =====
-- What the forms of a range mean: `low-high/step`, `low/step` and `*/step`.
use juno_agent.Base.{
  ℕ, ◌≤◌, ◌<◌, ◌≡◌, refl, ap, ◌∙◌, false, ◌&&◌, ◌||◌, List, [], ◌∷◌, ◌==◌, ltb, arith, All,
  if◌then◌else◌,
}
use juno_agent.Base.Text.{Bytes, codes, split, join, split-join, Lacks, text_eq}
use juno_agent.Base.Word.{test_bit, test_bit-zero, test_bit-pow}
use juno_agent.Base.Outcome.{ok, ◌>>=◌}
use juno_agent.Parser.Types.{Bounds, star_bit}
use juno_agent.Parser.Bits.Laws.{selects}
use juno_agent.Parser.Range.{
  Span, span_ends, span_step, range_parts, get_range, is_single, is_star, must_parse_int,
  parse_int_or_name, span_bits,
}
use juno_agent.Parser.Range.Laws.{Passes, span_bits-ok, span_ends-IsSpan, span_step-IsSpan}

-- A range whose numbers were read to a span that passes the tests.
range_parts-ok :
    (r : Bounds) (low_high : Bytes) (steps : List Bytes) (s t : Span) (v : ℕ)
    → r.max < 63
    → v < 64
    → span_ends r (split b'-' low_high) ≡ ok s
    → span_step r (is_single (split b'-' low_high)) s steps ≡ ok t
    → Passes r t
    → (bits : ℕ) × (range_parts r (low_high ∷ steps) ≡ ok bits)
      × (test_bit bits v ≡ (selects t.start t.end t.step v || test_bit t.extra v))
range_parts-ok r low_high steps s t v m lt e1 e2 p =
    let single = is_single (split b'-' low_high) in
    let i = span_ends-IsSpan r (split b'-' low_high) s e1 in
    let (bits, runs, is_set) =
      span_bits-ok r t v (span_step-IsSpan r single s t steps i e2) m lt p.0 p.1 p.2 p.3 in
    (
      bits,
      unfold range_parts in
          (ap (λ x. x >>= λ s. span_step r single s steps >>= span_bits r) e1
            ∙ ap (λ x. x >>= span_bits r) e2
            ∙ runs),
      is_set,
    )

module _ (r : Bounds) (fits : r.max < 63) (v : ℕ) (below : v < 64) where
  -- In a field with bounds below 63, `low-high/step`, of numbers or names in order and within the
  -- bounds and a positive step, sets just the bits of every step-th value from low to high.
  pub get_range-stepped :
      (low high step : Bytes) (x y n : ℕ)
      → All (Lacks b'-') (low ∷ high ∷ [])
      → All (Lacks b'/') (join (codes "-") (low ∷ high ∷ []) ∷ step ∷ [])
      → is_star low ≡ false
      → parse_int_or_name low r.names ≡ ok x
      → parse_int_or_name high r.names ≡ ok y
      → must_parse_int step ≡ ok n
      → r.min ≤ x
      → x ≤ y
      → y ≤ r.max
      → 0 < n
      → (bits : ℕ) × (get_range
            (join (codes "/") (join (codes "-") (low ∷ high ∷ []) ∷ step ∷ []))
            r
          ≡ ok bits)
        × (test_bit bits v ≡ selects x y n v)
  get_range-stepped low high step x y n dash slash plain at_x at_y at_n a b c d =
      let low_high = join (codes "-") (low ∷ high ∷ []) in
      let cut = split-join b'-' low (high ∷ []) dash in
      let s : Span = record { start = x; end = y; step = 1; extra = 0 } in
      let t : Span = record { start = x; end = y; step = n; extra = 0 } in
      let (bits, runs, is_set) =
        range_parts-ok r low_high (step ∷ []) s t v fits below
          (rw cut (unfold span_ends in rw (plain, at_x, at_y)))
          (rw cut (unfold span_step in rw at_n (ground arith))) (a, c, b, d) in
      (
        bits,
        (unfold get_range in rw (split-join b'/' low_high (step ∷ []) slash) runs),
        is_set ∙ ground (arith, test_bit-zero v),
      )

  -- In a field with bounds below 63, `low/step`, of a number or name within the bounds and a positive
  -- step, sets just the bits of every step-th value from low to the maximum of the field.
  pub get_range-open :
      (low step : Bytes) (x n : ℕ)
      → Lacks b'-' low
      → All (Lacks b'/') (low ∷ step ∷ [])
      → is_star low ≡ false
      → parse_int_or_name low r.names ≡ ok x
      → must_parse_int step ≡ ok n
      → r.min ≤ x
      → x ≤ r.max
      → 0 < n
      → (bits : ℕ) × (get_range (join (codes "/") (low ∷ step ∷ [])) r ≡ ok bits)
        × (test_bit bits v ≡ selects x r.max n v)
  get_range-open low step x n dash slash plain at_x at_n a b c =
      let cut : split b'-' low ≡ low ∷ [] = unfold join in split-join b'-' low [] (dash, tt) in
      let s : Span = record { start = x; end = x; step = 1; extra = 0 } in
      let t : Span = record { start = x; end = r.max; step = n; extra = 0 } in
      let (bits, runs, is_set) =
        range_parts-ok r low (step ∷ []) s t v fits below
          (rw cut (unfold span_ends in rw (plain, at_x)))
          (rw cut (unfold span_step in rw at_n (ground arith))) (a, omega arith, b, c) in
      (
        bits,
        (unfold get_range in rw (split-join b'/' low (step ∷ []) slash) runs),
        is_set ∙ ground (arith, test_bit-zero v),
      )

  -- In a field with bounds below 63, `*/step` with a positive step sets the bits of every step-th value
  -- of the field, and the star bit only for step 1.
  pub get_range-star :
      (step : Bytes) (n : ℕ)
      → Lacks b'/' step
      → must_parse_int step ≡ ok n
      → r.min ≤ r.max
      → 0 < n
      → (bits : ℕ) × (get_range (join (codes "/") (codes "*" ∷ step ∷ [])) r ≡ ok bits)
        × (test_bit bits v ≡ (selects r.min r.max n v || ((n == 1) && (v == 63))))
  get_range-star step n slash at_n a c =
      let s : Span = record { start = r.min; end = r.max; step = 1; extra = star_bit } in
      let t : Span = record {
        start = r.min;
        end = r.max;
        step = n;
        extra = if ltb 1 n then 0 else star_bit;
      } in
      let (bits, runs, is_set) =
        range_parts-ok r (codes "*") (step ∷ []) s t v fits below
          (unfold span_ends split text_eq in refl) (unfold span_step split in rw at_n)
          (omega arith, omega arith, a, c) in
      (
        bits,
        (unfold get_range in
            rw (split-join b'/' (codes "*") (step ∷ []) (omega arith, (slash, tt))) runs),
        is_set ∙ ground (arith, test_bit-zero v, test_bit-pow 63 v),
      )
