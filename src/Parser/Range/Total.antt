-- ===== src/Parser/Range/Total.antt =====
-- getRange and getField return on every input; getField joins the values of its ranges and sets
-- no bit outside the bounds of the field but the star bit.
use Prim.Native.Nat.{bit_or}
use mathlib.Core.Bool.{false≢true}
use juno_agent.Base.{ℕ, ◌<◌, ◌≡◌, sym, ◌∙◌, Bool, List, [], ◌∷◌, arith}
use juno_agent.Base.Text.{Bytes, split, split-cons, fields_by}
use juno_agent.Base.Word.{test_bit-bit_or, test_bit-zero}
use juno_agent.Base.Outcome.{ok, ◌>>=◌, Returns, Returns-bind, >>=-eq-ok}
use juno_agent.Parser.Types.{Bounds}
use juno_agent.Parser.Range.{
  Span, span_ends, span_step, span_bits, range_parts, get_range, union, get_field, is_single,
}
use juno_agent.Parser.Range.Laws.{
  IsSpan, Fits, span_ends-IsSpan, span_ends-Returns, span_step-IsSpan, span_step-Returns,
  span_bits-Returns, span_bits-Fits,
}

module _ (r : Bounds) (fits : r.max < 63) where
  -- The part of a range behind its numbers, from a span of its first part.
  steps-Returns :
      (single : Bool) (steps : List Bytes) (s : Span)
      → IsSpan s
      → Returns (span_step r single s steps >>= span_bits r)
  steps-Returns single steps s i =
      Returns-bind (span_step r single s steps) (span_bits r) (span_step-Returns r single s steps)
        (λ t e. span_bits-Returns r t (span_step-IsSpan r single s t steps i e) fits)

  range_parts-Returns :
      (low_high : Bytes) (steps : List Bytes) → Returns (range_parts r (low_high ∷ steps))
  range_parts-Returns low_high steps =
      let lows = split b'-' low_high in
      let (low, rest, e) = split-cons b'-' low_high in
      unfold range_parts in
      Returns-bind (span_ends r lows) (λ s. span_step r (is_single lows) s steps >>= span_bits r)
        (rw e (span_ends-Returns r low rest))
        (λ s h. steps-Returns (is_single lows) steps s (span_ends-IsSpan r lows s h))

  -- getRange returns bits or an error.
  pub get_range-Returns : (expr : Bytes) → Returns (get_range expr r)
  get_range-Returns expr =
      let (low_high, steps, e) = split-cons b'/' expr in
      unfold get_range in rw e (range_parts-Returns low_high steps)

  range_parts-Fits : (parts : List Bytes) (bits : ℕ) → range_parts r parts ≡ ok bits → Fits r bits
  unfolding range_parts
  range_parts-Fits [] bits h = cc
  range_parts-Fits (low_high ∷ steps) bits h =
      let lows = split b'-' low_high in
      let (s, at_s, h1) =
        >>=-eq-ok (span_ends r lows) (λ s. span_step r (is_single lows) s steps >>= span_bits r)
          h in
      let (t, at_t, h2) = >>=-eq-ok (span_step r (is_single lows) s steps) (span_bits r) h1 in
      span_bits-Fits r t bits
        (span_step-IsSpan r (is_single lows) s t steps (span_ends-IsSpan r lows s at_s) at_t) fits
        h2

  -- The bits of a range lie within the bounds, but for the star bit.
  pub get_range-Fits : (expr : Bytes) (bits : ℕ) → get_range expr r ≡ ok bits → Fits r bits
  get_range-Fits expr bits h = range_parts-Fits (split b'/' expr) bits (unfold get_range in h)

  union-Returns : (ranges : List Bytes) (bits : ℕ) → Returns (union r ranges bits)
  unfolding union
  union-Returns [] bits = tt
  union-Returns (expr ∷ ranges) bits =
      Returns-bind (get_range expr r) (λ bit. union r ranges (bit_or bits bit))
        (get_range-Returns expr) (λ bit _. union-Returns ranges (bit_or bits bit))

  -- With bounds below 63, getField returns bits or an error: it does not panic or run for ever.
  pub get_field-Returns : (field : Bytes) → Returns (get_field field r)
  get_field-Returns field = unfold get_field in union-Returns (fields_by b',' field) 0

  bit_or-Fits : (a b : ℕ) → Fits r a → Fits r b → Fits r (bit_or a b)
  bit_or-Fits a b fa fb v t h = ground (arith, test_bit-bit_or a b v, fa v t, fb v t)

  union-Fits :
      (ranges : List Bytes) (bits out : ℕ) → Fits r bits → union r ranges bits ≡ ok out → Fits r out
  unfolding union
  union-Fits [] bits out f h = let e : bits ≡ out = cc in rw e at f
  union-Fits (expr ∷ ranges) bits out f h =
      let (bit, at_bit, h') =
        >>=-eq-ok (get_range expr r) (λ bit. union r ranges (bit_or bits bit)) h in
      union-Fits ranges (bit_or bits bit) out
        (bit_or-Fits bits bit f (get_range-Fits expr bit at_bit)) h'

  -- With bounds below 63, the bits that getField returns lie within the bounds, but for the star bit.
  pub get_field-Fits : (field : Bytes) (bits : ℕ) → get_field field r ≡ ok bits → Fits r bits
  get_field-Fits field bits h =
      union-Fits (fields_by b',' field) 0 bits
        (λ v t is_set. absurd (false≢true (sym (test_bit-zero v) ∙ is_set))) (unfold get_field in h)
