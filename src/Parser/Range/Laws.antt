-- ===== src/Parser/Range/Laws.antt =====
-- getRange and getField return on every input, and set no bit outside the bounds of the field.
use Prim.Native.Nat.{bit_or}
use juno_agent.Base.{
  ℕ, ◌≤◌, ◌<◌, ◌^◌, ◌≡◌, ap, ◌⊎◌, inl, inr, Bool, true, ◌||◌, List, [], ◌∷◌, some, arith,
}
use juno_agent.Base.Dict.{Dict}
use juno_agent.Base.Int.{atoi, pos}
use juno_agent.Base.Text.{Bytes}
use juno_agent.Base.Word.{test_bit, test_bit-bit_or, test_bit-zero, test_bit-pow}
use juno_agent.Base.Outcome.{ok, err, Returns}
use juno_agent.Parser.Types.{
  Bounds, ParseError, star_bit, below_minimum, above_maximum, inverted_range, zero_step,
}
use native.Mathlib.Decide.{dec_lt}
use juno_agent.Parser.Bits.Laws.{get_bits-selects, selects}
use juno_agent.Parser.Range.{
  Span, must_parse_int, parse_int_or_name, span_ends, span_step, span_bits,
}

atoi-lt : (expr : Bytes) (n : ℕ) → atoi expr ≡ some (pos n) → n < 2 ^ 63
unfolding atoi
atoi-lt [] n h = cc
atoi-lt (c ∷ s) n h = ground arith

-- A number that was read is an int.
must_parse_int-lt : (expr : Bytes) (n : ℕ) → must_parse_int expr ≡ ok n → n < 2 ^ 63
unfolding must_parse_int
must_parse_int-lt expr n h = ground (arith, atoi-lt expr n)

must_parse_int-Returns : (expr : Bytes) → Returns (must_parse_int expr)
unfolding must_parse_int
must_parse_int-Returns expr = ground arith

pub parse_int_or_name-Returns :
    (expr : Bytes) (names : Dict ℕ) → Returns (parse_int_or_name expr names)
unfolding parse_int_or_name
parse_int_or_name-Returns expr names = ground (arith, must_parse_int-Returns expr)

-- What holds of a span before its tests.
abbrev pub IsSpan : Span → Type 0
IsSpan s = (s.step < 2 ^ 63) × ((s.extra ≡ 0) ⊎ (s.extra ≡ star_bit))

pub span_ends-IsSpan :
    (r : Bounds) (parts : List Bytes) (s : Span) → span_ends r parts ≡ ok s → IsSpan s
unfolding span_ends
span_ends-IsSpan r [] s h = cc
span_ends-IsSpan r (low ∷ []) s h = ground arith
span_ends-IsSpan r (low ∷ high ∷ []) s h = ground arith
span_ends-IsSpan r (low ∷ high ∷ other ∷ rest) s h = ground arith

pub span_ends-Returns :
    (r : Bounds) (low : Bytes) (rest : List Bytes) → Returns (span_ends r (low ∷ rest))
unfolding span_ends
span_ends-Returns r low [] = ground (arith, parse_int_or_name-Returns low r.names)
span_ends-Returns r low (high ∷ []) =
    ground (arith, parse_int_or_name-Returns low r.names, parse_int_or_name-Returns high r.names)
span_ends-Returns r low (high ∷ other ∷ rest) =
    ground (arith, parse_int_or_name-Returns low r.names)

pub span_step-IsSpan :
    (r : Bounds) (single : Bool) (s t : Span) (steps : List Bytes)
    → IsSpan s
    → span_step r single s steps ≡ ok t
    → IsSpan t
unfolding span_step
span_step-IsSpan r single s t [] i h = ground arith
span_step-IsSpan r single s t (step ∷ []) i h = ground (arith, must_parse_int-lt step t.step)
span_step-IsSpan r single s t (step ∷ other ∷ rest) i h = cc

pub span_step-Returns :
    (r : Bounds) (single : Bool) (s : Span) (steps : List Bytes)
    → Returns (span_step r single s steps)
unfolding span_step
span_step-Returns r single s [] = tt
span_step-Returns r single s (step ∷ []) = ground (arith, must_parse_int-Returns step)
span_step-Returns r single s (step ∷ other ∷ rest) = tt

-- The bits of a field: values within its bounds, and perhaps the star bit.
abbrev pub Fits : Bounds → ℕ → Type 0
Fits r bits = (v : ℕ) → v < 64 → test_bit bits v ≡ true → ((r.min ≤ v) × (v ≤ r.max)) ⊎ (v ≡ 63)

-- A span within the bounds yields its selected values and its extra bit.
pub span_bits-ok :
    (r : Bounds) (s : Span) (v : ℕ)
    → IsSpan s
    → r.max < 63
    → v < 64
    → r.min ≤ s.start
    → s.end ≤ r.max
    → s.start ≤ s.end
    → 0 < s.step
    → (bits : ℕ) × (span_bits r s ≡ ok bits)
      × (test_bit bits v ≡ (selects s.start s.end s.step v || test_bit s.extra v))
unfolding span_bits
span_bits-ok r s v i m t a b c d =
    let (out, runs, is_set) = get_bits-selects s.start s.end s.step v d i.0 c (omega arith) t in
    (bit_or out s.extra, ground (arith, runs), rw (test_bit-bit_or, is_set))

-- The tests let a span through, or refuse it with an error.
abbrev pub Passes : Bounds → Span → Type 0
Passes r s = (r.min ≤ s.start) × (s.end ≤ r.max) × (s.start ≤ s.end) × (0 < s.step)

pub span_bits-cases :
    (r : Bounds) (s : Span) → Passes r s ⊎ ((e : ParseError) × (span_bits r s ≡ err e))
unfolding span_bits
span_bits-cases r s = elim (dec_lt s.start r.min) [
  | yes a ↦ inr (below_minimum, ground arith)
  | no a ↦ elim (dec_lt r.max s.end) [
    | yes b ↦ inr (above_maximum, ground arith)
    | no b ↦ elim (dec_lt s.end s.start) [
      | yes c ↦ inr (inverted_range, ground arith)
      | no c ↦ elim (dec_lt 0 s.step) [
        | yes d ↦ inl (omega arith)
        | no d ↦ inr (zero_step, ground arith)
      ]
    ]
  ]
]

-- For every value, a span is refused, or its bits are known at that value.
pub span_bits-Returns : (r : Bounds) (s : Span) → IsSpan s → r.max < 63 → Returns (span_bits r s)
span_bits-Returns r s i m = elim (span_bits-cases r s) [
  | inl p ↦
      let (bits, runs, is_set) = span_bits-ok r s 0 i m (omega arith) p.0 p.1 p.2 p.3 in rw runs tt
  | inr (e, refused) ↦ rw refused tt
]

pub test_bit-extra : (x v : ℕ) → (x ≡ 0) ⊎ (x ≡ star_bit) → test_bit x v ≡ true → v ≡ 63
test_bit-extra x v (inl e) h = cc (test_bit-zero v, ap (λ t. test_bit t v) e)
test_bit-extra x v (inr e) h = ground (arith, test_bit-pow 63 v, ap (λ t. test_bit t v) e)

pub span_bits-Fits :
    (r : Bounds) (s : Span) (bits : ℕ)
    → IsSpan s
    → r.max < 63
    → span_bits r s ≡ ok bits
    → Fits r bits
span_bits-Fits r s bits i m h v t is_set = elim (span_bits-cases r s) [
  | inl p ↦
      let (out, runs, at_v) = span_bits-ok r s v i m t p.0 p.1 p.2 p.3 in
      let e : out ≡ bits = cc in
      let at_bits : test_bit bits v ≡ (selects s.start s.end s.step v || test_bit s.extra v) =
        rw e at at_v in
      ground (arith, at_bits, test_bit-extra s.extra v i.1)
  | inr (e, refused) ↦ cc
]
