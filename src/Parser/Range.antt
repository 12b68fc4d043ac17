-- ===== src/Parser/Range.antt =====
-- getField, getRange, parseIntOrName and mustParseInt of pkg/job/parser/parser.go: one field of an
-- expression, to the bits of its values. The proofs are in the modules below.
pub mod Laws
pub mod Total
pub mod Grammar
use Prim.Native.Nat.{bit_or}
use juno_agent.Base.{
  ℕ, suc, Bool, true, false, ◌||◌, List, [], ◌∷◌, Option, none, some, ◌==◌, ltb, if◌then◌else◌,
}
use juno_agent.Base.Text.{Bytes, codes, text_eq, split, fields_by, to_lower}
use juno_agent.Base.Dict.{Dict, lookup}
use juno_agent.Base.Int.{ℤ, pos, negsuc, atoi}
use juno_agent.Base.Outcome.{ok, err, panics, or_hang, ◌>>=◌}
use juno_agent.Parser.Types.{
  Bounds, Parsed, star_bit, too_many_hyphens, too_many_slashes, bad_int, negative_number,
  below_minimum, above_maximum, inverted_range, zero_step,
}
use juno_agent.Parser.Bits.{get_bits}

from_int : Option ℤ → Parsed ℕ
from_int none = err bad_int
from_int (some (negsuc n)) = err negative_number
from_int (some (pos n)) = ok n

unfoldable pub must_parse_int : Bytes → Parsed ℕ
unfolding from_int
must_parse_int expr = from_int (atoi expr)

or_number : Option ℕ → Bytes → Parsed ℕ
unfolding must_parse_int
or_number (some n) expr = ok n
or_number none expr = must_parse_int expr

unfoldable pub parse_int_or_name : Bytes → Dict ℕ → Parsed ℕ
unfolding or_number
parse_int_or_name expr names = or_number (lookup (to_lower expr) names) expr

pub record Span : Type 0 where
  pub start : ℕ
  pub end : ℕ
  pub step : ℕ
  pub extra : ℕ

abbrev pub is_star : Bytes → Bool
is_star low = text_eq low (codes "*") || text_eq low (codes "?")

-- The `switch len(lowAndHigh)` for a range that is no star.
unfoldable pub span_end : Bounds → ℕ → List Bytes → Parsed Span
span_end r start [] = ok (record { start = start; end = start; step = 1; extra = 0 })
span_end r start (high ∷ []) = parse_int_or_name high r.names >>= λ end.
    ok (record { start = start; end = end; step = 1; extra = 0 })
span_end r start (high ∷ other ∷ rest) = err too_many_hyphens

-- `start`, `end` and `extra` from `lowAndHigh`. A split has at least one part.
unfoldable pub span_ends : Bounds → List Bytes → Parsed Span
unfolding span_end
span_ends r [] = panics
span_ends r (low ∷ rest) =
    let number = parse_int_or_name low r.names >>= λ start. span_end r start rest in
    if is_star low
    then ok (record { start = r.min; end = r.max; step = 1; extra = star_bit })
    else number

abbrev pub is_single : List Bytes → Bool
is_single (low ∷ []) = true
is_single _ = false

-- The `switch len(rangeAndStep)`: what stands behind the first slash.
unfoldable pub span_step : Bounds → Bool → Span → List Bytes → Parsed Span
span_step r single s [] = ok s
span_step r single s (step ∷ []) = must_parse_int step >>= λ n. ok (record {
  start = s.start;
  end = if single then r.max else s.end;
  step = n;
  extra = if ltb 1 n then 0 else s.extra;
})
span_step r single s (step ∷ other ∷ rest) = err too_many_slashes

-- The four tests, and the bits.
unfoldable pub span_bits : Bounds → Span → Parsed ℕ
span_bits r s =
    let bits = or_hang (get_bits s.start s.end s.step) >>= λ b. ok (bit_or b s.extra) in
    if ltb s.start r.min
    then err below_minimum
    else if ltb r.max s.end
    then err above_maximum
    else if ltb s.end s.start
    then err inverted_range
    else if s.step == 0
    then err zero_step
    else bits

unfoldable pub range_parts : Bounds → List Bytes → Parsed ℕ
unfolding span_ends span_step span_bits
range_parts r [] = panics
range_parts r (low_high ∷ steps) = span_ends r (split b'-' low_high) >>= λ s.
    span_step r (is_single (split b'-' low_high)) s steps >>= span_bits r

unfoldable pub get_range : Bytes → Bounds → Parsed ℕ
unfolding range_parts
get_range expr r = range_parts r (split b'/' expr)

-- The loop over the ranges; `bits` is what they set so far.
unfoldable pub union : Bounds → List Bytes → ℕ → Parsed ℕ
union r [] bits = ok bits
union r (expr ∷ ranges) bits = get_range expr r >>= λ bit. union r ranges (bit_or bits bit)

unfoldable pub get_field : Bytes → Bounds → Parsed ℕ
unfolding union
get_field field r = union r (fields_by b',' field) 0
