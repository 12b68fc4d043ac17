-- ===== src/Parser/Bits.antt =====
-- getBits and all of pkg/job/parser/parser.go: the bits of a range of values with a step.
pub mod Laws
use Prim.Native.Nat.{bit_and, bit_or}
use juno_agent.Base.{
  ℕ, zero, suc, ◌+◌, ◌%◌, ◌^◌, Option, none, some, true, false, ◌==◌, leb, if◌then◌else◌,
}
use juno_agent.Base.Word.{max_uint64, shl64, not64}
use juno_agent.Base.Outcome.{or_hang, ◌>>=◌, ok}
use juno_agent.Parser.Types.{Bounds, Parsed, star_bit}

-- The loop `for i := min; i <= max; i += step` on uint; `none` stands for fuel that ran out.
pub bits_loop : ℕ → ℕ → ℕ → ℕ → ℕ → Option ℕ
bits_loop zero i max step bits = none
bits_loop (suc fuel) i max step bits = elim (leb i max) [
  | true ↦ bits_loop fuel ((i + step) % 2 ^ 64) max step (bit_or bits (shl64 1 i))
  | false ↦ some bits
]

-- A round for each value up to `max` is enough unless the step is 0.
unfoldable pub get_bits : ℕ → ℕ → ℕ → Option ℕ
unfolding bits_loop
get_bits min max step =
    let loop = bits_loop (max + 2) min max step 0 in
    if step == 1
    then some (bit_and (not64 (shl64 max_uint64 (max + 1))) (shl64 max_uint64 min))
    else loop

-- Every value of a field, with the star bit.
unfoldable pub all_bits : Bounds → Parsed ℕ
unfolding get_bits
all_bits r = or_hang (get_bits r.min r.max 1) >>= λ bits. ok (bit_or bits star_bit)
