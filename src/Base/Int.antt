-- ===== src/Base/Int.antt =====
-- Signed numbers, and strconv.Atoi on 64-bit ints.
use Prim.Native.Nat.{ℕ, suc, zero, ◌+◌, ◌-◌, ◌*◌, ◌^◌}
use mathlib.Core.Bool.{Bool, ◌&&◌}
use mathlib.Core.Option.{Option, none, some}
use mathlib.Core.List.{[], ◌∷◌}
use juno_agent.Base.Tests.{leb, ◌==◌, if◌then◌else◌}
use juno_agent.Base.Text.{Bytes}

-- `negsuc n` is -(n + 1).
pub data ℤ : Type 0 where
  pos : ℕ → ℤ
  negsuc : ℕ → ℤ

abbrev pub minus : ℕ → ℤ
minus zero = pos 0
minus (suc n) = negsuc n

abbrev pub is_digit : ℕ → Bool
is_digit c = leb b'0' c && leb c b'9'

-- The number that decimal digits spell behind `n`; `none` at another byte.
unfoldable pub scan_digits : Bytes → ℕ → Option ℕ
scan_digits [] n = some n
scan_digits (c ∷ s) n =
    let rest = scan_digits s (n * 10 + (c - b'0')) in if is_digit c then rest else none

unfoldable pub unsigned : Bytes → Option ℕ
unfolding scan_digits
unsigned [] = none
unsigned (c ∷ s) = scan_digits (c ∷ s) 0

abbrev in_range : ℕ → (ℕ → ℤ) → Option ℕ → Option ℤ
in_range top sign none = none
in_range top sign (some n) = if leb n top then some (sign n) else none

-- strconv.Atoi: an optional sign and digits, or an error when a byte is wrong or the value does not
-- fit.
unfoldable pub atoi : Bytes → Option ℤ
unfolding unsigned
atoi [] = none
atoi (c ∷ s) =
    if c == b'-'
    then in_range (2 ^ 63) minus (unsigned s)
    else if c == b'+'
    then in_range (2 ^ 63 - 1) pos (unsigned s)
    else in_range (2 ^ 63 - 1) pos (unsigned (c ∷ s))
