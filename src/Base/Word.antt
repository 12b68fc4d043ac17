-- ===== src/Base/Word.antt =====
-- uint64 words: shifts, complement, and which bits `&` and `|` set.
use Prim.Native.Nat.{
  zero, suc, ◌+◌, ◌-◌, ◌*◌, ◌/◌, ◌%◌, ◌^◌, ◌≤◌, ◌<◌, ℕ, min, max, bit_and, bit_or, digits,
  bit_and-bitwise, bit_or-bitwise,
}
use mathlib.Core.Path.{◌≡◌, refl, ap, ◌∙◌}
use mathlib.Core.Bool.{Bool, true, false, not, ◌&&◌, ◌||◌}
use native.Mathlib.Omega.{arith}
use juno_agent.Base.Tests.{ltb, leb, ◌==◌, ==_iff}

-- `digits` gives the same with any two counts of digits that cover the first number.
module _ (last : ℕ → ℕ) (join : ℕ → ℕ → ℕ) where
  digits_count : (k l x y : ℕ) → x ≤ l → x ≤ k → digits last join k x y ≡ digits last join l x y
  digits_count (suc k) (suc l) (suc x) y at_l at_k =
      ap (λ (t : ℕ). t * 2 + join (suc x % 2) (y % 2))
        (digits_count k l (suc x / 2) (y / 2) (omega arith) (omega arith))
  digits_count zero l (suc x) y at_l at_k = absurd (omega arith)
  digits_count k zero (suc x) y at_l at_k = absurd (omega arith)
  digits_count (suc k) (suc l) zero y at_l at_k = refl
  digits_count (suc k) zero zero y at_l at_k = refl
  digits_count zero (suc l) zero y at_l at_k = refl
  digits_count zero zero zero y at_l at_k = refl

zero-bit_and : (b : ℕ) → bit_and 0 b ≡ 0
zero-bit_and b = λ i. bit_and-bitwise 0 b i

zero-bit_or : (b : ℕ) → bit_or 0 b ≡ b
zero-bit_or b = λ i. bit_or-bitwise 0 b i

-- An operation on digits works on the halves of its numbers and on their last digits.
by_halves :
    (op : ℕ → ℕ → ℕ) (last : ℕ → ℕ) (join : ℕ → ℕ → ℕ)
    → ((x y : ℕ) → op x y ≡ digits last join x x y)
    → (x y : ℕ) → op (suc x) y ≡ join (suc x % 2) (y % 2) + 2 * op (suc x / 2) (y / 2)
by_halves op last join law x y =
    let h = suc x / 2 in
    let enough = digits_count last join x h h (y / 2) (omega arith) (omega arith) in
    omega (arith, law (suc x) y, law h (y / 2), enough)

bit_and-halves : (x y : ℕ) → bit_and x y ≡ min (x % 2) (y % 2) + 2 * bit_and (x / 2) (y / 2)
bit_and-halves zero y = omega (arith, zero-bit_and y, zero-bit_and (y / 2))
bit_and-halves (suc x) y = by_halves bit_and (λ _. 0) min (λ x y i. bit_and-bitwise x y i) x y

bit_or-halves : (x y : ℕ) → bit_or x y ≡ max (x % 2) (y % 2) + 2 * bit_or (x / 2) (y / 2)
bit_or-halves zero y = omega (arith, zero-bit_or y, zero-bit_or (y / 2))
bit_or-halves (suc x) y = by_halves bit_or (λ z. z) max (λ x y i. bit_or-bitwise x y i) x y

-- Bit `i` of a word, from the lowest.
unfoldable pub test_bit : ℕ → ℕ → Bool
test_bit x zero = x % 2 == 1
test_bit x (suc i) = test_bit (x / 2) i

pub test_bit-bit_and : (x y n : ℕ) → test_bit (bit_and x y) n ≡ (test_bit x n && test_bit y n)
unfolding test_bit
test_bit-bit_and x y zero = ground (arith, bit_and-halves x y)
test_bit-bit_and x y (suc n) =
    ap (λ z. test_bit z n) (omega (arith, bit_and-halves x y)) ∙ test_bit-bit_and (x / 2) (y / 2) n

pub test_bit-bit_or : (x y n : ℕ) → test_bit (bit_or x y) n ≡ (test_bit x n || test_bit y n)
unfolding test_bit
test_bit-bit_or x y zero = ground (arith, bit_or-halves x y)
test_bit-bit_or x y (suc n) =
    ap (λ z. test_bit z n) (omega (arith, bit_or-halves x y)) ∙ test_bit-bit_or (x / 2) (y / 2) n

pub test_bit-zero : (i : ℕ) → test_bit 0 i ≡ false
unfolding test_bit
test_bit-zero zero = refl
test_bit-zero (suc i) = test_bit-zero i

-- A power of two has one bit.
pub test_bit-pow : (n i : ℕ) → test_bit (2 ^ n) i ≡ (n == i)
unfolding test_bit
test_bit-pow zero zero = refl
test_bit-pow zero (suc i) = rw (test_bit-zero i) (ground arith)
test_bit-pow (suc n) zero = ground arith
test_bit-pow (suc n) (suc i) =
    let e : 2 ^ suc n / 2 ≡ 2 ^ n = omega arith in rw (e, test_bit-pow n i) (ground arith)

abbrev pub max_uint64 : ℕ
max_uint64 = 2 ^ 64 - 1

-- x << n on uint64; the bits shifted out are lost.
abbrev pub shl64 : ℕ → ℕ → ℕ
shl64 x n = x * 2 ^ n % 2 ^ 64

-- ^x on uint64
abbrev pub not64 : ℕ → ℕ
not64 x = max_uint64 - x

-- Every number below a bound passes a test.
each_under : (ℕ → Bool) → ℕ → Bool
each_under test zero = true
each_under test (suc top) = each_under test top && test top

each_under_at : (test : ℕ → Bool) (top i : ℕ) → each_under test top ≡ true → i < top → test i ≡ true
unfolding each_under
each_under_at test zero i all lt = absurd (omega arith)
each_under_at test (suc top) i all lt = ground (arith, each_under_at test top i)

abbrev same : Bool → Bool → Bool
same true b = b
same false b = not b

same-eq : (a b : Bool) → same a b ≡ true → a ≡ b
same-eq a b h = ground arith

high_row : ℕ → ℕ → Bool
high_row n i = same (test_bit (shl64 max_uint64 n) i) (leb n i)

low_row : ℕ → ℕ → Bool
low_row n i = same (test_bit (not64 (shl64 max_uint64 n)) i) (ltb i n)

high_table : each_under (λ n. each_under (high_row n) 64) 65 ≡ true
unfolding each_under high_row test_bit
high_table = refl

low_table : each_under (λ n. each_under (low_row n) 64) 65 ≡ true
unfolding each_under low_row test_bit
low_table = refl

-- MaxUint64 << n has the bits from `n` up, and its complement those below `n`.
pub test_bit-shl64 : (n i : ℕ) → n ≤ 64 → i < 64 → test_bit (shl64 max_uint64 n) i ≡ leb n i
unfolding high_row
test_bit-shl64 n i p q = same-eq _ _ (
    each_under_at (high_row n) 64 i
      (each_under_at (λ n. each_under (high_row n) 64) 65 n high_table (omega arith)) q)

pub test_bit-not64 : (n i : ℕ) → n ≤ 64 → i < 64 → test_bit (not64 (shl64 max_uint64 n)) i ≡ ltb i n
unfolding low_row
test_bit-not64 n i p q = same-eq _ _ (
    each_under_at (low_row n) 64 i
      (each_under_at (λ n. each_under (low_row n) 64) 65 n low_table (omega arith)) q)

one_row : ℕ → Bool
one_row n = shl64 1 n == 2 ^ n

one_table : each_under one_row 64 ≡ true
unfolding each_under one_row
one_table = refl

-- 1 << n loses nothing below 64.
pub shl64_one : (n : ℕ) → n < 64 → shl64 1 n ≡ 2 ^ n
unfolding one_row
shl64_one n h = (==_iff _ _).0 (each_under_at one_row 64 n one_table h)
