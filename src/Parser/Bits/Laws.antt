-- ===== src/Parser/Bits/Laws.antt =====
-- Which bits getBits sets.
use Prim.Native.Nat.{bit_and, bit_or}
use juno_agent.Base.{
  ℕ, zero, suc, ◌+◌, ◌-◌, ◌%◌, ◌^◌, ◌≤◌, ◌<◌, ◌≡◌, refl, some, Bool, true, false, ◌==◌, leb, ◌∙◌,
  ◌&&◌, ◌||◌, arith,
}
use juno_agent.Base.Word.{
  test_bit, test_bit-bit_and, test_bit-bit_or, test_bit-pow, test_bit-zero, test_bit-shl64,
  test_bit-not64, shl64_one, max_uint64, shl64, not64,
}
use native.Mathlib.Decide.{dec_lt}
use native.Mathlib.Nat.{mod-eq_of_lt, mod-eq-sub-mod, mod-one}
use juno_agent.Parser.Bits.{bits_loop, get_bits}

-- `v` is a value of the range from `low` to `high` with the step.
abbrev pub selects : ℕ → ℕ → ℕ → ℕ → Bool
selects low high step v = leb low v && (leb v high && ((v - low) % step == 0))

or_assoc : (a b c : Bool) → ((a || b) || c) ≡ (a || (b || c))
or_assoc true b c = refl
or_assoc false b c = refl

-- What a round adds and what is left after it.
selects_step :
    (low high step v : ℕ)
    → 0 < step
    → low ≤ high
    → selects low high step v ≡ ((low == v) || selects (low + step) high step v)
selects_step low high step v p q = elim (dec_lt v low) [
  | yes below ↦ ground arith
  | no above ↦ elim (dec_lt v (low + step)) [
    | yes near ↦
        let e : (v - low) % step ≡ v - low = mod-eq_of_lt (omega arith) in rw e (ground arith)
    | no far ↦
        let e : (v - low) % step ≡ (v - low - step) % step = mod-eq-sub-mod (omega arith) in
        let d : v - low - step ≡ v - (low + step) = omega arith in rw (e, d) (ground arith)
  ]
]

bits_loop_step :
    (fuel low high step bits : ℕ)
    → step < 2 ^ 63
    → high < 64
    → low ≤ high
    → bits_loop (suc fuel) low high step bits
      ≡ bits_loop fuel (low + step) high step (bit_or bits (2 ^ low))
unfolding bits_loop
bits_loop_step fuel low high step bits q r h =
    let wrap : (low + step) % 2 ^ 64 ≡ low + step = omega arith in
    ground (arith, wrap, shl64_one low (omega arith))

-- With fuel for every value left the loop ends, with the selected bits added.
bits_loop_lem :
    (fuel low high step bits v : ℕ)
    → 0 < step
    → step < 2 ^ 63
    → high < 64
    → v < 64
    → high + 1 < fuel + low
    → 0 < fuel
    → (out : ℕ) × (bits_loop fuel low high step bits ≡ some out)
      × (test_bit out v ≡ (test_bit bits v || selects low high step v))
bits_loop_lem zero low high step bits v p q r t e f = absurd (omega arith)
bits_loop_lem (suc fuel) low high step bits v p q r t e f = elim (dec_lt high low) [
  | yes done ↦ (bits, unfold bits_loop in ground arith, ground arith)
  | no more ↦
      let (out, runs, is_set) =
        bits_loop_lem fuel (low + step) high step (bit_or bits (2 ^ low)) v p q r t (omega arith)
          (omega arith) in
      (
        out,
        bits_loop_step fuel low high step bits q r (omega arith) ∙ runs,
        is_set
            ∙ rw (test_bit-bit_or, test_bit-pow, selects_step low high step v p (omega arith))
                (or_assoc (test_bit bits v) (low == v) _),
      )
]

-- For bounds in order below 63 and a positive step below 2^63, getBits returns, and its bits are the
-- values that the range selects, whether by shifts or by the loop.
pub get_bits-selects :
    (low high step v : ℕ)
    → 0 < step
    → step < 2 ^ 63
    → low ≤ high
    → high < 63
    → v < 64
    → (out : ℕ) × (get_bits low high step ≡ some out) × (test_bit out v ≡ selects low high step v)
unfolding get_bits
get_bits-selects low high step v p q o r t = elim (dec_lt 1 step) [
  | yes big ↦
      let (out, runs, is_set) =
        bits_loop_lem (high + 2) low high step 0 v p q (omega arith) t (omega arith)
          (omega arith) in
      (out, ground (arith, runs), rw is_set (rw (test_bit-zero v)))
  | no small ↦
      let e : step ≡ 1 = omega arith in
      (
        bit_and (not64 (shl64 max_uint64 (high + 1))) (shl64 max_uint64 low),
        rw e,
        rw
            (
              e,
              test_bit-bit_and,
              test_bit-not64 (high + 1) v (omega arith) t,
              test_bit-shl64 low v (omega arith) t,
            )
            (ground (arith, mod-one (v - low))),
      )
]
