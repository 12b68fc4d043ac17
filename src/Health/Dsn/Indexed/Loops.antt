-- ===== src/Health/Dsn/Indexed/Loops.antt =====
-- The loops over indices find what splits a text.
use mathlib.Core.Option
use juno_agent.Base.{
  ℕ, zero, suc, ◌+◌, ◌-◌, ◌≡◌, refl, sym, ap, Option, none, some, inl, inr, ◌⊎◌, [], ◌∷◌, ◌++◌,
  ◌==◌, if◌then◌else◌, length, drop, length-append, take-append, append_assoc, Bool-cases, arith,
}
use juno_agent.Base.Text.{Bytes}
use juno_agent.Health.Dsn.{split_first, split_last}
use juno_agent.Health.Dsn.Indexed.{byte_at, slice, down, up}

pub byte_at-append : (l : Bytes) (c : ℕ) (r : Bytes) → byte_at (l ++ c ∷ r) (length l) ≡ c
byte_at-append [] c r = refl
byte_at-append (a ∷ l) c r = byte_at-append l c r

drop-append : (l r : Bytes) → drop (length l) (l ++ r) ≡ r
drop-append [] r = refl
drop-append (a ∷ l) r = drop-append l r

pub slice-append :
    (l m r : Bytes) (i j : ℕ)
    → i ≡ length l
    → j ≡ length l + length m
    → slice (l ++ (m ++ r)) i j ≡ m
slice-append l m r i j p q =
    rw (p, drop-append l (m ++ r))
      (let e : j - length l ≡ length m = omega (arith, q) in rw (e, take-append m r) refl)

snoc_assoc : (l : Bytes) (c : ℕ) (s : Bytes) → l ++ c ∷ s ≡ (l ++ c ∷ []) ++ s
snoc_assoc l c s = sym (append_assoc l (c ∷ []) s)

length-snoc : (l : Bytes) (c : ℕ) → length (l ++ c ∷ []) ≡ suc (length l)
length-snoc l c = omega (arith, length-append l (c ∷ []))

up-cons : (b c : ℕ) (s : Bytes) (k n : ℕ) → up b (c ∷ s) (suc k) n ≡ Option.map suc (up b s k n)
unfolding up
up-cons b c s k zero = refl
up-cons b c s k (suc n) = ground (arith, up-cons b c s (suc k) n)

up-start :
    (b : ℕ) (m r : Bytes)
    → up b (m ++ r) 0 (length m) ≡ Option.map (λ p. length p.0) (split_first b m)
unfolding up split_first
up-start b [] r = refl
up-start b (c ∷ m) r = ground (arith, up-cons b c (m ++ r) 0 (length m), up-start b m r)

-- Behind l, in the part m.
pub up-split_first :
    (b : ℕ) (l m r : Bytes)
    → up b (l ++ (m ++ r)) (length l) (length m)
      ≡ Option.map (λ p. length l + length p.0) (split_first b m)
up-split_first b [] m r = ground (arith, up-start b m r)
up-split_first b (c ∷ l) m r =
    ground (arith, up-cons b c (l ++ (m ++ r)) (length l) (length m), up-split_first b l m r)

down-cons :
    (b c : ℕ) (s : Bytes) (n : ℕ)
    → down b (c ∷ s) (suc n)
      ≡ elim (down b s n) [ some k ↦ some (suc k) | none ↦ if c == b then some 0 else none ]
unfolding down
down-cons b c s zero = refl
down-cons b c s (suc n) = ground (arith, down-cons b c s n)

pub down-split_last :
    (b : ℕ) (m r : Bytes)
    → down b (m ++ r) (length m) ≡ Option.map (λ p. length p.0) (split_last b m)
unfolding down split_last
down-split_last b [] r = refl
down-split_last b (c ∷ m) r =
    ground (arith, down-cons b c (m ++ r) (length m), down-split_last b m r)

-- What is found stands between the two sides.
abbrev pub Found : ℕ → Bytes → Option (Bytes × Bytes) → Type 0
Found b m o = (o ≡ none) ⊎ ((p : Bytes × Bytes) × (o ≡ some p) × (m ≡ p.0 ++ b ∷ p.1))

pub split_first-Found : (b : ℕ) (m : Bytes) → Found b m (split_first b m)
unfolding split_first
split_first-Found b [] = inl refl
split_first-Found b (c ∷ m) = elim (Bool-cases (c == b)) [
  | inl t ↦ rw t (inr (([], m), refl, ap (λ d. d ∷ m) (ground (arith, t))))
  | inr t ↦ elim (split_first-Found b m) [
    | inl e ↦ rw (t, e) (inl refl)
    | inr (p, e, q) ↦ rw (t, e) (inr ((c ∷ p.0, p.1), refl, ap (λ s. c ∷ s) q))
  ]
]

pub split_last-Found : (b : ℕ) (m : Bytes) → Found b m (split_last b m)
unfolding split_last
split_last-Found b [] = inl refl
split_last-Found b (c ∷ m) = elim (split_last-Found b m) [
  | inr (p, e, q) ↦ rw e (inr ((c ∷ p.0, p.1), refl, ap (λ s. c ∷ s) q))
  | inl e ↦ elim (Bool-cases (c == b)) [
    | inl t ↦ rw (e, t) (inr (([], m), refl, ap (λ d. d ∷ m) (ground (arith, t))))
    | inr t ↦ rw (e, t) (inl refl)
  ]
]
