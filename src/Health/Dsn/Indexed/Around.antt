-- ===== src/Health/Dsn/Indexed/Around.antt =====
-- What the loops find, and what the slices around it are.
use mathlib.Core.Option
use juno_agent.Base.{
  ℕ, suc, ◌+◌, ◌≡◌, refl, ap, ◌∙◌, false, [], ◌∷◌, ◌++◌, ◌==◌, length, length-append, append_assoc,
  arith,
}
use juno_agent.Base.Text.{Bytes}
use juno_agent.Health.Dsn.{split_first, split_last}
use juno_agent.Health.Dsn.Indexed.{byte_at, slice, down, up}
use juno_agent.Health.Dsn.Indexed.Loops.{
  byte_at-append, slice-append, up-split_first, down-split_last,
}

pub byte_of :
    (s l : Bytes) (c : ℕ) (r : Bytes) (i : ℕ) → s ≡ l ++ c ∷ r → i ≡ length l → byte_at s i ≡ c
byte_of s l c r i h p = rw (h, p) (byte_at-append l c r)

pub slice_of :
    (s l m r : Bytes) (i j : ℕ)
    → s ≡ l ++ (m ++ r)
    → i ≡ length l
    → j ≡ length l + length m
    → slice s i j ≡ m
slice_of s l m r i j h p q = rw h (slice-append l m r i j p q)

pub up_of :
    (b : ℕ) (s l m r : Bytes) (k n : ℕ)
    → s ≡ l ++ (m ++ r)
    → k ≡ length l
    → n ≡ length m
    → up b s k n ≡ Option.map (λ p. length l + length p.0) (split_first b m)
up_of b s l m r k n h p q = rw (h, p, q) (up-split_first b l m r)

-- Where a part is found to hold a byte, the text around its two sides.
pub before_found :
    (s l m r p : Bytes) (b : ℕ) (q : Bytes)
    → s ≡ l ++ (m ++ r)
    → m ≡ p ++ b ∷ q
    → s ≡ l ++ (p ++ (b ∷ q ++ r))
before_found s l m r p b q h e = h ∙ ap (λ t. l ++ t) (rw e (append_assoc p (b ∷ q) r))

pub after_found :
    (s l m r p : Bytes) (b : ℕ) (q : Bytes)
    → s ≡ l ++ (m ++ r)
    → m ≡ p ++ b ∷ q
    → s ≡ (l ++ (p ++ b ∷ [])) ++ (q ++ r)
after_found s l m r p b q h e = before_found s l m r p b q h e ∙ simp append_assoc

pub length-found : (l p : Bytes) (b : ℕ) → length (l ++ (p ++ b ∷ [])) ≡ suc (length l + length p)
length-found l p b = omega (arith, length-append l (p ++ b ∷ []), length-append p (b ∷ []))

pub down_of :
    (b : ℕ) (s l r : Bytes)
    → s ≡ l ++ r
    → down b s (length l) ≡ Option.map (λ p. length p.0) (split_last b l)
down_of b s l r h = rw h (down-split_last b l r)

pub down-skip :
    (b : ℕ) (s : Bytes) (i : ℕ) → (byte_at s i == b) ≡ false → down b s (suc i) ≡ down b s i
unfolding down
down-skip b s i h = rw h refl
