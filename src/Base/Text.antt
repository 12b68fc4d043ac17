-- ===== src/Base/Text.antt =====
-- Texts as lists of bytes, and what the program uses of Go's `strings` package on them. White space
-- and letters are those of ASCII.
use Prim.Native.Nat.{ℕ, suc, ◌+◌}
use Prim.Native.Char.{code}
use Prim.Native.String.{String}
use mathlib.Core.Path.{◌≡◌, refl, ap, ◌∙◌}
use mathlib.Core.Logic.{◌↔◌, ◌≢◌, inl, inr}
use mathlib.Core.Bool.{Bool, true, false, ◌&&◌, ◌||◌}
use mathlib.Core.Option
use mathlib.Core.Option.{Option, none, some}
use mathlib.Core.List.{List, [], ◌∷◌, ◌++◌, map, reverse}
use native.Mathlib.Omega.{arith}
use juno_agent.Base.Tests.{leb, ◌==◌, if◌then◌else◌, Bool-cases}
use juno_agent.Base.Lists.{All}

abbrev pub Bytes : Type 0
Bytes = List ℕ

-- The bytes of an ASCII literal.
abbrev pub codes : String → Bytes
codes String.[] = []
codes (String.◌∷◌ c s) = code c ∷ codes s

unfoldable pub text_eq : Bytes → Bytes → Bool
text_eq [] [] = true
text_eq [] (d ∷ t) = false
text_eq (c ∷ s) [] = false
text_eq (c ∷ s) (d ∷ t) = (c == d) && text_eq s t

pub text_eq_iff : (s t : Bytes) → (text_eq s t ≡ true) ↔ (s ≡ t)
unfolding text_eq
text_eq_iff [] [] = (λ _. refl, λ _. refl)
text_eq_iff [] (d ∷ t) = (λ h. cc, λ h. cc)
text_eq_iff (c ∷ s) [] = (λ h. cc, λ h. cc)
text_eq_iff (c ∷ s) (d ∷ t) = ground (arith, text_eq_iff s t)

pub text_eq_refl : (s : Bytes) → text_eq s s ≡ true
text_eq_refl s = (text_eq_iff s s).1 refl

abbrev pub is_empty : Bytes → Bool
is_empty [] = true
is_empty (c ∷ s) = false

-- strings.HasPrefix
unfoldable pub has_prefix : Bytes → Bytes → Bool
has_prefix s [] = true
has_prefix [] (d ∷ p) = false
has_prefix (c ∷ s) (d ∷ p) = (c == d) && has_prefix s p

-- strings.HasSuffix
unfoldable pub has_suffix : Bytes → Bytes → Bool
unfolding has_prefix
has_suffix s p = has_prefix (reverse s) (reverse p)

-- strings.Index of one byte; `none` stands for -1.
unfoldable pub index_byte : ℕ → Bytes → Option ℕ
index_byte b [] = none
index_byte b (c ∷ s) = if c == b then some 0 else Option.map suc (index_byte b s)

-- strings.Split by one byte: the parts between the separators, one more than there are separators.
abbrev pub push : ℕ → List Bytes → List Bytes
push c [] = (c ∷ []) ∷ []
push c (p ∷ ps) = (c ∷ p) ∷ ps

unfoldable pub split : ℕ → Bytes → List Bytes
split b [] = [] ∷ []
split b (c ∷ s) = let rest = split b s in if c == b then [] ∷ rest else push c rest

abbrev pub keep_full : List Bytes → List Bytes
keep_full [] = []
keep_full ([] ∷ ps) = keep_full ps
keep_full ((c ∷ p) ∷ ps) = (c ∷ p) ∷ keep_full ps

-- strings.FieldsFunc for one separator byte: the parts that are not empty.
unfoldable pub fields_by : ℕ → Bytes → List Bytes
unfolding split
fields_by b s = keep_full (split b s)

abbrev pub is_space : ℕ → Bool
is_space c = c == 32 || (leb 9 c && leb c 13)

-- strings.Fields
abbrev blank : ℕ → ℕ
blank c = if is_space c then 32 else c

unfoldable pub fields : Bytes → List Bytes
unfolding fields_by
fields s = fields_by 32 (map blank s)

-- strings.TrimLeft and TrimRight drop the bytes that a set holds from one end.
unfoldable pub trim_left : (ℕ → Bool) → Bytes → Bytes
trim_left p [] = []
trim_left p (c ∷ s) = if p c then trim_left p s else c ∷ s

unfoldable pub trim_right : (ℕ → Bool) → Bytes → Bytes
unfolding trim_left
trim_right p s = reverse (trim_left p (reverse s))

-- strings.TrimSpace
unfoldable pub trim_space : Bytes → Bytes
unfolding trim_left trim_right
trim_space s = trim_right is_space (trim_left is_space s)

-- Whether a byte stands in a text, strings.Contains for one byte.
unfoldable pub contains_byte : ℕ → Bytes → Bool
contains_byte b [] = false
contains_byte b (c ∷ s) = c == b || contains_byte b s

-- strings.ToLower
abbrev pub to_lower : Bytes → Bytes
to_lower = map (λ c. if leb b'A' c && leb c b'Z' then c + 32 else c)

-- strings.Join with a separator text
unfoldable pub join : Bytes → List Bytes → Bytes
join sep [] = []
join sep (p ∷ []) = p
join sep (p ∷ q ∷ ps) = p ++ (sep ++ join sep (q ∷ ps))

abbrev pub Lacks : ℕ → Bytes → Type 0
Lacks b = All (λ c. c ≢ b)

split-Lacks : (b : ℕ) (p : Bytes) → Lacks b p → split b p ≡ p ∷ []
unfolding split
split-Lacks b [] h = refl
split-Lacks b (c ∷ p) h = ground (arith, split-Lacks b p h.1)

-- A part without the separator is split off.
pub split-append : (b : ℕ) (p s : Bytes) → Lacks b p → split b (p ++ b ∷ s) ≡ p ∷ split b s
unfolding split
split-append b [] s h = ground arith
split-append b (c ∷ p) s h = ground (arith, split-append b p s h.1)

-- Splitting what was joined by one byte gives the parts back.
pub split-join :
    (b : ℕ) (p : Bytes) (ps : List Bytes)
    → All (Lacks b) (p ∷ ps)
    → split b (join (b ∷ []) (p ∷ ps)) ≡ p ∷ ps
unfolding join
split-join b p [] h = split-Lacks b p h.0
split-join b p (q ∷ ps) h =
    split-append b p (join (b ∷ []) (q ∷ ps)) h.0 ∙ ap (λ t. p ∷ t) (split-join b q ps h.1)

-- A split has at least one part.
pub split-cons : (b : ℕ) (s : Bytes) → (p : Bytes) × (ps : List Bytes) × (split b s ≡ p ∷ ps)
unfolding split
split-cons b [] = ([], [], refl)
split-cons b (c ∷ s) =
    let (p, ps, e) = split-cons b s in
    elim (Bool-cases (c == b)) [ inl h ↦ ([], p ∷ ps, rw (h, e)) | inr h ↦ (c ∷ p, ps, rw (h, e)) ]
