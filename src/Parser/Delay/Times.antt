-- ===== src/Parser/Delay/Times.antt =====
-- A list of whole seconds, sorted by At: Next finds the least time behind the given one.
use juno_agent.Base.{
  ℕ, ◌%◌, ◌≤◌, ◌≡◌, refl, ◌∙◌, ap, Option, none, some, List, [], ◌∷◌, ltb, leb, if◌then◌else◌,
  arith, All, Bool-cases, inl, inr,
}
use juno_agent.Parser.Delay.{one_second, unix, at, next_time, insert_time}

-- The lesser of a time behind `t` and an earlier choice.
choose : ℕ → ℕ → Option ℕ → Option ℕ
choose t u none = if leb u t then none else some u
choose t u (some v) = if leb u t then some v else if ltb v u then some v else some u

-- The least time of a list behind an instant, whatever the order of the list.
pub least_after : List ℕ → ℕ → Option ℕ
least_after [] t = none
least_after (u ∷ us) t = choose t u (least_after us t)

abbrev pub IsWhole : ℕ → Type 0
IsWhole t = t % one_second ≡ 0

abbrev IsSorted : List ℕ → Type 0
IsSorted [] = Unit
IsSorted (t ∷ ts) = All (λ u. t ≤ u) ts × IsSorted ts

All-insert_time : (P : ℕ → Type 0) (u : ℕ) (ts : List ℕ) → P u → All P ts → All P (insert_time u ts)
unfolding insert_time
All-insert_time P u [] pu h = (pu, tt)
All-insert_time P u (t ∷ ts) pu h = elim (Bool-cases (leb (unix u) (unix t))) [
  | inl e ↦ rw e (pu, h)
  | inr e ↦ rw e (h.0, All-insert_time P u ts pu h.1)
]

All-weaken : (u t : ℕ) (ts : List ℕ) → u ≤ t → All (λ v. t ≤ v) ts → All (λ v. u ≤ v) ts
All-weaken u t [] h all = tt
All-weaken u t (v ∷ ts) h all = (omega arith, All-weaken u t ts h all.1)

insert_time-IsSorted :
    (u : ℕ) (ts : List ℕ) → IsWhole u → All IsWhole ts → IsSorted ts → IsSorted (insert_time u ts)
unfolding insert_time
insert_time-IsSorted u [] w ws h = (tt, tt)
insert_time-IsSorted u (t ∷ ts) w ws h = elim (Bool-cases (leb (unix u) (unix t))) [
  | inl e ↦ rw e ((ground arith, All-weaken u t ts (ground arith) h.0), h)
  | inr e ↦
      rw e
        (All-insert_time (λ v. t ≤ v) u ts (ground arith) h.0, insert_time-IsSorted u ts w ws.1 h.1)
]

at-IsWhole : (ts : List ℕ) → All IsWhole ts → All IsWhole (at ts)
unfolding at
at-IsWhole [] h = tt
at-IsWhole (t ∷ ts) h = All-insert_time IsWhole t (at ts) h.0 (at-IsWhole ts h.1)

at-IsSorted : (ts : List ℕ) → All IsWhole ts → IsSorted (at ts)
unfolding at
at-IsSorted [] h = tt
at-IsSorted (t ∷ ts) h = insert_time-IsSorted t (at ts) h.0 (at-IsWhole ts h.1) (at-IsSorted ts h.1)

le-next_time : (u t v : ℕ) (ts : List ℕ) → All (λ w. u ≤ w) ts → next_time ts t ≡ some v → u ≤ v
unfolding next_time
le-next_time u t v [] h e = cc
le-next_time u t v (x ∷ ts) h e = ground (arith, le-next_time u t v ts h.1)

next_time-insert_time :
    (t u : ℕ) (ts : List ℕ)
    → IsWhole u
    → All IsWhole ts
    → IsSorted ts
    → next_time (insert_time u ts) t ≡ choose t u (next_time ts t)
unfolding next_time insert_time choose
next_time-insert_time t u [] w ws h = refl
next_time-insert_time t u (x ∷ ts) w ws h = elim (Bool-cases (leb (unix u) (unix x))) [
  | inl e ↦ rw e (first (next_time ts t) refl (ground arith))
  | inr e ↦ rw e (ground (arith, next_time-insert_time t u ts w ws.1 h.1))
]
  where
    first :
        (o : Option ℕ)
        → next_time ts t ≡ o
        → u ≤ x
        → (if leb u t then if leb x t then next_time ts t else some x else some u)
          ≡ choose t u (if leb x t then next_time ts t else some x)
    first none e le = ground arith
    first (some v) e le = ground (arith, le-next_time x t v ts h.0)

-- Of times that are whole seconds, Next returns the least one behind the given time, or the zero time
-- if none is.
pub next_time-at : (ts : List ℕ) (t : ℕ) → All IsWhole ts → next_time (at ts) t ≡ least_after ts t
unfolding least_after at
next_time-at [] t h = unfold next_time in refl
next_time-at (u ∷ ts) t h =
    next_time-insert_time t u (at ts) h.0 (at-IsWhole ts h.1) (at-IsSorted ts h.1)
    ∙ ap (choose t u) (next_time-at ts t h.1)
