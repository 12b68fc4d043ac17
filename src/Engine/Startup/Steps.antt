-- ===== src/Engine/Startup/Steps.antt =====
-- A sequence of functions of the start, each known by what it needs and what it makes of the engine.
use juno_agent.Base.{
  Bool-cases, inl, inr, none, some, Bool, true, false, ◌&&◌, List, [], ◌∷◌, if◌then◌else◌, ◌≡◌,
  refl, ap, ◌∙◌,
}
use juno_agent.Engine.Startup.{Outcome, done, error, panic, next, Startup, unless_panic}

-- One function after the other.
unfoldable pub in_turn : {A : Type 0} → List (A → Outcome A) → A → Outcome A
unfolding next
in_turn [] e = done e
in_turn (f ∷ fs) e = next (f e) (in_turn fs)

next-ext :
    {A : Type 0} (o : Outcome A) {f g : A → Outcome A} → ((e : A) → f e ≡ g e) → next o f ≡ next o g
unfolding next
next-ext (done e) h = h e
next-ext error h = refl
next-ext panic h = refl

pub startup-in_turn :
    {A : Type 0} (S : Startup A) (fs : List (A → Outcome A)) (e : A) → S.startup fs e ≡ in_turn fs e
unfolding in_turn next
startup-in_turn S [] e = S.startup-nil e
startup-in_turn S (f ∷ fs) e = S.startup-cons f fs e ∙ next-ext (f e) (startup-in_turn S fs)

-- A function of the start by what it needs and what it makes of the engine.
pub record Step (A : Type 0) : Type 0 where
  pub run : A → Outcome A
  pub needs : Bool
  pub makes : A → A
  pub runs : (e : A) → unless_panic (run e) ≡ (if needs then some (makes e) else none)

abbrev pub all_run : {A : Type 0} → List (Step A) → List (A → Outcome A)
all_run [] = []
all_run (s ∷ ss) = s.run ∷ all_run ss

abbrev pub all_need : {A : Type 0} → List (Step A) → List Bool
all_need [] = []
all_need (s ∷ ss) = s.needs ∷ all_need ss

abbrev pub all_make : {A : Type 0} → List (Step A) → A → A
all_make [] e = e
all_make (s ∷ ss) e = all_make ss (s.makes e)

abbrev pub all_of : List Bool → Bool
all_of [] = true
all_of (b ∷ bs) = b && all_of bs

unless_panic-next :
    {A : Type 0} (o : Outcome A) (f : A → Outcome A) (b : Bool) (d : A)
    → unless_panic o ≡ (if b then some d else none)
    → unless_panic (next o f) ≡ (if b then unless_panic (f d) else none)
unfolding unless_panic next
unless_panic-next (done e) f true d h = ap (λ t. unless_panic (f t)) (cc h)
unless_panic-next (done e) f false d h = cc h
unless_panic-next error f true d h = cc h
unless_panic-next error f false d h = refl
unless_panic-next panic f true d h = cc h
unless_panic-next panic f false d h = refl

pub in_turn-steps :
    {A : Type 0} (ss : List (Step A)) (e : A)
    → unless_panic (in_turn (all_run ss) e)
      ≡ (if all_of (all_need ss) then some (all_make ss e) else none)
unfolding in_turn unless_panic
in_turn-steps [] e = refl
in_turn-steps (s ∷ ss) e = elim (Bool-cases s.needs) [
  | inl t ↦
      unless_panic-next (s.run e) (in_turn (all_run ss)) s.needs (s.makes e) (s.runs e)
      ∙ rw t (in_turn-steps ss (s.makes e))
  | inr t ↦
      unless_panic-next (s.run e) (in_turn (all_run ss)) s.needs (s.makes e) (s.runs e) ∙ rw t refl
]
