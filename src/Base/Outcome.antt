-- ===== src/Base/Outcome.antt =====
-- What a call may do: return, return an error, panic, or loop for ever.
use mathlib.Core.Path.{◌≡◌, refl}
use mathlib.Core.Option.{Option, none, some}

pub data Outcome {ℓ} (E A : Type ℓ) : Type ℓ where
  ok : A → Outcome E A
  err : E → Outcome E A
  panics : Outcome E A
  hangs : Outcome E A

infixl 5 ◌>>=◌
abbrev pub ◌>>=◌ {ℓ} : {E A B : Type ℓ} → Outcome E A → (A → Outcome E B) → Outcome E B
hangs >>= go = hangs
panics >>= go = panics
err why >>= go = err why
ok v >>= go = go v

-- The call returns, with a value or with an error.
abbrev pub Returns {ℓ} : {E A : Type ℓ} → Outcome E A → Type 0
Returns (ok a) = Unit
Returns (err e) = Unit
Returns panics = ⊥
Returns hangs = ⊥

abbrev pub or_error {ℓ} : {E A : Type ℓ} → E → Option A → Outcome E A
or_error e none = err e
or_error e (some a) = ok a

abbrev pub or_hang {ℓ} : {E A : Type ℓ} → Option A → Outcome E A
or_hang none = hangs
or_hang (some a) = ok a

pub Returns-bind {ℓ} :
    {E A B : Type ℓ} (m : Outcome E A) (f : A → Outcome E B)
    → Returns m
    → ((a : A) → m ≡ ok a → Returns (f a))
    → Returns (m >>= f)
Returns-bind (ok a) f h k = k a refl
Returns-bind (err e) f h k = tt
Returns-bind panics f h k = h
Returns-bind hangs f h k = h

-- Inversion of a bind that returned a value.
pub >>=-eq-ok {ℓ} :
    {E V W : Type ℓ} (call : Outcome E V) (go : V → Outcome E W) {w : W}
    → (call >>= go) ≡ ok w
    → (v : V) × (call ≡ ok v) × (go v ≡ ok w)
>>=-eq-ok hangs go e = cc
>>=-eq-ok panics go e = cc
>>=-eq-ok (err why) go e = cc
>>=-eq-ok (ok v) go e = (v, refl, e)
