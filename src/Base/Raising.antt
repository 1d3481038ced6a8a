-- ===== src/Base/Raising.antt =====
-- Code that may raise: a value, or the exception's class.
use mathlib.Core.Path.{◌≡◌, refl}
use mathlib.Core.Logic.{◌⊎◌, inl, inr}
use mathlib.Core.Bool.{Bool, true, false}

pub data Result (E A : Type 0) : Type 0 where
  ok : A → Result E A
  err : E → Result E A

infixl 5 ◌>>=◌ ◌>>◌
abbrev pub ◌>>=◌ : {E A B : Type 0} → Result E A → (A → Result E B) → Result E B
err raised >>= next = err raised
ok value >>= next = next value

abbrev pub ◌>>◌ : {E B : Type 0} → Result E (Unit {0}) → Result E B → Result E B
check >> rest = check >>= λ _. rest

-- `if not condition: raise error`
abbrev pub require : {E : Type 0} → Bool → E → Result E (Unit {0})
require false error = err error
require true error = ok tt

-- A chain that gives a value has a first step that does, and a rest that does.
pub >>=-eq-ok :
    {E A B : Type 0} (first : Result E A) (next : A → Result E B) {value : B}
    → (first >>= next) ≡ ok value
    → (a : A) × (first ≡ ok a) × (next a ≡ ok value)
>>=-eq-ok (err raised) next given = cc
>>=-eq-ok (ok a) next given = (a, refl, given)

pub >>-eq-ok :
    {E B : Type 0} (check : Result E (Unit {0})) (rest : Result E B) {value : B}
    → (check >> rest) ≡ ok value
    → (check ≡ ok tt) × (rest ≡ ok value)
>>-eq-ok (err raised) rest given = cc
>>-eq-ok (ok tt) rest given = (refl, given)

pub require-eq-ok : {E : Type 0} (c : Bool) (e : E) → require c e ≡ ok tt → c ≡ true
require-eq-ok true e h = refl
require-eq-ok false e h = cc

-- A chain that raises does so at its first step or after it.
pub >>=-eq-err :
    {E A B : Type 0} (m : Result E A) (f : A → Result E B) {e : E}
    → (m >>= f) ≡ err e
    → (m ≡ err e) ⊎ ((a : A) × (m ≡ ok a) × (f a ≡ err e))
>>=-eq-err (ok a) f h = inr (a, refl, h)
>>=-eq-err (err x) f h = inl (cc h)

pub require-eq-err : {E : Type 0} (c : Bool) (x e : E) → require c x ≡ err e → e ≡ x
require-eq-err true x e h = cc
require-eq-err false x e h = cc h
