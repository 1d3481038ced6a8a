-- ===== src/Base/Effects.antt =====
-- What code does in a world that it changes: a value or what it raises, and the world behind it.
use mathlib.Core.Path.{◌≡◌, refl}
use mexican_banking_monitor.Base.Raising.{Result, ok, err}

abbrev pub Action : Type 0 → Type 0 → Type 0 → Type 0
Action E S A = S → Result E A × S

abbrev pub continue : {E S A B : Type 0} → Result E A × S → (A → Action E S B) → Result E B × S
continue (ok a, s) next = next a s
continue (err e, s) next = (err e, s)

infixl 5 ◌>>=◌ ◌>>◌
abbrev pub ◌>>=◌ : {E S A B : Type 0} → Action E S A → (A → Action E S B) → Action E S B
◌>>=◌ action next s = continue (action s) next

abbrev pub ◌>>◌ : {E S B : Type 0} → Action E S (Unit {0}) → Action E S B → Action E S B
◌>>◌ action next s = continue (action s) (λ _. next)

-- A value that needs nothing of the world.
abbrev pub lift : {E S A : Type 0} → Result E A → Action E S A
lift value s = (value, s)

-- The action relates the world before it to the one behind it.
abbrev pub Relates : {E S A : Type 0} → (S → S → Type 0) → Action E S A → Type 0
Relates {S} R action = (s : S) → R s (action s).1

continue-Relates :
    {E S A B : Type 0} (R : S → S → Type 0) (s : S) (step : Result E A × S)
    (next : A → Action E S B)
    → ((x y z : S) → R x y → R y z → R x z)
    → R s step.1
    → ((a : A) → Relates R (next a))
    → R s (continue step next).1
continue-Relates R s (ok a, s') next trans first then_ = trans s s' (next a s').1 first (then_ a s')
continue-Relates R s (err e, s') next trans first then_ = first

-- A chain relates worlds by a transitive relation, if its steps do.
pub >>=-Relates :
    {E S A B : Type 0} (R : S → S → Type 0) (action : Action E S A) (next : A → Action E S B)
    → ((x y z : S) → R x y → R y z → R x z)
    → Relates R action
    → ((a : A) → Relates R (next a))
    → Relates R (action >>= next)
>>=-Relates R action next trans first then_ s =
    continue-Relates R s (action s) next trans (first s) then_

continue-ok :
    {E S A B : Type 0} (step : Result E A × S) (next : A → Action E S B) {b : B} {s'' : S}
    → continue step next ≡ (ok b, s'')
    → (a : A) × (s' : S) × (step ≡ (ok a, s')) × (next a s' ≡ (ok b, s''))
continue-ok (ok a, s') next h = (a, s', refl, h)
continue-ok (err e, s') next h = cc h

-- A chain that gives a value has a first step that does, and a rest that does.
pub >>=-ok :
    {E S A B : Type 0} (action : Action E S A) (next : A → Action E S B) (s : S) {b : B} {s'' : S}
    → (action >>= next) s ≡ (ok b, s'')
    → (a : A) × (s' : S) × (action s ≡ (ok a, s')) × (next a s' ≡ (ok b, s''))
>>=-ok action next s h = continue-ok (action s) next h

-- A first step that needs nothing of the world leaves it as it is.
pub lift-eq-ok :
    {E S A B : Type 0} (value : Result E A) (next : A → Action E S B) (s : S) {b : B} {s'' : S}
    → (lift value >>= next) s ≡ (ok b, s'')
    → (a : A) × (value ≡ ok a) × (next a s ≡ (ok b, s''))
lift-eq-ok (ok a) next s h = (a, refl, h)
lift-eq-ok (err e) next s h = cc h
