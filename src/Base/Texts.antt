-- ===== src/Base/Texts.antt =====
-- Text as the list of its code points, with Python's comparisons of whole texts.
use Prim.Native.Nat.{ℕ}
use Prim.Native.Char.{code}
use Prim.Native.String.{String}
use mathlib.Core.Path.{◌≡◌, refl}
use mathlib.Core.Logic.{◌↔◌}
use mathlib.Core.Bool.{Bool, true, false, ◌&&◌}
use mathlib.Core.Option.{Option, none, some}
use mathlib.Core.List.{List, [], ◌∷◌}
use native.Mathlib.Omega.{arith}
use mexican_banking_monitor.Base.Tests.{ltb, ◌==◌, if◌then◌else◌}

abbrev pub Text : Type 0
Text = List ℕ

-- The code points of a literal.
abbrev pub codes : String → Text
codes String.[] = []
codes (String.◌∷◌ c s) = code c ∷ codes s

-- a == b
unfoldable pub text_eq : Text → Text → Bool
text_eq [] [] = true
text_eq [] (y ∷ ys) = false
text_eq (x ∷ xs) [] = false
text_eq (x ∷ xs) (y ∷ ys) = (x == y) && text_eq xs ys

-- a < b: the first code point that differs decides
unfoldable pub text_lt : Text → Text → Bool
text_lt xs [] = false
text_lt [] (y ∷ ys) = true
text_lt (x ∷ xs) (y ∷ ys) = if x == y then text_lt xs ys else ltb x y

pub text_eq→ : (a b : Text) → text_eq a b ≡ true → a ≡ b
unfolding text_eq
text_eq→ [] [] h = refl
text_eq→ [] (y ∷ ys) h = cc
text_eq→ (x ∷ xs) [] h = cc
text_eq→ (x ∷ xs) (y ∷ ys) h = ground (arith, text_eq→ xs ys)

pub text_eq_refl : (a : Text) → text_eq a a ≡ true
unfolding text_eq
text_eq_refl [] = refl
text_eq_refl (x ∷ xs) = ground (arith, text_eq_refl xs)

pub text_eq_iff : (a b : Text) → (text_eq a b ≡ true) ↔ (a ≡ b)
text_eq_iff a b = (text_eq→ a b, λ e. ground (arith, text_eq_refl a))

pub text_lt_irrefl : (a : Text) → text_lt a a ≡ false
unfolding text_lt
text_lt_irrefl [] = refl
text_lt_irrefl (x ∷ xs) = ground (arith, text_lt_irrefl xs)

pub text_lt_trans : (a b c : Text) → text_lt a b ≡ true → text_lt b c ≡ true → text_lt a c ≡ true
unfolding text_lt
text_lt_trans a b [] p q = cc
text_lt_trans a [] (z ∷ c) p q = ground arith
text_lt_trans [] (y ∷ b) (z ∷ c) p q = refl
text_lt_trans (x ∷ a) (y ∷ b) (z ∷ c) p q = ground (arith, text_lt_trans a b c)

pub text_lt_asymm : (a b : Text) → text_lt a b ≡ true → text_lt b a ≡ false
unfolding text_lt
text_lt_asymm a [] p = ground arith
text_lt_asymm [] (y ∷ b) p = refl
text_lt_asymm (x ∷ a) (y ∷ b) p = ground (arith, text_lt_asymm a b)

-- Two texts neither of which comes first are one.
pub text_lt_total : (a b : Text) → text_lt a b ≡ false → text_lt b a ≡ false → a ≡ b
unfolding text_lt
text_lt_total [] [] p q = refl
text_lt_total (x ∷ a) [] p q = cc
text_lt_total [] (y ∷ b) p q = cc
text_lt_total (x ∷ a) (y ∷ b) p q = ground (arith, text_lt_total a b)

-- Membership of texts, and the texts of an association list.
unfoldable pub contains : Text → List Text → Bool
contains a [] = false
contains a (x ∷ xs) = if text_eq a x then true else contains a xs

module _ {V : Type 0} where
  unfoldable pub lookup : Text → List (Text × V) → Option V
  lookup k [] = none
  lookup k ((j, v) ∷ m) = if text_eq k j then some v else lookup k m
