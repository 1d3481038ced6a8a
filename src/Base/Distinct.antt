-- ===== src/Base/Distinct.antt =====
-- Lists of texts as sets: membership, lists without repetition, and counting by inclusion.
use Prim.Native.Nat.{suc, ◌+◌, ◌≤◌}
use mathlib.Core.Path.{◌≡◌, refl, sym, subst}
use mathlib.Core.Logic.{◌⊎◌, inl, inr, ◌≢◌}
use mathlib.Core.Bool.{true, false}
use mathlib.Core.List.{List, [], ◌∷◌}
use native.Mathlib.Omega.{arith}
use mexican_banking_monitor.Base.Tests.{if◌then◌else◌, Bool-cases}
use mexican_banking_monitor.Base.Lists.{length}
use mexican_banking_monitor.Base.Texts.{
  Text, text_eq, text_eq→, text_eq_refl, text_eq_iff, contains,
}

-- No text stands twice.
abbrev pub IsDistinct : List Text → Type 0
IsDistinct [] = Unit
IsDistinct (x ∷ xs) = (contains x xs ≡ false) × IsDistinct xs

-- Every text of the first list is in the second.
abbrev pub Within : List Text → List Text → Type 0
Within xs ys = (a : Text) → contains a xs ≡ true → contains a ys ≡ true

pub contains-nil : (a : Text) → contains a [] ≡ false
unfolding contains
contains-nil a = refl

pub contains-head : (a : Text) (xs : List Text) → contains a (a ∷ xs) ≡ true
unfolding contains
contains-head a xs = rw (text_eq_refl a)

pub contains-tail :
    (a x : Text) (xs : List Text) → contains a xs ≡ true → contains a (x ∷ xs) ≡ true
unfolding contains
contains-tail a x xs h = ground arith

pub contains-cons :
    (a x : Text) (xs : List Text) → contains a (x ∷ xs) ≡ true → (a ≡ x) ⊎ (contains a xs ≡ true)
unfolding contains
contains-cons a x xs h = elim (Bool-cases (text_eq a x)) [
  | inl e ↦ inl (text_eq→ a x e)
  | inr e ↦ inr (rw e at h)
]

pub contains-cons_ne : (a x : Text) (xs : List Text) → a ≢ x → contains a (x ∷ xs) ≡ contains a xs
unfolding contains
contains-cons_ne a x xs h = ground (arith, text_eq→ a x)

-- The list without the first place of `a`.
remove : Text → List Text → List Text
remove a [] = []
remove a (x ∷ xs) = if text_eq a x then xs else x ∷ remove a xs

length-remove :
    (a : Text) (xs : List Text) → contains a xs ≡ true → suc (length (remove a xs)) ≡ length xs
unfolding remove contains
length-remove a [] h = cc
length-remove a (x ∷ xs) h = ground (arith, length-remove a xs)

contains-remove :
    (a b : Text) (xs : List Text) → a ≢ b → contains a xs ≡ true → contains a (remove b xs) ≡ true
unfolding remove contains
contains-remove a b [] ne h = cc
contains-remove a b (x ∷ xs) ne h =
    ground (arith, contains-remove a b xs ne, text_eq_iff b x, text_eq_iff a x)

pub ne_of_distinct :
    (a x : Text) (xs : List Text) → contains x xs ≡ false → contains a xs ≡ true → a ≢ x
ne_of_distinct a x xs h k e = cc (e, h, k)

pub Within-cons :
    (a : Text) (xs ys : List Text) → Within xs ys → contains a ys ≡ true → Within (a ∷ xs) ys
Within-cons a xs ys w h b k = elim (contains-cons b a xs k) [
  | inl p ↦ subst (λ t. contains t ys ≡ true) (sym p) h
  | inr q ↦ w b q
]

-- A list without repetition is no longer than a list that holds all of it.
pub length-le_of_Within : (xs ys : List Text) → IsDistinct xs → Within xs ys → length xs ≤ length ys
length-le_of_Within [] ys d w = omega arith
length-le_of_Within (x ∷ xs) ys d w = omega (
  arith,
  length-remove x ys (w x (contains-head x xs)),
  length-le_of_Within xs (remove x ys) d.1
      (λ a h. contains-remove a x ys (ne_of_distinct a x xs d.0 h) (w a (contains-tail a x xs h))),
)

-- If it is not shorter either, it holds all of that list.
pub Within-of_length :
    (xs ys : List Text) → IsDistinct xs → Within xs ys → length ys ≤ length xs → Within ys xs
Within-of_length xs ys d w n a h = elim (Bool-cases (contains a xs)) [
  | inl e ↦ e
  | inr e ↦ absurd (omega (arith, length-le_of_Within (a ∷ xs) ys (e, d) (Within-cons a xs ys w h)))
]

-- The reverse of the first list before the second.
unfoldable pub rev_onto : List Text → List Text → List Text
rev_onto [] acc = acc
rev_onto (x ∷ xs) acc = rev_onto xs (x ∷ acc)

pub length-rev_onto : (xs acc : List Text) → length (rev_onto xs acc) ≡ length xs + length acc
unfolding rev_onto
length-rev_onto [] acc = omega arith
length-rev_onto (x ∷ xs) acc = omega (arith, length-rev_onto xs (x ∷ acc))

pub contains-rev_onto :
    (a : Text) (xs acc : List Text)
    → contains a (rev_onto xs acc) ≡ (if contains a xs then true else contains a acc)
unfolding rev_onto contains
contains-rev_onto a [] acc = refl
contains-rev_onto a (x ∷ xs) acc = ground (arith, contains-rev_onto a xs (x ∷ acc))
