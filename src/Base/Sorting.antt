-- ===== src/Base/Sorting.antt =====
-- `sorted`, `set` and their meeting in `sorted(set(...))`.
use mathlib.Core.Path.{◌≡◌, refl, sym, subst}
use mathlib.Core.Logic.{◌↔◌}
use mathlib.Core.Bool.{Bool, true, false, ◌&&◌}
use mathlib.Core.List.{List, [], ◌∷◌, map}
use native.Mathlib.Omega.{arith}
use mexican_banking_monitor.Base.Tests.{if◌then◌else◌}
use mexican_banking_monitor.Base.Lists.{All}
use mexican_banking_monitor.Base.Texts.{
  Text, text_eq, text_lt, text_eq→, text_eq_refl, text_eq_iff, text_lt_irrefl, text_lt_trans,
  text_lt_asymm, text_lt_total,
}

-- Python's stable sort by the order `lt`: an item goes in before the first that is not less.
module _ {A : Type 0} (lt : A → A → Bool) where
  unfoldable pub insert_by : A → List A → List A
  insert_by x [] = x ∷ []
  insert_by x (y ∷ ys) = if lt y x then y ∷ insert_by x ys else x ∷ y ∷ ys

  unfoldable pub sort_by : List A → List A
  unfolding insert_by
  sort_by [] = []
  sort_by (x ∷ xs) = insert_by x (sort_by xs)

-- tuple(sorted(set(texts)))
unfoldable pub insert_new : Text → List Text → List Text
insert_new x [] = x ∷ []
insert_new x (y ∷ ys) =
    if text_eq x y then y ∷ ys else if text_lt x y then x ∷ y ∷ ys else y ∷ insert_new x ys

unfoldable pub sorted_set : List Text → List Text
unfolding insert_new
sorted_set [] = []
sorted_set (x ∷ xs) = insert_new x (sorted_set xs)

-- a == b on tuples of texts
unfoldable pub texts_eq : List Text → List Text → Bool
texts_eq [] [] = true
texts_eq [] (y ∷ ys) = false
texts_eq (x ∷ xs) [] = false
texts_eq (x ∷ xs) (y ∷ ys) = text_eq x y && texts_eq xs ys

pub texts_eq→ : (a b : List Text) → texts_eq a b ≡ true → a ≡ b
unfolding texts_eq
texts_eq→ [] [] h = refl
texts_eq→ [] (y ∷ ys) h = cc
texts_eq→ (x ∷ xs) [] h = cc
texts_eq→ (x ∷ xs) (y ∷ ys) h = ground (arith, texts_eq→ xs ys, text_eq→ x y)

pub texts_eq_refl : (a : List Text) → texts_eq a a ≡ true
unfolding texts_eq
texts_eq_refl [] = refl
texts_eq_refl (x ∷ xs) = ground (arith, texts_eq_refl xs, text_eq_refl x)

-- `a` comes before each of the texts; each text comes before those after it.
abbrev pub Below : Text → List Text → Type 0
Below a xs = All (λ x. text_lt a x ≡ true) xs

abbrev pub IsStrict : List Text → Type 0
IsStrict [] = Unit
IsStrict (x ∷ xs) = Below x xs × IsStrict xs

pub Below-trans : (a b : Text) (xs : List Text) → text_lt a b ≡ true → Below b xs → Below a xs
Below-trans a b [] p h = tt
Below-trans a b (x ∷ xs) p h = (text_lt_trans a b x p h.0, Below-trans a b xs p h.1)

Below-insert_new :
    (a x : Text) (xs : List Text) → text_lt a x ≡ true → Below a xs → Below a (insert_new x xs)
unfolding insert_new
Below-insert_new a x [] p h = (p, tt)
Below-insert_new a x (y ∷ ys) p h = ground (arith, Below-insert_new a x ys p h.1)

insert_new-IsStrict : (x : Text) (xs : List Text) → IsStrict xs → IsStrict (insert_new x xs)
unfolding insert_new
insert_new-IsStrict x [] h = (tt, tt)
insert_new-IsStrict x (y ∷ ys) h = ground (
  arith,
  Below-trans x y ys,
  insert_new-IsStrict x ys h.1,
  Below-insert_new y x ys,
  text_lt_total x y,
  text_eq_iff x y,
)

pub sorted_set-IsStrict : (xs : List Text) → IsStrict (sorted_set xs)
unfolding sorted_set
sorted_set-IsStrict [] = tt
sorted_set-IsStrict (x ∷ xs) = insert_new-IsStrict x (sorted_set xs) (sorted_set-IsStrict xs)

insert_new-eq-cons : (x : Text) (xs : List Text) → Below x xs → insert_new x xs ≡ x ∷ xs
unfolding insert_new
insert_new-eq-cons x [] h = refl
insert_new-eq-cons x (y ∷ ys) h = ground (arith, text_eq_iff x y, text_lt_irrefl x)

pub sorted_set-eq_of_strict : (xs : List Text) → IsStrict xs → sorted_set xs ≡ xs
unfolding sorted_set
sorted_set-eq_of_strict [] h = refl
sorted_set-eq_of_strict (x ∷ xs) h =
    rw (sorted_set-eq_of_strict xs h.1) (insert_new-eq-cons x xs h.0)

-- `roles == tuple(sorted(set(roles)))` says that the roles stand in strict order.
pub sorted_set_iff : (xs : List Text) → (texts_eq xs (sorted_set xs) ≡ true) ↔ IsStrict xs
sorted_set_iff xs = (
  λ h. subst IsStrict (sym (texts_eq→ xs (sorted_set xs) h)) (sorted_set-IsStrict xs),
  λ h. rw (sorted_set-eq_of_strict xs h) (texts_eq_refl xs),
)

-- A list in strict order by a key is left alone by the sort.
module _ {A : Type 0} (key : A → Text) where
  abbrev pub by_key : A → A → Bool
  by_key x y = text_lt (key x) (key y)

  insert_by-eq-cons :
      (x : A) (xs : List A) → Below (key x) (map key xs) → insert_by by_key x xs ≡ x ∷ xs
  unfolding insert_by
  insert_by-eq-cons x [] h = refl
  insert_by-eq-cons x (y ∷ ys) h = rw (text_lt_asymm (key x) (key y) h.0)

  pub sort_by-eq_of_strict : (xs : List A) → IsStrict (map key xs) → sort_by by_key xs ≡ xs
  unfolding sort_by
  sort_by-eq_of_strict [] h = refl
  sort_by-eq_of_strict (x ∷ xs) h = rw (sort_by-eq_of_strict xs h.1) (insert_by-eq-cons x xs h.0)
