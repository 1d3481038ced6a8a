-- ===== src/Config/Pairs.antt =====
-- The nested loops that compare each item with the later ones
-- (`for index, item in enumerate(items): for other in items[index + 1 :]` in
-- src/mx_bank_monitor/config/models.py).
use mexican_banking_monitor.Base.{
  ◌≡◌, inl, inr, Option, none, some, List, [], ◌∷◌, All, Result, ok, err, ◌>>◌, >>-eq-ok,
  Option-cases,
}

module _ {A E : Type 0} (conflict : A → A → Option E) where
  unfoldable pub require_no_later : A → List A → Result E (Unit {0})
  require_no_later item [] = ok tt
  require_no_later item (other ∷ others) = elim (conflict item other) [
    | none ↦ require_no_later item others
    | some e ↦ err e
  ]

  unfoldable pub require_no_conflict : List A → Result E (Unit {0})
  unfolding require_no_later
  require_no_conflict [] = ok tt
  require_no_conflict (item ∷ items) = require_no_later item items >> require_no_conflict items

  require_no_later-All :
      (item : A) (others : List A)
      → require_no_later item others ≡ ok tt
      → All (λ other. conflict item other ≡ none) others
  unfolding require_no_later
  require_no_later-All item [] h = tt
  require_no_later-All item (other ∷ others) h = elim (Option-cases (conflict item other)) [
    | inl e ↦ (e, require_no_later-All item others (rw (require_no_later, e) at h))
    | inr (x, e) ↦ cc (rw (require_no_later, e) at h)
  ]

-- Each item is so related to the later ones.
abbrev pub AllPairs : {A : Type 0} → (A → A → Type 0) → List A → Type 0
AllPairs R [] = Unit
AllPairs R (item ∷ items) = All (R item) items × AllPairs R items

-- Without an error, no two items are in conflict.
pub require_no_conflict-AllPairs :
    {A E : Type 0} (conflict : A → A → Option E) (items : List A)
    → require_no_conflict conflict items ≡ ok tt
    → AllPairs (λ item other. conflict item other ≡ none) items
unfolding require_no_conflict
require_no_conflict-AllPairs conflict [] h = tt
require_no_conflict-AllPairs conflict (item ∷ items) h =
    let (here, k) =
      >>-eq-ok (require_no_later conflict item items) (require_no_conflict conflict items) h in
    (require_no_later-All conflict item items here, require_no_conflict-AllPairs conflict items k)

pub AllPairs-map :
    {A : Type 0} (P Q : A → A → Type 0) (f : (a b : A) → P a b → Q a b) (items : List A)
    → AllPairs P items
    → AllPairs Q items
AllPairs-map P Q f [] h = tt
AllPairs-map P Q f (item ∷ items) h = (each items h.0, AllPairs-map P Q f items h.1)
  where
    each : (others : List _) → All (P item) others → All (Q item) others
    each [] g = tt
    each (o ∷ others) g = (f item o g.0, each others g.1)
