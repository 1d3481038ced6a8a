-- ===== src/Config/Unique.antt =====
-- The search for a repeated value (`_duplicate` and `_require_unique` in
-- src/mx_bank_monitor/config/models.py).
use mexican_banking_monitor.Base.{
  ◌≡◌, refl, subst, ap, inl, inr, ◌⊎◌, ◌↔◌, true, false, Option, none, some, List, [], ◌∷◌, ◌++◌,
  Text, text_eq, text_eq→, contains, Result, ok, err, if◌then◌else◌, Bool-cases, Option-cases,
}
use mexican_banking_monitor.Base.Distinct.{
  IsDistinct, contains-nil, contains-cons, contains-head, contains-tail,
}

-- The loop, with the values seen before.
unfoldable pub duplicate_after : List Text → List Text → Option Text
duplicate_after seen [] = none
duplicate_after seen (value ∷ values) =
    let further = duplicate_after (value ∷ seen) values in
    if contains value seen then some value else further

unfoldable pub duplicate : List Text → Option Text
unfolding duplicate_after
duplicate values = duplicate_after [] values

-- `label` and the repeated value stand in the error.
unfoldable pub require_unique : {E : Type 0} → (Text → E) → List Text → Result E (Unit {0})
unfolding duplicate
require_unique error values = elim (duplicate values) [
  | none ↦ ok tt
  | some value ↦ err (error value)
]

-- No value of the list was seen before, and none stands twice.
abbrev IsFresh : List Text → List Text → Type 0
IsFresh seen [] = Unit
IsFresh seen (v ∷ vs) = (contains v seen ≡ false) × IsFresh (v ∷ seen) vs

duplicate_after-none :
    (seen values : List Text) → duplicate_after seen values ≡ none → IsFresh seen values
unfolding duplicate_after
duplicate_after-none seen [] h = tt
duplicate_after-none seen (v ∷ vs) h = elim (Bool-cases (contains v seen)) [
  | inl e ↦ cc (rw e at h)
  | inr e ↦ (e, duplicate_after-none (v ∷ seen) vs (rw e at h))
]

IsFresh-duplicate_after :
    (seen values : List Text) → IsFresh seen values → duplicate_after seen values ≡ none
unfolding duplicate_after
IsFresh-duplicate_after seen [] f = refl
IsFresh-duplicate_after seen (v ∷ vs) f = rw f.0 (IsFresh-duplicate_after (v ∷ seen) vs f.1)

-- What is fresh after more was seen, was fresh before; and the later values are not among the seen.
fresh_absent :
    (a : Text) (seen values : List Text)
    → IsFresh seen values
    → contains a seen ≡ true
    → contains a values ≡ false
unfolding contains
fresh_absent a seen [] f h = refl
fresh_absent a seen (v ∷ vs) f h = elim (Bool-cases (text_eq a v)) [
  | inl e ↦ cc (text_eq→ a v e, f.0, h)
  | inr e ↦ rw e (fresh_absent a (v ∷ seen) vs f.1 (contains-tail a v seen h))
]

IsFresh-IsDistinct : (seen values : List Text) → IsFresh seen values → IsDistinct values
IsFresh-IsDistinct seen [] f = tt
IsFresh-IsDistinct seen (v ∷ vs) f =
    (fresh_absent v (v ∷ seen) vs f.1 (contains-head v seen), IsFresh-IsDistinct (v ∷ seen) vs f.1)

-- The values seen are disjoint from a list without repetition: it is fresh.
IsDistinct-IsFresh :
    (seen values : List Text)
    → ((a : Text) → contains a values ≡ true → contains a seen ≡ false)
    → IsDistinct values
    → IsFresh seen values
IsDistinct-IsFresh seen [] apart d = tt
IsDistinct-IsFresh seen (v ∷ vs) apart d = (
  apart v (contains-head v vs),
  IsDistinct-IsFresh (v ∷ seen) vs (λ a h. still a h (Bool-cases (contains a (v ∷ seen)))) d.1,
)
  where
    still :
        (a : Text)
        → contains a vs ≡ true
        → (contains a (v ∷ seen) ≡ true) ⊎ (contains a (v ∷ seen) ≡ false)
        → contains a (v ∷ seen) ≡ false
    still a h (inr e) = e
    still a h (inl e) = elim (contains-cons a v seen e) [
      | inl same ↦ cc (d.0, h, same)
      | inr in_seen ↦ cc (in_seen, apart a (contains-tail a v vs h))
    ]

-- `_duplicate` finds nothing exactly in the lists without a repeated value.
pub duplicate_iff : (values : List Text) → (duplicate values ≡ none) ↔ IsDistinct values
unfolding duplicate
duplicate_iff values = (
  λ h. IsFresh-IsDistinct [] values (duplicate_after-none [] values h),
  λ d. IsFresh-duplicate_after [] values (IsDistinct-IsFresh [] values (λ a h. contains-nil a) d),
)

pub require_unique-IsDistinct :
    {E : Type 0} (error : Text → E) (values : List Text)
    → require_unique error values ≡ ok tt
    → IsDistinct values
unfolding require_unique
require_unique-IsDistinct error values h = elim (Option-cases (duplicate values)) [
  | inl e ↦ (duplicate_iff values).0 e
  | inr (v, e) ↦ cc (rw (require_unique, e) at h)
]

-- Where a value was found: behind a part of the list, and in it or among the values seen.
record IsRepeat (seen values : List Text) (value : Text) : Type 0 where
  before : List Text
  after : List Text
  whole : values ≡ before ++ value ∷ after
  earlier : (contains value seen ≡ true) ⊎ (contains value before ≡ true)

IsRepeat-later :
    (v : Text) (seen vs : List Text) (value : Text)
    → IsRepeat (v ∷ seen) vs value
    → IsRepeat seen (v ∷ vs) value
IsRepeat-later v seen vs value r = record {
  before = v ∷ r.before;
  after = r.after;
  whole = ap (λ (rest : List Text). v ∷ rest) r.whole;
  earlier = elim r.earlier [
    | inl e ↦ elim (contains-cons value v seen e) [
      | inl same ↦ inr (rw same (contains-head v r.before))
      | inr in_seen ↦ inl in_seen
    ]
    | inr e ↦ inr (contains-tail value v r.before e)
  ];
}

duplicate_after-some :
    (seen values : List Text) (value : Text)
    → duplicate_after seen values ≡ some value
    → IsRepeat seen values value
unfolding duplicate_after
duplicate_after-some seen [] value h = cc h
duplicate_after-some seen (v ∷ vs) value h = elim (Bool-cases (contains v seen)) [
  | inl e ↦
      let same : v ≡ value = cc (rw e at h) in
      record {
        before = [];
        after = vs;
        whole = rw same;
        earlier = inl (subst (λ x. contains x seen ≡ true) same e);
      }
  | inr e ↦ IsRepeat-later v seen vs value (duplicate_after-some (v ∷ seen) vs value (rw e at h))
]

-- A value that `_duplicate` finds stands at a place with the same value before it.
pub duplicate-some :
    (values : List Text) (value : Text)
    → duplicate values ≡ some value
    → (before after : List Text) × (values ≡ before ++ value ∷ after)
      × (contains value before ≡ true)
unfolding duplicate
duplicate-some values value h =
    let r = duplicate_after-some [] values value h in
    (
      r.before,
      r.after,
      r.whole,
      elim r.earlier [ inl none_seen ↦ cc (none_seen, contains-nil value) | inr found ↦ found ],
    )
