-- ===== src/Discovery/Lineage/Chain.antt =====
-- What a lineage is, apart from how it is resolved: one supersession chain.
use mexican_banking_monitor.Base.{
  suc, ◌≡◌, refl, inl, inr, true, false, none, some, List, [], ◌∷◌, map, arith, Text, text_eq→,
  text_eq_iff, length, contains, Option-cases,
}
use mexican_banking_monitor.Base.Distinct.{IsDistinct, contains-cons}
use mexican_banking_monitor.Discovery.Releases.{CatalogedRelease, identity_of}
use mexican_banking_monitor.Discovery.Lineage.{find_release}

-- From `r` the predecessors are `older`, in order, down to a release that supersedes none.
pub data Chain (all : List CatalogedRelease) : CatalogedRelease → List Text → Type 0 where
  oldest : (r : CatalogedRelease) → r.supersedes_release_identity_hash ≡ none → Chain all r []
  older :
      (r q : CatalogedRelease) (p : Text) (ids : List Text)
      → r.supersedes_release_identity_hash ≡ some p
      → find_release p all ≡ some q
      → Chain all q ids
      → Chain all r (p ∷ ids)

-- The family is the chain below `head`, each release once.
pub record IsLineage (all : List CatalogedRelease) (head : CatalogedRelease) (ids : List Text)
    : Type 0 where
  pub chain : Chain all head ids
  pub member : find_release head.release_identity_hash all ≡ some head
  pub distinct : IsDistinct (head.release_identity_hash ∷ ids)
  pub complete : length all ≡ suc (length ids)

-- A release that is found has the identity that was sought.
pub find_release-identity :
    (p : Text) (all : List CatalogedRelease) (q : CatalogedRelease)
    → find_release p all ≡ some q
    → q.release_identity_hash ≡ p
unfolding find_release
find_release-identity p [] q h = cc
find_release-identity p (r ∷ all) q h =
    ground (arith, find_release-identity p all q, text_eq→ r.release_identity_hash p)

abbrev pub identities : List CatalogedRelease → List Text
identities all = map identity_of all

-- A release that is found stands in the family.
pub find_release-contains :
    (p : Text) (all : List CatalogedRelease) (q : CatalogedRelease)
    → find_release p all ≡ some q
    → contains p (identities all) ≡ true
unfolding find_release contains
find_release-contains p [] q h = cc
find_release-contains p (r ∷ all) q h = ground (
  arith,
  find_release-contains p all q,
  text_eq_iff r.release_identity_hash p,
  text_eq_iff p r.release_identity_hash,
)

pub find_release-none :
    (p : Text) (all : List CatalogedRelease)
    → contains p (identities all) ≡ false
    → find_release p all ≡ none
unfolding find_release contains
find_release-none p [] h = refl
find_release-none p (r ∷ all) h = ground (
  arith,
  find_release-none p all,
  text_eq_iff r.release_identity_hash p,
  text_eq_iff p r.release_identity_hash,
)

-- An identity of the family is found.
pub find_release-some :
    (p : Text) (all : List CatalogedRelease)
    → contains p (identities all) ≡ true
    → (q : CatalogedRelease) × (find_release p all ≡ some q)
unfolding find_release contains
find_release-some p [] h = cc
find_release-some p (r ∷ all) h = elim (Option-cases (find_release p all)) [
  | inl e ↦ (
    r,
    ground (
      arith,
      find_release-some p all,
      text_eq_iff r.release_identity_hash p,
      text_eq_iff p r.release_identity_hash,
    ),
  )
  | inr (q, e) ↦ (q, rw e)
]

-- The walk down a chain finds every identity on it.
pub Chain-finds :
    (all : List CatalogedRelease) (r : CatalogedRelease) (ids : List Text)
    → Chain all r ids
    → (x : Text) → contains x ids ≡ true
    → (q : CatalogedRelease) × (find_release x all ≡ some q)
unfolding contains
Chain-finds all r [] c x h = cc
Chain-finds all r (p ∷ ids) (older _ q _ _ e f c) x h = elim (contains-cons x p ids h) [
  | inl same ↦ (q, rw same f)
  | inr more ↦ Chain-finds all q ids c x more
]
