-- ===== src/Discovery/Classify/Evolution.antt =====
-- A family that grows by what `classify_release` says stays a lineage: the catalog appends the
-- classified release, and the next classification resolves it as the head.
use mexican_banking_monitor.Base.{
  ℕ, ◌≡◌, refl, sym, ap, ◌∙◌, inl, inr, ◌⊎◌, true, false, some, List, [], ◌∷◌, ◌++◌, map, Text, ok,
  text_eq, text_eq_refl, require, >>=-eq-ok, >>-eq-ok, Bool-cases, contains,
}
use mexican_banking_monitor.Base.Sorting.{texts_eq}
use mexican_banking_monitor.Base.Distinct.{IsDistinct, contains-cons_ne}
use mexican_banking_monitor.Discovery.Errors.{Checked, lineage_ambiguous}
use mexican_banking_monitor.Discovery.Patterns.{is_sha256}
use mexican_banking_monitor.Discovery.Releases.{
  CatalogedRelease, PriorFamilyState, ObservedRelease, pair_role,
}
use mexican_banking_monitor.Discovery.Lineage.{resolve_unique_head}
use mexican_banking_monitor.Discovery.Lineage.Chain.{IsLineage, identities}
use mexican_banking_monitor.Discovery.Lineage.Resolve.{resolve_unique_head_sound}
use mexican_banking_monitor.Discovery.Lineage.Growth.{
  new_identity, IsLineage-append, identities-append,
}
use mexican_banking_monitor.Discovery.Classify.{
  ReleaseClassification, revised, require_prior_identities, classify_release, classify_family,
}
use mexican_banking_monitor.Discovery.Classify.Outcome.{
  IsFamilyOf, observed_pairs, outcome, revised_outcome, classify_release-outcome,
}

classify_family-IsLineage :
    (rs : List CatalogedRelease) (identity : Text) (pairs : List (Text × Text))
    (c : ReleaseClassification)
    → IsDistinct (identities rs)
    → classify_family rs identity pairs ≡ ok c
    → (rs ≡ []) ⊎ ((head : CatalogedRelease) × (ids : List Text) × IsLineage rs head ids)
unfolding classify_family
classify_family-IsLineage [] identity pairs c d h = inl refl
classify_family-IsLineage (r ∷ rs) identity pairs c d h =
    let ((head, superseded), e, k) = >>=-eq-ok (resolve_unique_head (r ∷ rs)) _ h in
    let (ids, l, same) = resolve_unique_head_sound (r ∷ rs) head superseded d e in
    inr (head, ids, l)

-- Given distinct identities, a family in which `classify_release` succeeds has no release or is
-- a lineage.
pub classify_release-IsLineage :
    (hexdigest : List ℕ → Text) (observed : ObservedRelease) (prior : PriorFamilyState)
    (c : ReleaseClassification)
    → IsDistinct (identities prior.releases)
    → classify_release hexdigest observed prior ≡ ok c
    → (prior.releases ≡ [])
      ⊎ ((head : CatalogedRelease) × (ids : List Text) × IsLineage prior.releases head ids)
unfolding classify_release
classify_release-IsLineage hexdigest observed prior c d h =
    let (a, k1) =
      >>-eq-ok
        (require (text_eq prior.source_code observed.discovered.source_code) lineage_ambiguous) _
        h in
    let (b, k2) =
      >>-eq-ok
        (require (text_eq prior.release_family_key observed.discovered.release_family_key)
          lineage_ambiguous)
        _ k1 in
    let (p, k3) =
      >>-eq-ok
        (require_prior_identities hexdigest observed.discovered.identity_scheme prior
          prior.releases)
        _ k2 in
    classify_family-IsLineage prior.releases observed.release_identity_hash
      (observed_pairs observed) c d k3

-- The catalog's record of a classified release.
abbrev pub cataloged : ObservedRelease → ReleaseClassification → CatalogedRelease
cataloged observed c = record {
  release_identity_hash = c.release_identity_hash;
  supersedes_release_identity_hash = c.supersedes_release_identity_hash;
  artifact_sha256_by_role = observed_pairs observed;
}

-- The family with that record.
abbrev pub recorded : PriorFamilyState → ObservedRelease → ReleaseClassification → PriorFamilyState
recorded prior observed c = record prior { releases = prior.releases ++ cataloged observed c ∷ [] }

-- What a classification that supersedes a head says, from the specified outcome.
pub record IsRevision (head : CatalogedRelease) (ids : List Text) (identity : Text)
    (pairs : List (Text × Text)) (c : ReleaseClassification) : Type 0 where
  pub identity_kept : c.release_identity_hash ≡ identity
  pub supersedes_head : c.supersedes_release_identity_hash ≡ some head.release_identity_hash
  pub new_identity : contains identity (head.release_identity_hash ∷ ids) ≡ false

outcome-IsRevision :
    (head : CatalogedRelease) (ids : List Text) (identity : Text) (pairs : List (Text × Text))
    (c : ReleaseClassification)
    → outcome head ids identity pairs ≡ ok c
    → c.change ≡ revised
    → IsRevision head ids identity pairs c
outcome-IsRevision head ids identity pairs c h e =
    elim (Bool-cases
      (texts_eq (map pair_role head.artifact_sha256_by_role) (map pair_role pairs))) [
        | inr roles ↦ cc (rw roles at h)
        | inl roles ↦ elim (Bool-cases (text_eq identity head.release_identity_hash)) [
          | inl same ↦ cc (rw (roles, same) at h, e)
          | inr apart ↦ elim (Bool-cases (contains identity ids)) [
            | inl seen ↦ cc (rw (roles, apart, seen) at h)
            | inr fresh ↦ built (rw (roles, apart, fresh) at h) apart fresh
          ]
        ]
      ]
  where
    built :
        ◌≡◌ {A = Checked ReleaseClassification} (ok (revised_outcome head identity pairs)) (ok c)
        → text_eq identity head.release_identity_hash ≡ false
        → contains identity ids ≡ false
        → IsRevision head ids identity pairs c
    built g apart fresh =
        let same : revised_outcome head identity pairs ≡ c = cc g in
        record {
          identity_kept = ap (λ (x : ReleaseClassification). x.release_identity_hash) (sym same);
          supersedes_head =
              ap (λ (x : ReleaseClassification). x.supersedes_release_identity_hash) (sym same);
          new_identity =
              contains-cons_ne identity head.release_identity_hash ids
                (λ eq. cc (apart, eq, text_eq_refl identity))
              ∙ fresh;
        }

module _ (hexdigest : List ℕ → Text) (sha256_form : (b : List ℕ) → is_sha256 (hexdigest b) ≡ true)
    (observed : ObservedRelease) (prior : PriorFamilyState)
    (v : IsFamilyOf hexdigest observed prior) (head : CatalogedRelease) (ids : List Text)
    (l : IsLineage prior.releases head ids) (c : ReleaseClassification)
    (h : classify_release hexdigest observed prior ≡ ok c) (e : c.change ≡ revised) where
  revision : IsRevision head ids observed.release_identity_hash (observed_pairs observed) c
  revision =
      outcome-IsRevision head ids observed.release_identity_hash (observed_pairs observed) c
        (sym (classify_release-outcome hexdigest sha256_form observed prior v head ids l) ∙ h) e

  fresh : contains c.release_identity_hash (head.release_identity_hash ∷ ids) ≡ false
  fresh = rw revision.identity_kept revision.new_identity

  -- Given a family that is a lineage, and a release that is classified as revised in it, the
  -- family with that release recorded has distinct identities and is a lineage below the
  -- recorded release, above the former head.
  pub classify_release-extends :
      IsDistinct (identities (recorded prior observed c).releases)
      × IsLineage
          (recorded prior observed c).releases
          (cataloged observed c)
          (head.release_identity_hash ∷ ids)
  classify_release-extends = (
    identities-append (cataloged observed c) prior.releases v.distinct (
        new_identity (cataloged observed c) prior.releases head ids v.distinct l
          revision.supersedes_head fresh),
    IsLineage-append (cataloged observed c) prior.releases head ids v.distinct l
        revision.supersedes_head fresh,
  )
