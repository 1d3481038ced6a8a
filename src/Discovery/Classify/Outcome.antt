-- ===== src/Discovery/Classify/Outcome.antt =====
-- `classify_release` against its specification: what an observed release is, given the lineage of
-- its family.
use mexican_banking_monitor.Base.{
  ℕ, ◌≡◌, ◌≢◌, refl, sym, subst, ap, ◌∙◌, inl, inr, Bool, true, false, Option, none, some, List, [],
  ◌∷◌, map, arith, Text, ok, err, All, All-map, text_eq, text_eq_refl, text_eq→, text_eq_iff,
  require, ◌>>◌, ◌>>=◌, >>=-eq-ok, >>-eq-ok, require-eq-ok, if◌then◌else◌, Bool-cases, contains,
  length, suc,
}
use mexican_banking_monitor.Base.Sorting.{texts_eq, texts_eq→, sorted_set-eq_of_strict}
use mexican_banking_monitor.Base.Distinct.{IsDistinct}
use mexican_banking_monitor.Discovery.Errors.{Checked, lineage_ambiguous}
use mexican_banking_monitor.Discovery.Patterns.{is_sha256}
use mexican_banking_monitor.Discovery.Contracts.{require_sha256}
use mexican_banking_monitor.Discovery.Contracts.Laws.{AreRoles, require_sorted_unique_roles→}
use mexican_banking_monitor.Discovery.Releases.{
  CatalogedRelease, PriorFamilyState, ObservedRelease, pair_role, check_discovered_release,
  check_cataloged_release, require_digests,
}
use mexican_banking_monitor.Discovery.Identity.{artifact_set_identity_hash, digest_pair}
use mexican_banking_monitor.Discovery.Identity.Laws.{
  ArePairs, IsIdentity, artifact_set_identity_hash-ok,
}
use mexican_banking_monitor.Discovery.Observe.{check_observed_release}
use mexican_banking_monitor.Discovery.Observe.Laws.{observed-IsIdentity}
use mexican_banking_monitor.Discovery.Lineage.{resolve_unique_head}
use mexican_banking_monitor.Discovery.Lineage.Chain.{IsLineage, identities}
use mexican_banking_monitor.Discovery.Lineage.Heads.{All-find_release}
use mexican_banking_monitor.Discovery.Lineage.Resolve.{resolve_unique_head_complete, SameTexts}
use mexican_banking_monitor.Discovery.Classify.{
  ArtifactObservationResult, ReleaseChange, ReleaseClassification, new, reused, revised,
  first_release, unchanged, is_failed, is_revised, is_allowed, check_supersedes,
  build_classification, revision_verdict, require_prior_identities, classify_revised,
  classify_against, classify_family, classify_release,
}
use mexican_banking_monitor.Discovery.Classify.Laws.{
  classified, build_classification-ok, new-IsVerdict, revision_verdict-IsVerdict,
  revision_verdict-allowed, IsVerdict,
}
use mexican_banking_monitor.Discovery.Classify.Changes.{some_revised_of_ne}

abbrev classification :
    ReleaseChange
    → Text
    → Option Text
    → (Text → Text → ArtifactObservationResult × Bool)
    → List (Text × Text)
    → ReleaseClassification
classification change identity supersedes decide pairs = record {
  change = change;
  release_identity_hash = identity;
  supersedes_release_identity_hash = supersedes;
  artifacts = classified decide pairs;
}

-- The first release of its family: every artifact is new.
abbrev pub first_outcome : Text → List (Text × Text) → ReleaseClassification
first_outcome identity pairs =
    classification first_release identity none (λ role digest. (new, false)) pairs

-- A release that supersedes the head: its changed artifacts are revised, the rest reused.
abbrev pub revised_outcome : CatalogedRelease → Text → List (Text × Text) → ReleaseClassification
revised_outcome head identity pairs =
    classification revised identity (some head.release_identity_hash)
      (revision_verdict head.artifact_sha256_by_role) pairs

-- The outcome below a head: other roles and identities that were superseded before are refused,
-- the head's own identity is no change, and any other one supersedes the head.
abbrev pub outcome :
    CatalogedRelease → List Text → Text → List (Text × Text) → Checked ReleaseClassification
outcome head ids identity pairs =
    if texts_eq (map pair_role head.artifact_sha256_by_role) (map pair_role pairs)
    then (if text_eq identity head.release_identity_hash
        then ok (classification unchanged identity none (λ role digest. (reused, false)) pairs)
        else if contains identity ids
        then err lineage_ambiguous
        else ok (revised_outcome head identity pairs))
    else err lineage_ambiguous

-- What the caller hands over: an observed release and the state of its family, as their
-- constructors leave them.
pub record IsFamilyOf (hexdigest : List ℕ → Text) (observed : ObservedRelease)
    (prior : PriorFamilyState) : Type 0 where
  pub discovered_ok : check_discovered_release observed.discovered ≡ ok tt
  pub observed_ok : check_observed_release hexdigest observed ≡ ok tt
  pub distinct : IsDistinct (identities prior.releases)
  pub cataloged_ok : All (λ r. check_cataloged_release r ≡ ok tt) prior.releases
  pub source : prior.source_code ≡ observed.discovered.source_code
  pub family : prior.release_family_key ≡ observed.discovered.release_family_key
  pub identities_ok :
      require_prior_identities hexdigest observed.discovered.identity_scheme prior prior.releases
      ≡ ok tt

abbrev pub observed_pairs : ObservedRelease → List (Text × Text)
observed_pairs observed = map digest_pair observed.artifacts

-- Every prior identity is the hash of its artifact set.
prior_identities :
    (hexdigest : List ℕ → Text) (scheme : Text) (prior : PriorFamilyState)
    (rs : List CatalogedRelease)
    → require_prior_identities hexdigest scheme prior rs ≡ ok tt
    → All
        (λ r.
          artifact_set_identity_hash hexdigest scheme prior.source_code prior.release_family_key
            none r.artifact_sha256_by_role
          ≡ ok r.release_identity_hash)
        rs
unfolding require_prior_identities
prior_identities hexdigest scheme prior [] h = tt
prior_identities hexdigest scheme prior (r ∷ rs) h =
    let (i, e, k) =
      >>=-eq-ok
        (artifact_set_identity_hash hexdigest scheme prior.source_code prior.release_family_key none
          r.artifact_sha256_by_role)
        _ h in
    let (t, k2) = >>-eq-ok (require (text_eq r.release_identity_hash i) lineage_ambiguous) _ k in
    (
      e
          ∙ ap ok (
              sym (
                text_eq→ r.release_identity_hash i
                  (require-eq-ok (text_eq r.release_identity_hash i) lineage_ambiguous t))),
      prior_identities hexdigest scheme prior rs k2,
    )

-- The roles of a cataloged release stand in strict order.
cataloged_roles :
    (r : CatalogedRelease)
    → check_cataloged_release r ≡ ok tt
    → AreRoles (map pair_role r.artifact_sha256_by_role)
unfolding check_cataloged_release
cataloged_roles r h =
    let e = lineage_ambiguous in
    let (a, k1) = >>-eq-ok (require_sha256 r.release_identity_hash e) _ h in
    let (b, k2) = >>-eq-ok _ _ k1 in
    let (c, k3) = >>-eq-ok (require_digests r.artifact_sha256_by_role e) _ k2 in
    require_sorted_unique_roles→ (map pair_role r.artifact_sha256_by_role) e k3

reused-IsVerdict : (role digest : Text) → IsVerdict (reused, false)
unfolding is_failed is_revised
reused-IsVerdict role digest = (refl, refl)

module _ (hexdigest : List ℕ → Text) (sha256_form : (b : List ℕ) → is_sha256 (hexdigest b) ≡ true)
    (observed : ObservedRelease) (prior : PriorFamilyState)
    (v : IsFamilyOf hexdigest observed prior) where
  pub IsIdentity-parts :
      IsIdentity observed.discovered.identity_scheme observed.discovered.source_code
        observed.discovered.release_family_key none
        (observed_pairs observed)
      × (artifact_set_identity_hash hexdigest observed.discovered.identity_scheme
            observed.discovered.source_code observed.discovered.release_family_key none
            (observed_pairs observed)
          ≡ ok observed.release_identity_hash)
  IsIdentity-parts = observed-IsIdentity hexdigest observed v.discovered_ok v.observed_ok

  pub pairs_form : ArePairs (observed_pairs observed)
  pairs_form = IsIdentity-parts.0.pairs_form

  pub identity_form : is_sha256 observed.release_identity_hash ≡ true
  identity_form =
      rw
        ((artifact_set_identity_hash-ok hexdigest _ _ _ none (observed_pairs observed)
          observed.release_identity_hash IsIdentity-parts.1).1)
        (sha256_form _)

  -- The guards of `classify_release` before it looks at the prior releases.
  classify_release-guards :
      (rest : Checked ReleaseClassification)
      → (require (text_eq prior.source_code observed.discovered.source_code) lineage_ambiguous
          >> (require
                (text_eq prior.release_family_key observed.discovered.release_family_key)
                lineage_ambiguous
              >> (require_prior_identities hexdigest observed.discovered.identity_scheme prior
                    prior.releases
                  >> rest)))
        ≡ rest
  classify_release-guards rest =
      rw ((text_eq_iff _ _).1 v.source) (rw ((text_eq_iff _ _).1 v.family) (rw v.identities_ok))

  -- Given the state that `IsFamilyOf` describes, without a prior release, and a digest function
  -- whose values have the SHA-256 form, the observed release is classified as the first one,
  -- all its artifacts new.
  pub classify_release-first :
      prior.releases ≡ []
      → classify_release hexdigest observed prior
        ≡ ok (first_outcome observed.release_identity_hash (observed_pairs observed))
  unfolding classify_release
  classify_release-first e =
      classify_release-guards _
      ∙ rw e (
          build_classification-ok first_release observed.release_identity_hash none
            (λ role digest. (new, false)) (observed_pairs observed) identity_form pairs_form
            new-IsVerdict (λ role digest. unfold is_allowed in refl)
            (unfold check_supersedes in refl))

  module _ (head : CatalogedRelease) (ids : List Text) (l : IsLineage prior.releases head ids) where
    head_roles : AreRoles (map pair_role head.artifact_sha256_by_role)
    head_roles =
        All-find_release (λ r. AreRoles (map pair_role r.artifact_sha256_by_role))
          head.release_identity_hash prior.releases head
          (All-map (λ r. check_cataloged_release r ≡ ok tt) _ cataloged_roles prior.releases
            v.cataloged_ok)
          l.member

    head_identity :
        artifact_set_identity_hash hexdigest observed.discovered.identity_scheme
          observed.discovered.source_code observed.discovered.release_family_key none
          head.artifact_sha256_by_role
        ≡ ok head.release_identity_hash
    head_identity =
        subst
          (λ s.
            artifact_set_identity_hash hexdigest observed.discovered.identity_scheme s
              observed.discovered.release_family_key none head.artifact_sha256_by_role
            ≡ ok head.release_identity_hash)
          v.source
          (subst
            (λ f.
              artifact_set_identity_hash hexdigest observed.discovered.identity_scheme
                prior.source_code f none head.artifact_sha256_by_role
              ≡ ok head.release_identity_hash)
            v.family
            (All-find_release
              (λ r.
                artifact_set_identity_hash hexdigest observed.discovered.identity_scheme
                  prior.source_code prior.release_family_key none r.artifact_sha256_by_role
                ≡ ok r.release_identity_hash)
              head.release_identity_hash prior.releases head
              (prior_identities hexdigest observed.discovered.identity_scheme prior prior.releases
                v.identities_ok)
              l.member))

    -- Another identity than the head's is of another artifact set.
    pairs_differ :
        text_eq observed.release_identity_hash head.release_identity_hash ≡ false
        → observed_pairs observed ≢ head.artifact_sha256_by_role
    pairs_differ e same =
        let i : observed.release_identity_hash ≡ head.release_identity_hash =
          cc (IsIdentity-parts.1, head_identity, same) in
        cc (e, i, text_eq_refl head.release_identity_hash)

    pub sha_head : is_sha256 head.release_identity_hash ≡ true
    sha_head =
        rw
          ((artifact_set_identity_hash-ok hexdigest _ _ _ none head.artifact_sha256_by_role
            head.release_identity_hash head_identity).1)
          (sha256_form _)

    revised_ok :
        text_eq observed.release_identity_hash head.release_identity_hash ≡ false
        → map pair_role (observed_pairs observed) ≡ map pair_role head.artifact_sha256_by_role
        → check_supersedes revised
            (some head.release_identity_hash)
            observed.release_identity_hash
            (classified (revision_verdict head.artifact_sha256_by_role) (observed_pairs observed))
          ≡ ok tt
    unfolding check_supersedes require_sha256
    revised_ok e roles = rw sha_head (
        rw (apart (text_eq head.release_identity_hash observed.release_identity_hash) refl) (
          rw (
            some_revised_of_ne head.artifact_sha256_by_role (observed_pairs observed)
              head_roles.strict roles (pairs_differ e))))
      where
        apart :
            (b : Bool)
            → text_eq head.release_identity_hash observed.release_identity_hash ≡ b
            → text_eq head.release_identity_hash observed.release_identity_hash ≡ false
        apart true f = cc (e, text_eq→ _ _ f, text_eq_refl head.release_identity_hash)
        apart false f = f

    -- The three ways on from the head, where the roles are its roles.
    same_roles :
        (superseded : List Text)
        → SameTexts superseded ids
        → map pair_role head.artifact_sha256_by_role ≡ map pair_role (observed_pairs observed)
        → (if text_eq observed.release_identity_hash head.release_identity_hash
            then build_classification unchanged observed.release_identity_hash none
                (λ role digest. (reused, false))
                (observed_pairs observed)
            else classify_revised
                (head, superseded)
                observed.release_identity_hash
                (observed_pairs observed))
          ≡ (if text_eq observed.release_identity_hash head.release_identity_hash
              then ok (
                  classification unchanged observed.release_identity_hash none
                    (λ role digest. (reused, false))
                    (observed_pairs observed))
              else if contains observed.release_identity_hash ids
              then err lineage_ambiguous
              else ok (
                  classification revised observed.release_identity_hash
                    (some head.release_identity_hash)
                    (revision_verdict head.artifact_sha256_by_role)
                    (observed_pairs observed)))
    unfolding classify_revised
    same_roles superseded same roles =
        elim (Bool-cases (text_eq observed.release_identity_hash head.release_identity_hash)) [
          | inl e ↦ rw e (
              build_classification-ok unchanged observed.release_identity_hash none
                (λ role digest. (reused, false)) (observed_pairs observed) identity_form pairs_form
                reused-IsVerdict (λ role digest. unfold is_allowed in refl)
                (unfold check_supersedes in refl))
          | inr e ↦
              rw (e, same observed.release_identity_hash)
                (elim (Bool-cases (contains observed.release_identity_hash ids)) [
                  | inl c ↦ rw c
                  | inr c ↦ rw c (
                      build_classification-ok revised observed.release_identity_hash
                        (some head.release_identity_hash)
                        (revision_verdict head.artifact_sha256_by_role) (observed_pairs observed)
                        identity_form pairs_form
                        (revision_verdict-IsVerdict head.artifact_sha256_by_role)
                        (revision_verdict-allowed head.artifact_sha256_by_role)
                        (revised_ok e (sym roles)))
                ])
        ]

    against :
        (superseded : List Text)
        → SameTexts superseded ids
        → classify_against
            (head, superseded)
            observed.release_identity_hash
            (observed_pairs observed)
          ≡ outcome head ids observed.release_identity_hash (observed_pairs observed)
    unfolding classify_against
    against superseded same =
        rw (sorted_set-eq_of_strict (map pair_role head.artifact_sha256_by_role) head_roles.strict)
          (rw
            (sorted_set-eq_of_strict (map pair_role (observed_pairs observed))
              pairs_form.roles.strict)
            (elim (Bool-cases (
              texts_eq (map pair_role head.artifact_sha256_by_role)
                (map pair_role (observed_pairs observed)))) [
                  | inl e ↦ rw e (same_roles superseded same (texts_eq→ _ _ e))
                  | inr e ↦ rw e
                ]))

    -- A family on a lineage has releases.
    not_first :
        (rs : List CatalogedRelease)
        → length rs ≡ suc (length ids)
        → classify_family rs observed.release_identity_hash (observed_pairs observed) ≡ (
            resolve_unique_head rs >>= λ resolved.
            classify_against resolved observed.release_identity_hash (observed_pairs observed))
    unfolding classify_family
    not_first [] e = absurd (omega arith)
    not_first (r ∷ rs) e = refl

    -- Given the state that `IsFamilyOf` describes and a digest function whose values have the
    -- SHA-256 form, on a family that is a lineage below a head `classify_release` returns the
    -- specified outcome, whichever of the four it is.
    pub classify_release-outcome :
        classify_release hexdigest observed prior
        ≡ outcome head ids observed.release_identity_hash (observed_pairs observed)
    unfolding classify_release
    classify_release-outcome =
        let (superseded, e, same) =
          resolve_unique_head_complete prior.releases head ids v.distinct l in
        classify_release-guards _
        ∙ not_first prior.releases l.complete
        ∙ rw e (against superseded same)
