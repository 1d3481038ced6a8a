-- ===== src/Discovery/Observe/Laws.antt =====
-- What the checks of an observed release say.
use mexican_banking_monitor.Base.{
  ℕ, ◌≡◌, refl, sym, subst, ap, ◌∙◌, true, not, Option, none, some, List, [], ◌∷◌, map, arith, Text,
  ok, text_eq, text_eq→, require, >>=-eq-ok, >>-eq-ok, require-eq-ok, is_some, leb, length, ◌==◌,
}
use mexican_banking_monitor.Base.Sorting.{IsStrict}
use mexican_banking_monitor.Discovery.Errors.{source_contract_invalid}
use mexican_banking_monitor.Discovery.Contracts.{
  require_identifier, require_identity_scheme, require_sorted_unique_roles,
}
use mexican_banking_monitor.Discovery.Contracts.Laws.{AreRoles, require_sorted_unique_roles→}
use mexican_banking_monitor.Discovery.Records.{DiscoveredArtifact}
use mexican_banking_monitor.Discovery.Releases.{
  DiscoveredRelease, ValidatedArtifact, ObservedRelease, discovered_role, validated_role, pair_role,
  check_discovered_release,
}
use mexican_banking_monitor.Discovery.Identity.{
  artifact_set_identity_hash, release_identity_hash, require_observed, observed_size, digest_pair,
}
use mexican_banking_monitor.Discovery.Identity.Laws.{
  IsIdentity, artifact_set_identity_hash-ok, sort_by-pairs,
}
use mexican_banking_monitor.Discovery.Observe.{roles_and_formats_match, check_observed_release}

-- The roles of artifacts that match the discovered ones are theirs.
pub roles_match :
    (as' : List ValidatedArtifact) (ds : List DiscoveredArtifact)
    → roles_and_formats_match as' ds ≡ true
    → map validated_role as' ≡ map discovered_role ds
unfolding roles_and_formats_match
roles_match [] [] h = refl
roles_match [] (d ∷ ds) h = cc
roles_match (a ∷ as') [] h = cc
roles_match (a ∷ as') (d ∷ ds) h =
    ground (arith, text_eq→ a.artifact_role d.artifact_role, roles_match as' ds)

-- What a discovered release has been checked for.
pub record IsDiscovered (d : DiscoveredRelease) : Type 0 where
  pub roles : AreRoles (map discovered_role d.artifacts)
  pub no_revision : d.revision ≡ none

not_some {ℓ} : {A : Type ℓ} (o : Option A) → not (is_some o) ≡ true → o ≡ none
not_some none h = refl
not_some (some a) h = cc

pub check_discovered_release-IsDiscovered :
    (d : DiscoveredRelease) → check_discovered_release d ≡ ok tt → IsDiscovered d
unfolding check_discovered_release
check_discovered_release-IsDiscovered d h =
    let e = source_contract_invalid in
    let (h1, k1) = >>-eq-ok (require_identifier d.source_code e) _ h in
    let (h2, k2) = >>-eq-ok (require (leb 1 d.source_definition_version) e) _ k1 in
    let (h3, k3) = >>-eq-ok (require_identifier d.release_family_key e) _ k2 in
    let (h4, k4) = >>-eq-ok (require_identity_scheme d.identity_scheme e) _ k3 in
    let (h5, k5) =
      >>-eq-ok (require_sorted_unique_roles (map discovered_role d.artifacts) e) _ k4 in
    let (h6, k6) = >>-eq-ok (require (not (is_some d.revision)) e) _ k5 in
    record {
      roles = require_sorted_unique_roles→ (map discovered_role d.artifacts) e h5;
      no_revision = not_some d.revision (require-eq-ok (not (is_some d.revision)) e h6);
    }

pub release_identity_hash-ok :
    (hexdigest : List ℕ → Text) (d : DiscoveredRelease) (as' : List ValidatedArtifact)
    (identity : Text)
    → release_identity_hash hexdigest d as' ≡ ok identity
    → artifact_set_identity_hash hexdigest d.identity_scheme d.source_code d.release_family_key
        d.revision
        (map digest_pair as')
      ≡ ok identity
unfolding release_identity_hash
release_identity_hash-ok hexdigest d as' identity h =
    let (a, k1) =
      >>-eq-ok (require (observed_size as' == length as') source_contract_invalid) _ h in
    let (b, k2) = >>-eq-ok (require_observed d.artifacts as') _ k1 in
    let (c, k3) =
      >>-eq-ok (require (observed_size as' == length d.artifacts) source_contract_invalid) _ k2 in
    k3

pub roles-digest_pair :
    (as' : List ValidatedArtifact) → map pair_role (map digest_pair as') ≡ map validated_role as'
roles-digest_pair [] = refl
roles-digest_pair (a ∷ as') = ap (λ t. a.artifact_role ∷ t) (roles-digest_pair as')

module _ (hexdigest : List ℕ → Text) (observed : ObservedRelease)
    (d : check_discovered_release observed.discovered ≡ ok tt)
    (o : check_observed_release hexdigest observed ≡ ok tt) where
  -- An observed release that passes its checks, with a discovered release that passes its own,
  -- has well-formed identity parts, its artifacts in strict role order, and as its identity the
  -- hash of their set without a revision.
  pub observed-IsIdentity :
      IsIdentity observed.discovered.identity_scheme observed.discovered.source_code
        observed.discovered.release_family_key none
        (map digest_pair observed.artifacts)
      × (artifact_set_identity_hash hexdigest observed.discovered.identity_scheme
            observed.discovered.source_code observed.discovered.release_family_key none
            (map digest_pair observed.artifacts)
          ≡ ok observed.release_identity_hash)
  unfolding check_observed_release
  observed-IsIdentity =
      let e = source_contract_invalid in
      let valid = check_discovered_release-IsDiscovered observed.discovered d in
      let (m, k1) =
        >>-eq-ok
          (require (roles_and_formats_match observed.artifacts observed.discovered.artifacts) e) _
          o in
      let (identity, i, k2) =
        >>=-eq-ok (release_identity_hash hexdigest observed.discovered observed.artifacts) _ k1 in
      let (t, k3) = >>-eq-ok (require (text_eq observed.release_identity_hash identity) e) _ k2 in
      let same : observed.release_identity_hash ≡ identity =
        text_eq→ _ _ (require-eq-ok (text_eq observed.release_identity_hash identity) e t) in
      let roles : map validated_role observed.artifacts
          ≡ map discovered_role observed.discovered.artifacts =
        roles_match observed.artifacts observed.discovered.artifacts (
          require-eq-ok (roles_and_formats_match observed.artifacts observed.discovered.artifacts) e
            m) in
      let strict : IsStrict (map pair_role (map digest_pair observed.artifacts)) =
        subst IsStrict (sym (roles-digest_pair observed.artifacts ∙ roles)) valid.roles.strict in
      let hash : artifact_set_identity_hash hexdigest observed.discovered.identity_scheme
            observed.discovered.source_code observed.discovered.release_family_key none
            (map digest_pair observed.artifacts)
          ≡ ok observed.release_identity_hash =
        subst
          (λ r.
            artifact_set_identity_hash hexdigest observed.discovered.identity_scheme
              observed.discovered.source_code observed.discovered.release_family_key r
              (map digest_pair observed.artifacts)
            ≡ ok observed.release_identity_hash)
          valid.no_revision
          (release_identity_hash-ok hexdigest observed.discovered observed.artifacts identity i
            ∙ ap ok (sym same)) in
      (
        subst
            (λ ps.
              IsIdentity observed.discovered.identity_scheme observed.discovered.source_code
                observed.discovered.release_family_key none ps)
            (sort_by-pairs (map digest_pair observed.artifacts) strict)
            (artifact_set_identity_hash-ok hexdigest observed.discovered.identity_scheme
              observed.discovered.source_code observed.discovered.release_family_key none
              (map digest_pair observed.artifacts) observed.release_identity_hash hash).0,
        hash,
      )
