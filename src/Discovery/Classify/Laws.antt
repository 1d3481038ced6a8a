-- ===== src/Discovery/Classify/Laws.antt =====
-- The constructors that `classify_release` calls never refuse what it hands them.
use mexican_banking_monitor.Base.{
  ◌≡◌, refl, sym, subst, ap, Bool, true, false, Option, List, [], ◌∷◌, map, arith, Text, ok, All,
}
use mexican_banking_monitor.Discovery.Errors.{lineage_ambiguous}
use mexican_banking_monitor.Discovery.Patterns.{is_identifier, is_sha256}
use mexican_banking_monitor.Discovery.Contracts.{require_identifier, require_sha256}
use mexican_banking_monitor.Discovery.Contracts.Laws.{AreRoles, require_sorted_unique_roles←}
use mexican_banking_monitor.Discovery.Releases.{pair_role}
use mexican_banking_monitor.Discovery.Identity.Laws.{ArePairs}
use mexican_banking_monitor.Discovery.Classify.{
  ArtifactObservationResult, ReleaseChange, ArtifactClassification, new, revised, is_failed,
  is_revised, is_allowed, classified_role, all_allowed, check_artifact_classification,
  check_supersedes, check_release_classification, classify_each, build_classification,
  revision_verdict,
}

-- The classification of each pair, where no constructor refuses.
abbrev pub classified :
    (Text → Text → ArtifactObservationResult × Bool)
    → List (Text × Text)
    → List ArtifactClassification
classified decide [] = []
classified decide ((role, digest) ∷ pairs) =
    record {
      artifact_role = role;
      sha256 = digest;
      result = (decide role digest).0;
      content_changed = (decide role digest).1;
    }
    ∷ classified decide pairs

-- A verdict that the constructor of an artifact's classification takes.
abbrev pub IsVerdict : ArtifactObservationResult × Bool → Type 0
IsVerdict v = (is_failed v.0 ≡ false) × (v.1 ≡ is_revised v.0)

check_artifact_classification-ok :
    (c : ArtifactClassification)
    → is_identifier c.artifact_role ≡ true
    → is_sha256 c.sha256 ≡ true
    → IsVerdict (c.result, c.content_changed)
    → check_artifact_classification c ≡ ok tt
unfolding check_artifact_classification require_identifier require_sha256
check_artifact_classification-ok c i s v = ground arith

classify_each-ok :
    (decide : Text → Text → ArtifactObservationResult × Bool) (pairs : List (Text × Text))
    → ((role digest : Text) → IsVerdict (decide role digest))
    → All (λ r. is_identifier r ≡ true) (map pair_role pairs)
    → All (λ p. is_sha256 p.1 ≡ true) pairs
    → classify_each decide pairs ≡ ok (classified decide pairs)
unfolding classify_each
classify_each-ok decide [] v i s = refl
classify_each-ok decide ((role, digest) ∷ pairs) v i s =
    rw
      (check_artifact_classification-ok
        (record {
          artifact_role = role;
          sha256 = digest;
          result = (decide role digest).0;
          content_changed = (decide role digest).1;
        })
        i.0 s.0 (v role digest))
      (rw (classify_each-ok decide pairs v i.1 s.1))

roles-classified :
    (decide : Text → Text → ArtifactObservationResult × Bool) (pairs : List (Text × Text))
    → map classified_role (classified decide pairs) ≡ map pair_role pairs
roles-classified decide [] = refl
roles-classified decide ((role, digest) ∷ pairs) =
    ap (λ t. role ∷ t) (roles-classified decide pairs)

all_allowed-classified :
    (change : ReleaseChange) (decide : Text → Text → ArtifactObservationResult × Bool)
    (pairs : List (Text × Text))
    → ((role digest : Text) → is_allowed change (decide role digest).0 ≡ true)
    → all_allowed change (classified decide pairs) ≡ true
unfolding all_allowed
all_allowed-classified change decide [] a = refl
all_allowed-classified change decide ((role, digest) ∷ pairs) a =
    rw (a role digest) (all_allowed-classified change decide pairs a)

-- With a well-formed identity and pairs, allowed verdicts and the right predecessor, the
-- classification is built as it was asked for.
pub build_classification-ok :
    (change : ReleaseChange) (identity : Text) (supersedes : Option Text)
    (decide : Text → Text → ArtifactObservationResult × Bool) (pairs : List (Text × Text))
    → is_sha256 identity ≡ true
    → ArePairs pairs
    → ((role digest : Text) → IsVerdict (decide role digest))
    → ((role digest : Text) → is_allowed change (decide role digest).0 ≡ true)
    → check_supersedes change supersedes identity (classified decide pairs) ≡ ok tt
    → build_classification change identity supersedes decide pairs
      ≡ ok (record {
        change = change;
        release_identity_hash = identity;
        supersedes_release_identity_hash = supersedes;
        artifacts = classified decide pairs;
      })
unfolding build_classification check_release_classification require_sha256
build_classification-ok change identity supersedes decide pairs i p v a s =
    rw (classify_each-ok decide pairs v p.roles.identifiers p.digests) (
      rw i (
        rw
          (require_sorted_unique_roles← (map classified_role (classified decide pairs))
            lineage_ambiguous (subst AreRoles (sym (roles-classified decide pairs)) p.roles))
          (rw (all_allowed-classified change decide pairs a) (rw s))))

pub new-IsVerdict : (role digest : Text) → IsVerdict (new, false)
unfolding is_failed is_revised
new-IsVerdict role digest = (refl, refl)

pub revision_verdict-IsVerdict :
    (h : List (Text × Text)) (role digest : Text) → IsVerdict (revision_verdict h role digest)
unfolding revision_verdict is_failed is_revised
revision_verdict-IsVerdict h role digest = ground arith

pub revision_verdict-allowed :
    (h : List (Text × Text)) (role digest : Text)
    → is_allowed revised (revision_verdict h role digest).0 ≡ true
unfolding revision_verdict is_allowed
revision_verdict-allowed h role digest = ground arith
