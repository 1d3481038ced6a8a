-- ===== src/Discovery/Classify.antt =====
-- `classify_release` and the records that it builds.
pub mod Laws
pub mod Changes
pub mod Outcome
pub mod Evolution
use mexican_banking_monitor.Base.{
  ℕ, Bool, true, false, Option, none, some, List, [], ◌∷◌, map, Text, require, ◌>>◌, ◌>>=◌, ok, err,
  not, ◌==◌, ◌&&◌, text_eq, contains, lookup, if◌then◌else◌,
}
use mexican_banking_monitor.Base.Sorting.{sorted_set, texts_eq}
use mexican_banking_monitor.Discovery.Errors.{Checked, discovery_failed, lineage_ambiguous}
use mexican_banking_monitor.Discovery.Contracts.{
  require_identifier, require_sha256, require_sorted_unique_roles,
}
use mexican_banking_monitor.Discovery.Releases.{
  CatalogedRelease, PriorFamilyState, ObservedRelease, pair_role,
}
use mexican_banking_monitor.Discovery.Identity.{artifact_set_identity_hash, digest_pair}
use mexican_banking_monitor.Discovery.Lineage.{resolve_unique_head}

pub data ArtifactObservationResult : Type 0 where
  new reused revised failed : ArtifactObservationResult

pub data ReleaseChange : Type 0 where
  first_release unchanged revised : ReleaseChange

pub record ArtifactClassification : Type 0 where
  pub artifact_role : Text
  pub sha256 : Text
  pub result : ArtifactObservationResult
  pub content_changed : Bool

unfoldable pub is_failed : ArtifactObservationResult → Bool
is_failed ArtifactObservationResult.failed = true
is_failed _ = false

unfoldable pub is_revised : ArtifactObservationResult → Bool
is_revised ArtifactObservationResult.revised = true
is_revised _ = false

bool_eq : Bool → Bool → Bool
bool_eq true b = b
bool_eq false b = not b

unfoldable pub check_artifact_classification : ArtifactClassification → Checked Unit
unfolding is_failed is_revised bool_eq
check_artifact_classification self = do
  require_identifier self.artifact_role lineage_ambiguous
  require_sha256 self.sha256 lineage_ambiguous
  require (not (is_failed self.result)) lineage_ambiguous
  require (bool_eq self.content_changed (is_revised self.result)) lineage_ambiguous

-- `_ALLOWED_RESULTS`
unfoldable pub is_allowed : ReleaseChange → ArtifactObservationResult → Bool
is_allowed ReleaseChange.first_release ArtifactObservationResult.new = true
is_allowed ReleaseChange.unchanged ArtifactObservationResult.reused = true
is_allowed ReleaseChange.revised ArtifactObservationResult.revised = true
is_allowed ReleaseChange.revised ArtifactObservationResult.reused = true
is_allowed _ _ = false

pub record ReleaseClassification : Type 0 where
  pub change : ReleaseChange
  pub release_identity_hash : Text
  pub supersedes_release_identity_hash : Option Text
  pub artifacts : List ArtifactClassification

abbrev pub classified_role : ArtifactClassification → Text
classified_role item = item.artifact_role

unfoldable pub all_allowed : ReleaseChange → List ArtifactClassification → Bool
unfolding is_allowed
all_allowed change [] = true
all_allowed change (item ∷ items) = is_allowed change item.result && all_allowed change items

unfoldable pub some_revised : List ArtifactClassification → Bool
unfolding is_revised
some_revised [] = false
some_revised (item ∷ items) = if is_revised item.result then true else some_revised items

-- The part of the check that depends on the kind of change.
unfoldable pub check_supersedes :
    ReleaseChange → Option Text → Text → List ArtifactClassification → Checked Unit
unfolding some_revised
check_supersedes ReleaseChange.revised none identity artifacts = err lineage_ambiguous
check_supersedes ReleaseChange.revised (some predecessor) identity artifacts = do
  require_sha256 predecessor lineage_ambiguous
  require (not (text_eq predecessor identity)) lineage_ambiguous
  require (some_revised artifacts) lineage_ambiguous
check_supersedes _ none identity artifacts = ok tt
check_supersedes _ (some predecessor) identity artifacts = err lineage_ambiguous

unfoldable pub check_release_classification : ReleaseClassification → Checked Unit
unfolding all_allowed check_supersedes
check_release_classification self = do
  require_sha256 self.release_identity_hash lineage_ambiguous
  require_sorted_unique_roles (map classified_role self.artifacts) lineage_ambiguous
  require (all_allowed self.change self.artifacts) lineage_ambiguous
  check_supersedes self.change self.supersedes_release_identity_hash self.release_identity_hash
      self.artifacts

-- The artifacts of a classification, each built by its constructor.
unfoldable pub classify_each :
    (Text → Text → ArtifactObservationResult × Bool)
    → List (Text × Text)
    → Checked (List ArtifactClassification)
unfolding check_artifact_classification
classify_each decide [] = ok []
classify_each decide ((role, digest) ∷ pairs) = do
  let verdict = decide role digest
  let item : ArtifactClassification = record {
    artifact_role = role;
    sha256 = digest;
    result = verdict.0;
    content_changed = verdict.1;
  }
  check_artifact_classification item
  items ← classify_each decide pairs
  ok (item ∷ items)

-- `ReleaseClassification(...)`
unfoldable pub build_classification :
    ReleaseChange
    → Text
    → Option Text
    → (Text → Text → ArtifactObservationResult × Bool)
    → List (Text × Text)
    → Checked ReleaseClassification
unfolding classify_each check_release_classification
build_classification change identity supersedes decide pairs = do
  artifacts ← classify_each decide pairs
  let classification : ReleaseClassification = record {
    change = change;
    release_identity_hash = identity;
    supersedes_release_identity_hash = supersedes;
    artifacts = artifacts;
  }
  check_release_classification classification
  ok classification

-- The loop over the prior releases: each identity is that of its artifact set.
unfoldable pub require_prior_identities :
    (List ℕ → Text) → Text → PriorFamilyState → List CatalogedRelease → Checked Unit
require_prior_identities hexdigest identity_scheme prior [] = ok tt
require_prior_identities hexdigest identity_scheme prior (release ∷ releases) = do
  identity ←
      artifact_set_identity_hash hexdigest identity_scheme prior.source_code
        prior.release_family_key none release.artifact_sha256_by_role
  require (text_eq release.release_identity_hash identity) lineage_ambiguous
  require_prior_identities hexdigest identity_scheme prior releases

-- `head_sha_by_role[role]` compared with the digest; the roles of the head are those observed.
unfoldable pub digest_changed : List (Text × Text) → Text → Text → Bool
digest_changed head_pairs role digest = elim (lookup role head_pairs) [
  | none ↦ true
  | some recorded ↦ not (text_eq digest recorded)
]

unfoldable pub revision_verdict :
    List (Text × Text) → Text → Text → ArtifactObservationResult × Bool
unfolding digest_changed
revision_verdict head_pairs role digest =
    if digest_changed head_pairs role digest
    then (ArtifactObservationResult.revised, true)
    else (ArtifactObservationResult.reused, false)

-- A new identity supersedes the head.
unfoldable pub classify_revised :
    CatalogedRelease × List Text → Text → List (Text × Text) → Checked ReleaseClassification
unfolding build_classification revision_verdict
classify_revised (head, superseded) identity pairs = do
  require (not (contains identity superseded)) lineage_ambiguous
  build_classification ReleaseChange.revised identity (some head.release_identity_hash)
      (revision_verdict head.artifact_sha256_by_role) pairs

-- Against a family that has releases. The roles of a cataloged release are unique.
unfoldable pub classify_against :
    CatalogedRelease × List Text → Text → List (Text × Text) → Checked ReleaseClassification
unfolding build_classification classify_revised
classify_against (head, superseded) identity pairs =
    require
      (texts_eq (sorted_set (map pair_role head.artifact_sha256_by_role))
        (sorted_set (map pair_role pairs)))
      lineage_ambiguous
    >> (if text_eq identity head.release_identity_hash
        then build_classification ReleaseChange.unchanged identity none
            (λ role digest. (ArtifactObservationResult.reused, false)) pairs
        else classify_revised (head, superseded) identity pairs)

-- `if not prior.releases: ...`, and the rest of the function.
unfoldable pub classify_family :
    List CatalogedRelease → Text → List (Text × Text) → Checked ReleaseClassification
unfolding classify_against
classify_family [] identity pairs =
    build_classification ReleaseChange.first_release identity none
      (λ role digest. (ArtifactObservationResult.new, false)) pairs
classify_family (release ∷ releases) identity pairs = do
  resolved ← resolve_unique_head (release ∷ releases)
  classify_against resolved identity pairs

unfoldable pub classify_release :
    (List ℕ → Text) → ObservedRelease → PriorFamilyState → Checked ReleaseClassification
unfolding require_prior_identities classify_family
classify_release hexdigest observed prior = do
  let discovered = observed.discovered
  require (text_eq prior.source_code discovered.source_code) lineage_ambiguous
  require (text_eq prior.release_family_key discovered.release_family_key) lineage_ambiguous
  require_prior_identities hexdigest discovered.identity_scheme prior prior.releases
  classify_family prior.releases observed.release_identity_hash (map digest_pair observed.artifacts)
