-- ===== src/Discovery/Tests.antt =====
-- The theorems on the discovery rules at concrete releases: one family, its first release and a
-- second one with another digest. The digest function of these runs has two values.
use mexican_banking_monitor.Base.{
  ℕ, ◌+◌, ◌%◌, ◌≡◌, refl, inl, inr, ◌⊎◌, true, false, none, some, List, [], ◌∷◌, Text, codes, ok,
  err, if◌then◌else◌, ◌==◌, Bool-cases, text_eq, contains, ◌≤◌, length,
}
use mexican_banking_monitor.Base.Regex.{fullmatch}
use mexican_banking_monitor.Base.Sorting.{texts_eq, sorted_set, sort_by}
use mexican_banking_monitor.Base.Json.{dumps}
use mexican_banking_monitor.Discovery.Identity.{
  artifact_set_identity_hash, identity_payload, release_identity_hash,
}
use mexican_banking_monitor.Discovery.Contracts.{
  require_identifier, require_identity_scheme, require_sorted_unique_roles, require_sha256,
}
use mexican_banking_monitor.Base.Int.{pos}
use mexican_banking_monitor.Base.Distinct.{IsDistinct}
use mexican_banking_monitor.Discovery.Errors.{ErrorKind, lineage_ambiguous, empty_artifact}
use mexican_banking_monitor.Discovery.Patterns.{is_sha256, is_identifier, is_identity_scheme}
use mexican_banking_monitor.Discovery.Records.{
  csv, Datetime, HttpObservation, lf, csv_text, format_eq, check_release_metadata,
  check_artifact_metadata, require_structure, exact_observed_artifact_set,
}
use mexican_banking_monitor.Discovery.Releases.{
  DiscoveredRelease, ValidatedArtifact, ObservedRelease, CatalogedRelease, PriorFamilyState,
  check_discovered_release, check_cataloged_release, metadata_of, from_artifacts, require_digests,
}
use mexican_banking_monitor.Discovery.Observe.{
  datetime_eq, check_observed_release, roles_and_formats_match, earliest, release_metadata_eq,
}
use mexican_banking_monitor.Discovery.Lineage.{find_release, resolve_unique_head}
use mexican_banking_monitor.Discovery.Lineage.Chain.{oldest, IsLineage, identities}
use mexican_banking_monitor.Discovery.Lineage.Resolve.{
  resolve_unique_head_sound, resolve_unique_head_complete, resolve_unique_head-err, SameTexts,
}
use mexican_banking_monitor.Discovery.Observe.Laws.{observed-IsIdentity}
use mexican_banking_monitor.Discovery.Identity.Laws.{IsIdentity}
use mexican_banking_monitor.Discovery.Summary.{sanitize_summary, safe_summary}
use mexican_banking_monitor.Discovery.Summary.Laws.{
  IsLine, IsAuditSummary, sanitize_summary_idem, safe_summary-IsAuditSummary,
}
use mexican_banking_monitor.Discovery.Classify.Evolution.{
  cataloged, classify_release-extends, classify_release-IsLineage,
}
use mexican_banking_monitor.Discovery.Classify.{
  ReleaseClassification, require_prior_identities, classify_release,
}
use mexican_banking_monitor.Discovery.Classify.Outcome.{
  IsFamilyOf, outcome, revised_outcome, first_outcome, classify_release-outcome,
  classify_release-first,
}

abbrev even_digest : Text
even_digest = codes "eeeeeeeeeeeeeeeeeeeeeeeeeeeeeeeeeeeeeeeeeeeeeeeeeeeeeeeeeeeeeeee"

abbrev odd_digest : Text
odd_digest = codes "ddddddddddddddddddddddddddddddddddddddddddddddddddddddddddddddde"

abbrev weight : List ℕ → ℕ
weight [] = 0
weight (b ∷ bytes) = b + weight bytes

abbrev parity_digest : List ℕ → Text
parity_digest bytes = if weight bytes % 2 == 0 then even_digest else odd_digest

parity_digest-is_sha256 : (b : List ℕ) → is_sha256 (parity_digest b) ≡ true
unfolding is_sha256 fullmatch
parity_digest-is_sha256 b = elim (Bool-cases (weight b % 2 == 0)) [ inl e ↦ rw e | inr e ↦ rw e ]

abbrev now : Datetime
now = record { instant = 5; utcoffset = some (pos 0) }

abbrev exchange : HttpObservation
exchange = record {
  requested_url = codes "https://cnbv.example/a.csv";
  final_url = codes "https://cnbv.example/a.csv";
  redirect_chain = [];
  status_code = 200;
  content_type = none;
  content_length = none;
  content_encoding = none;
  etag = none;
  last_modified = none;
  content_disposition = none;
  observed_at = now;
}

-- The content decides the digest.
abbrev artifact_of : List ℕ → ValidatedArtifact
artifact_of content = record {
  artifact_role = codes "datos";
  artifact_format = csv;
  filename = codes "a.csv";
  catalog_mime_type = codes "text/csv";
  sha256 = parity_digest content;
  byte_length = length content;
  content = content;
  http = exchange;
  structure =
      csv_text (record { header_sha256 = even_digest; has_bom = false; line_terminator = lf });
}

abbrev discovered_release : DiscoveredRelease
discovered_release = record {
  source_code = codes "cnbv";
  source_definition_version = 1;
  release_family_key = codes "cartera";
  identity_scheme = codes "cnbv.v1";
  artifacts =
      record {
        artifact_role = codes "datos";
        artifact_format = csv;
        original_url = codes "https://cnbv.example/a.csv";
      }
      ∷ [];
  revision = none;
  published_at = none;
  covered_period_start = none;
  covered_period_end = none;
}

abbrev observed_release : List ℕ → Text → ObservedRelease
observed_release content identity = record {
  discovered = discovered_release;
  artifacts = artifact_of content ∷ [];
  release_identity_hash = identity;
  first_observed_at = now;
  metadata = record {
    identity_scheme = codes "cnbv.v1";
    snapshot_semantics = exact_observed_artifact_set;
    artifacts = metadata_of (artifact_of content) ∷ [];
  };
}

abbrev family : List CatalogedRelease → PriorFamilyState
family releases = record {
  source_code = codes "cnbv";
  release_family_key = codes "cartera";
  releases = releases;
}

discovered_ok : check_discovered_release discovered_release ≡ ok tt
unfolding check_discovered_release require_identifier is_identifier fullmatch
    require_identity_scheme is_identity_scheme require_sorted_unique_roles texts_eq sorted_set
    text_eq
discovered_ok = refl

-- The first release is of the content 2, and the second of the content 1.
abbrev first_cataloged : CatalogedRelease
first_cataloged = record {
  release_identity_hash = odd_digest;
  supersedes_release_identity_hash = none;
  artifact_sha256_by_role = (codes "datos", even_digest) ∷ [];
}

-- A naive datetime is no aware one.
naive_differs :
    datetime_eq
      (record { instant = 7; utcoffset = none })
      (record { instant = 7; utcoffset = some (pos 0) })
    ≡ false
unfolding datetime_eq
naive_differs = refl

first_ok : check_observed_release parity_digest (observed_release (2 ∷ []) odd_digest) ≡ ok tt
unfolding check_observed_release roles_and_formats_match release_identity_hash earliest
    from_artifacts release_metadata_eq format_eq check_release_metadata check_artifact_metadata
    require_structure require_identity_scheme is_identity_scheme fullmatch require_identifier
    is_identifier require_digests sort_by require_sha256 is_sha256 require_sorted_unique_roles
    texts_eq sorted_set text_eq dumps identity_payload artifact_set_identity_hash
first_ok = refl

second_ok : check_observed_release parity_digest (observed_release (1 ∷ []) even_digest) ≡ ok tt
unfolding check_observed_release roles_and_formats_match release_identity_hash earliest
    from_artifacts release_metadata_eq format_eq check_release_metadata check_artifact_metadata
    require_structure require_identity_scheme is_identity_scheme fullmatch require_identifier
    is_identifier require_digests sort_by require_sha256 is_sha256 require_sorted_unique_roles
    texts_eq sorted_set text_eq dumps identity_payload artifact_set_identity_hash
second_ok = refl

cataloged_ok : check_cataloged_release first_cataloged ≡ ok tt
unfolding check_cataloged_release require_sha256 is_sha256 fullmatch require_sorted_unique_roles
    is_identifier texts_eq sorted_set text_eq
cataloged_ok = refl

recorded_ok :
    require_prior_identities parity_digest
      (codes "cnbv.v1")
      (family (first_cataloged ∷ []))
      (first_cataloged ∷ [])
    ≡ ok tt
unfolding require_prior_identities require_identity_scheme is_identity_scheme fullmatch
    require_identifier is_identifier require_digests sort_by require_sha256 is_sha256
    require_sorted_unique_roles texts_eq sorted_set text_eq dumps identity_payload
    artifact_set_identity_hash
recorded_ok = refl

lineage : IsLineage (first_cataloged ∷ []) first_cataloged []
unfolding find_release text_eq contains
lineage = record {
  chain = oldest first_cataloged refl;
  member = refl;
  distinct = (refl, tt);
  complete = refl;
}

-- The second release, observed while the first is recorded.
second_family :
    IsFamilyOf parity_digest (observed_release (1 ∷ []) even_digest) (family (first_cataloged ∷ []))
unfolding contains
second_family = record {
  discovered_ok = discovered_ok;
  observed_ok = second_ok;
  distinct = (refl, tt);
  cataloged_ok = (cataloged_ok, tt);
  source = refl;
  family = refl;
  identities_ok = recorded_ok;
}

first_family : IsFamilyOf parity_digest (observed_release (2 ∷ []) odd_digest) (family [])
unfolding require_prior_identities
first_family = record {
  discovered_ok = discovered_ok;
  observed_ok = first_ok;
  distinct = tt;
  cataloged_ok = tt;
  source = refl;
  family = refl;
  identities_ok = refl;
}

IsDistinct-one : IsDistinct (identities (first_cataloged ∷ []))
unfolding contains
IsDistinct-one = (refl, tt)

abbrev second_outcome : ReleaseClassification
second_outcome = revised_outcome first_cataloged even_digest ((codes "datos", odd_digest) ∷ [])

second_classified :
    classify_release parity_digest
      (observed_release (1 ∷ []) even_digest)
      (family (first_cataloged ∷ []))
    ≡ ok second_outcome
unfolding texts_eq text_eq contains
second_classified =
    classify_release-outcome parity_digest parity_digest-is_sha256
      (observed_release (1 ∷ []) even_digest) (family (first_cataloged ∷ [])) second_family
      first_cataloged [] lineage

-- Two releases that supersede each other are no lineage.
abbrev cyclic : Text → Text → CatalogedRelease
cyclic identity predecessor = record {
  release_identity_hash = identity;
  supersedes_release_identity_hash = some predecessor;
  artifact_sha256_by_role = [];
}

IsDistinct-two :
    IsDistinct (identities (cyclic even_digest odd_digest ∷ cyclic odd_digest even_digest ∷ []))
unfolding contains text_eq
IsDistinct-two = (refl, (refl, tt))

cycle_refused :
    resolve_unique_head (cyclic even_digest odd_digest ∷ cyclic odd_digest even_digest ∷ [])
    ≡ err lineage_ambiguous
unfolding resolve_unique_head text_eq contains
cycle_refused = refl

head_resolved : resolve_unique_head (first_cataloged ∷ []) ≡ ok (first_cataloged, [])
unfolding resolve_unique_head contains text_eq
head_resolved = refl

classify_release-outcome_example :
    classify_release parity_digest
      (observed_release (1 ∷ []) even_digest)
      (family (first_cataloged ∷ []))
    ≡ outcome first_cataloged [] even_digest ((codes "datos", odd_digest) ∷ [])
classify_release-outcome_example =
    classify_release-outcome parity_digest parity_digest-is_sha256
      (observed_release (1 ∷ []) even_digest) (family (first_cataloged ∷ [])) second_family
      first_cataloged [] lineage

classify_release-first_example :
    classify_release parity_digest (observed_release (2 ∷ []) odd_digest) (family [])
    ≡ ok (first_outcome odd_digest ((codes "datos", even_digest) ∷ []))
classify_release-first_example =
    classify_release-first parity_digest parity_digest-is_sha256
      (observed_release (2 ∷ []) odd_digest) (family []) first_family refl

classify_release-extends_example :
    IsDistinct (
      identities
        (first_cataloged ∷ cataloged (observed_release (1 ∷ []) even_digest) second_outcome ∷ []))
    × IsLineage
        (first_cataloged ∷ cataloged (observed_release (1 ∷ []) even_digest) second_outcome ∷ [])
        (cataloged (observed_release (1 ∷ []) even_digest) second_outcome)
        (odd_digest ∷ [])
classify_release-extends_example =
    classify_release-extends parity_digest parity_digest-is_sha256
      (observed_release (1 ∷ []) even_digest) (family (first_cataloged ∷ [])) second_family
      first_cataloged [] lineage second_outcome second_classified refl

classify_release-IsLineage_example :
    ((first_cataloged ∷ []) ≡ [])
    ⊎ ((head : CatalogedRelease) × (ids : List Text) × IsLineage (first_cataloged ∷ []) head ids)
classify_release-IsLineage_example =
    classify_release-IsLineage parity_digest (observed_release (1 ∷ []) even_digest)
      (family (first_cataloged ∷ [])) second_outcome IsDistinct-one second_classified

resolve_unique_head_sound_example :
    (ids : List Text) × IsLineage (first_cataloged ∷ []) first_cataloged ids × SameTexts [] ids
resolve_unique_head_sound_example =
    resolve_unique_head_sound (first_cataloged ∷ []) first_cataloged [] IsDistinct-one head_resolved

resolve_unique_head_complete_example :
    (superseded : List Text) × (resolve_unique_head (first_cataloged ∷ [])
      ≡ ok (first_cataloged, superseded))
    × SameTexts superseded []
resolve_unique_head_complete_example =
    resolve_unique_head_complete (first_cataloged ∷ []) first_cataloged [] IsDistinct-one lineage

resolve_unique_head-err_example : ◌≡◌ {A = ErrorKind} lineage_ambiguous lineage_ambiguous
resolve_unique_head-err_example =
    resolve_unique_head-err (cyclic even_digest odd_digest ∷ cyclic odd_digest even_digest ∷ [])
      lineage_ambiguous IsDistinct-two cycle_refused

observed-IsIdentity_example :
    IsIdentity
      (codes "cnbv.v1")
      (codes "cnbv")
      (codes "cartera")
      none
      ((codes "datos", even_digest) ∷ [])
    × (artifact_set_identity_hash parity_digest
          (codes "cnbv.v1")
          (codes "cnbv")
          (codes "cartera")
          none
          ((codes "datos", even_digest) ∷ [])
        ≡ ok odd_digest)
observed-IsIdentity_example =
    observed-IsIdentity parity_digest (observed_release (2 ∷ []) odd_digest) discovered_ok first_ok

sanitize_summary_idem_example :
    IsLine (sanitize_summary (codes " two  words "))
    × (length (sanitize_summary (codes " two  words ")) ≤ 512)
    × (sanitize_summary (sanitize_summary (codes " two  words "))
        ≡ sanitize_summary (codes " two  words "))
sanitize_summary_idem_example = sanitize_summary_idem (codes " two  words ")

safe_summary-IsAuditSummary_example :
    IsAuditSummary (safe_summary empty_artifact (some (codes "  ")))
safe_summary-IsAuditSummary_example = safe_summary-IsAuditSummary empty_artifact (some (codes "  "))
