-- ===== src/Discovery/Identity/Laws.antt =====
-- What an identity hash that is computed says of its arguments.
use mexican_banking_monitor.Base.{
  ℕ, ◌≡◌, refl, sym, ap, ◌∙◌, true, Option, List, [], ◌∷◌, map, arith, Text, ok, All, text_eq→,
  require, >>=-eq-ok, >>-eq-ok, require-eq-ok,
}
use mexican_banking_monitor.Base.Texts.{text_lt_irrefl, text_lt_asymm}
use mexican_banking_monitor.Base.Json.{dumps}
use mexican_banking_monitor.Base.Sorting.{sort_by, insert_by, IsStrict, Below}
use mexican_banking_monitor.Discovery.Errors.{ErrorKind, source_contract_invalid}
use mexican_banking_monitor.Discovery.Patterns.{is_identifier, is_identity_scheme, is_sha256}
use mexican_banking_monitor.Discovery.Contracts.{
  require_identifier, require_identity_scheme, require_sha256, require_sorted_unique_roles,
}
use mexican_banking_monitor.Discovery.Contracts.Laws.{AreRoles, require_sorted_unique_roles→}
use mexican_banking_monitor.Discovery.Releases.{pair_role, require_digests}
use mexican_banking_monitor.Discovery.Identity.{
  pair_lt, revision_allowed, identity_payload, checked_pairs, artifact_set_identity_hash,
}

-- The pairs of a release: its roles in order, and digests of the form of a SHA-256.
pub record ArePairs (pairs : List (Text × Text)) : Type 0 where
  pub roles : AreRoles (map pair_role pairs)
  pub digests : All (λ p. is_sha256 p.1 ≡ true) pairs

pub require_digests→ :
    (pairs : List (Text × Text)) (e : ErrorKind)
    → require_digests pairs e ≡ ok tt
    → All (λ p. is_sha256 p.1 ≡ true) pairs
unfolding require_digests require_sha256
require_digests→ [] e h = tt
require_digests→ ((r, d) ∷ pairs) e h =
    let (a, b) = >>-eq-ok (require (is_sha256 d) e) _ h in
    (require-eq-ok (is_sha256 d) e a, require_digests→ pairs e b)

pub require_digests← :
    (pairs : List (Text × Text)) (e : ErrorKind)
    → All (λ p. is_sha256 p.1 ≡ true) pairs
    → require_digests pairs e ≡ ok tt
unfolding require_digests require_sha256
require_digests← [] e h = refl
require_digests← ((r, d) ∷ pairs) e h = rw h.0 (require_digests← pairs e h.1)

-- The parts of an identity that passed their checks.
pub record IsIdentity (scheme source_code family : Text) (revision : Option Text)
    (pairs : List (Text × Text)) : Type 0 where
  pub scheme_form : is_identity_scheme scheme ≡ true
  pub source_form : is_identifier source_code ≡ true
  pub family_form : is_identifier family ≡ true
  pub revision_form : revision_allowed revision ≡ true
  pub pairs_form : ArePairs pairs

-- A hash that is computed is that of the payload over the sorted pairs, which are well formed.
pub artifact_set_identity_hash-ok :
    (hexdigest : List ℕ → Text) (scheme source_code family : Text) (revision : Option Text)
    (by_role : List (Text × Text)) (identity : Text)
    → artifact_set_identity_hash hexdigest scheme source_code family revision by_role ≡ ok identity
    → IsIdentity scheme source_code family revision (sort_by pair_lt by_role)
      × (identity
          ≡ hexdigest (
              dumps
                (identity_payload scheme source_code family revision (sort_by pair_lt by_role))))
unfolding artifact_set_identity_hash checked_pairs require_identity_scheme require_identifier
artifact_set_identity_hash-ok hexdigest scheme source_code family revision by_role identity h =
    let (ps, c, k) = >>=-eq-ok (checked_pairs scheme source_code family revision by_role) _ h in
    let (a, c1) = >>-eq-ok (require (is_identity_scheme scheme) source_contract_invalid) _ c in
    let (b, c2) = >>-eq-ok (require (is_identifier source_code) source_contract_invalid) _ c1 in
    let (f, c3) = >>-eq-ok (require (is_identifier family) source_contract_invalid) _ c2 in
    let (r, c4) = >>-eq-ok (require (revision_allowed revision) source_contract_invalid) _ c3 in
    let (g, c5) =
      >>-eq-ok (require_digests (sort_by pair_lt by_role) source_contract_invalid) _ c4 in
    let (s, c6) =
      >>-eq-ok
        (require_sorted_unique_roles (map pair_role (sort_by pair_lt by_role))
          source_contract_invalid)
        _ c5 in
    let same : sort_by pair_lt by_role ≡ ps = cc c6 in
    (
      record {
        scheme_form = require-eq-ok (is_identity_scheme scheme) source_contract_invalid a;
        source_form = require-eq-ok (is_identifier source_code) source_contract_invalid b;
        family_form = require-eq-ok (is_identifier family) source_contract_invalid f;
        revision_form = require-eq-ok (revision_allowed revision) source_contract_invalid r;
        pairs_form = record {
          roles = require_sorted_unique_roles→ _ source_contract_invalid s;
          digests = require_digests→ _ source_contract_invalid g;
        };
      },
      sym (cc k)
          ∙ ap (λ t. hexdigest (dumps (identity_payload scheme source_code family revision t)))
              (sym same),
    )

insert_by-pair :
    (p : Text × Text) (ps : List (Text × Text))
    → Below p.0 (map pair_role ps)
    → insert_by pair_lt p ps ≡ p ∷ ps
unfolding insert_by pair_lt
insert_by-pair p [] b = refl
insert_by-pair (r, d) ((s, e) ∷ ps) b =
    ground (arith, text_lt_asymm r s, text_eq→ s r, text_lt_irrefl r)

-- Pairs whose roles stand in strict order are left alone by the sort.
pub sort_by-pairs :
    (ps : List (Text × Text)) → IsStrict (map pair_role ps) → sort_by pair_lt ps ≡ ps
unfolding sort_by
sort_by-pairs [] s = refl
sort_by-pairs (p ∷ ps) s = rw (sort_by-pairs ps s.1) (insert_by-pair p ps s.0)
