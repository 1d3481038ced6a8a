-- ===== src/Discovery/Contracts/Laws.antt =====
-- What the contract checks say when they pass.
use mexican_banking_monitor.Base.{
  ◌≡◌, refl, Bool, true, false, not, List, [], ◌∷◌, Text, ok, All, require, >>-eq-ok, require-eq-ok,
}
use mexican_banking_monitor.Base.Sorting.{IsStrict, sorted_set_iff, texts_eq, sorted_set}
use mexican_banking_monitor.Discovery.Errors.{ErrorKind}
use mexican_banking_monitor.Discovery.Patterns.{is_identifier}
use mexican_banking_monitor.Discovery.Summary.{is_empty}
use mexican_banking_monitor.Discovery.Contracts.{
  require_identifier, require_identifiers, require_sorted_unique_roles,
}

require_identifiers→ :
    (roles : List Text) (e : ErrorKind)
    → require_identifiers roles e ≡ ok tt
    → All (λ r. is_identifier r ≡ true) roles
unfolding require_identifiers require_identifier
require_identifiers→ [] e h = tt
require_identifiers→ (r ∷ roles) e h =
    let (a, b) = >>-eq-ok (require (is_identifier r) e) _ h in
    (require-eq-ok (is_identifier r) e a, require_identifiers→ roles e b)

require_identifiers← :
    (roles : List Text) (e : ErrorKind)
    → All (λ r. is_identifier r ≡ true) roles
    → require_identifiers roles e ≡ ok tt
unfolding require_identifiers require_identifier
require_identifiers← [] e h = refl
require_identifiers← (r ∷ roles) e h = rw h.0 (require_identifiers← roles e h.1)

-- Roles that are there, are identifiers, and stand in strict order.
pub record AreRoles (roles : List Text) : Type 0 where
  pub some_role : is_empty roles ≡ false
  pub identifiers : All (λ r. is_identifier r ≡ true) roles
  pub strict : IsStrict roles

-- The check of the roles passes exactly on a non-empty list of identifiers in strict order.
pub require_sorted_unique_roles→ :
    (roles : List Text) (e : ErrorKind)
    → require_sorted_unique_roles roles e ≡ ok tt
    → AreRoles roles
unfolding require_sorted_unique_roles
require_sorted_unique_roles→ roles e h =
    let (a, k) = >>-eq-ok (require (not (is_empty roles)) e) _ h in
    let (b, c) = >>-eq-ok (require_identifiers roles e) _ k in
    record {
      some_role = not_true (is_empty roles) (require-eq-ok (not (is_empty roles)) e a);
      identifiers = require_identifiers→ roles e b;
      strict = (sorted_set_iff roles).0 (require-eq-ok (texts_eq roles (sorted_set roles)) e c);
    }
  where
    not_true : (b : Bool) → not b ≡ true → b ≡ false
    not_true true p = cc
    not_true false p = refl

pub require_sorted_unique_roles← :
    (roles : List Text) (e : ErrorKind)
    → AreRoles roles
    → require_sorted_unique_roles roles e ≡ ok tt
unfolding require_sorted_unique_roles
require_sorted_unique_roles← roles e h =
    rw h.some_role
      (rw (require_identifiers← roles e h.identifiers) (rw ((sorted_set_iff roles).1 h.strict)))
