-- ===== src/Discovery/Contracts.antt =====
-- The `_require_*` checks of ingestion/discovery.py. The text of a message is not modelled.
pub mod Laws
use mexican_banking_monitor.Base.{
  ℕ, Bool, true, false, List, [], ◌∷◌, Text, require, ◌>>◌, ◌>>=◌, ok, not,
}
use mexican_banking_monitor.Base.Sorting.{texts_eq, sorted_set}
use mexican_banking_monitor.Discovery.Errors.{ErrorKind, Checked}
use mexican_banking_monitor.Discovery.Patterns.{is_identifier, is_identity_scheme, is_sha256}
use mexican_banking_monitor.Discovery.Summary.{is_empty}

unfoldable pub require_identifier : Text → ErrorKind → Checked Unit
require_identifier value error = require (is_identifier value) error

unfoldable pub require_identity_scheme : Text → ErrorKind → Checked Unit
require_identity_scheme value error = require (is_identity_scheme value) error

unfoldable pub require_sha256 : Text → ErrorKind → Checked Unit
require_sha256 value error = require (is_sha256 value) error

-- `for role in roles: _require_identifier(role, ...)`
unfoldable pub require_identifiers : List Text → ErrorKind → Checked Unit
unfolding require_identifier
require_identifiers [] error = ok tt
require_identifiers (role ∷ roles) error =
    require_identifier role error >> require_identifiers roles error

unfoldable pub require_sorted_unique_roles : List Text → ErrorKind → Checked Unit
unfolding require_identifiers
require_sorted_unique_roles roles error = do
  require (not (is_empty roles)) error
  require_identifiers roles error
  require (texts_eq roles (sorted_set roles)) error
