-- ===== src/Migrations/History.antt =====
-- The comparison of the remote migration history with the repository
-- (`validate_history` in scripts/validate_production_migrations.py). An error keeps the message's
-- kind and the values that the message names.
pub mod Laws
pub mod Accept
use mexican_banking_monitor.Base.{
  ◌≡◌, Bool, true, false, not, Option, none, some, List, [], ◌∷◌, map, Text, text_eq, Result, ok,
  err, require, ◌>>=◌, ◌>>◌, if◌then◌else◌, contains,
}
use mexican_banking_monitor.Base.Sorting.{texts_eq}

pub data HistoryError : Type 0 where
  local_versions_differ : HistoryError
  duplicate_remote_versions : HistoryError
  no_common_baseline : HistoryError
  diverges : Text → Text → HistoryError
  history_gap : HistoryError
  missing_locally : Text → HistoryError
  not_aligned : List Text → HistoryError
  unknown_version : Text → HistoryError

-- `path` is its name, the one part of it that the checks of the history read.
pub record Migration : Type 0 where
  pub version : Text
  pub path : Text

pub record HistoryRow : Type 0 where
  pub local : Option Text
  pub remote : Option Text

-- [row.local for row in rows if row.local is not None]
unfoldable pub local_versions : List HistoryRow → List Text
local_versions [] = []
local_versions (row ∷ rows) = elim row.local [
  | none ↦ local_versions rows
  | some version ↦ version ∷ local_versions rows
]

-- [row.remote for row in rows if row.remote is not None]
unfoldable pub remote_versions : List HistoryRow → List Text
remote_versions [] = []
remote_versions (row ∷ rows) = elim row.remote [
  | none ↦ remote_versions rows
  | some version ↦ version ∷ remote_versions rows
]

-- len(versions) == len(set(versions))
unfoldable pub all_different : List Text → Bool
all_different [] = true
all_different (version ∷ versions) =
    if contains version versions then false else all_different versions

-- The loop over the rows: the versions it appends to `pending_versions` from here on.
unfoldable pub pending_from : Bool → List HistoryRow → Result HistoryError (List Text)
pending_from saw_pending [] = ok []
pending_from saw_pending (row ∷ rows) = elim row.local [
  | some local ↦ elim row.remote [
    | some remote ↦
        require (text_eq local remote) (diverges local remote)
        >> (require (not saw_pending) history_gap >> pending_from saw_pending rows)
    | none ↦ pending_from true rows >>= λ rest. ok (local ∷ rest)
  ]
  | none ↦ elim row.remote [
    | some remote ↦ err (missing_locally remote)
    | none ↦ pending_from saw_pending rows
  ]
]

-- `by_version[version]`: the last migration of that version.
unfoldable pub by_version : Text → List Migration → Option Migration
by_version version [] = none
by_version version (migration ∷ migrations) = elim (by_version version migrations) [
  | some later ↦ some later
  | none ↦ if text_eq migration.version version then some migration else none
]

unfoldable pub select_versions : List Migration → List Text → Result HistoryError (List Migration)
unfolding by_version
select_versions migrations [] = ok []
select_versions migrations (version ∷ versions) = elim (by_version version migrations) [
  | none ↦ err (unknown_version version)
  | some migration ↦ select_versions migrations versions >>= λ rest. ok (migration ∷ rest)
]

abbrev pub is_none_pending : List Text → Bool
is_none_pending [] = true
is_none_pending (version ∷ versions) = false

abbrev pub migration_version : Migration → Text
migration_version migration = migration.version

unfoldable pub validate_history :
    List HistoryRow → List Migration → Bool → Result HistoryError (List Migration)
unfolding local_versions remote_versions all_different pending_from select_versions
validate_history rows migrations require_aligned = do
  require (texts_eq (local_versions rows) (map migration_version migrations)) local_versions_differ
  require (all_different (remote_versions rows)) duplicate_remote_versions
  require (not (is_none_pending (remote_versions rows))) no_common_baseline
  pending_versions ← pending_from false rows
  require (if require_aligned then is_none_pending pending_versions else true)
      (not_aligned pending_versions)
  select_versions migrations pending_versions
