-- ===== src/Migrations/Listing.antt =====
-- The JSON that the database's tool prints: `_load_json_object`, `_require`, `parse_history_json` and
-- `validate_dry_run` (scripts/validate_production_migrations.py). `loads` is `json.loads`, none where it
-- raises a `JSONDecodeError`.
pub mod Accept
use mexican_banking_monitor.Base.{
  ◌≡◌, Bool, true, false, not, ◌&&◌, ◌||◌, Option, none, some, List, [], ◌∷◌, map, Text, codes,
  text_eq, Result, ok, err, require, ◌>>=◌, ◌>>◌, if◌then◌else◌,
}
use mexican_banking_monitor.Base.Json.{
  Json, boolean, string, array, object, Items, nil, cons, Fields, end, field,
}
use mexican_banking_monitor.Base.Sorting.{texts_eq}
use mexican_banking_monitor.Migrations.History.{Migration, HistoryRow}

pub data ListingError : Type 0 where
  invalid_json root_not_object row_not_object row_without_version : ListingError
  not_dry_run planned_not_strings unexpected_seeds unexpected_roles : ListingError
  plan_differs up_to_date_inconsistent : ListingError
  missing_field : Text → ListingError
  wrong_type : Text → ListingError

abbrev pub root_fields : Option Json → Result ListingError Fields
root_fields none = err invalid_json
root_fields (some (object payload)) = ok payload
root_fields (some _) = err root_not_object

unfoldable pub load_json_object : (Text → Option Json) → Text → Result ListingError Fields
load_json_object loads text = root_fields (loads text)

abbrev pub field_value : Text → Fields → Option Json
field_value name end = none
field_value name (field key value rest) =
    if text_eq key name then some value else field_value name rest

-- The values of a Python type.
abbrev pub as_text : Json → Option Text
as_text (string value) = some value
as_text _ = none

abbrev pub as_list : Json → Option Items
as_list (array items) = some items
as_list _ = none

abbrev pub as_bool : Json → Option Bool
as_bool (boolean value) = some value
as_bool _ = none

abbrev pub typed : {A : Type 0} → Text → Option A → Result ListingError A
typed name none = err (wrong_type name)
typed name (some value) = ok value

abbrev pub present : {A : Type 0} → (Json → Option A) → Text → Option Json → Result ListingError A
present type_of name none = err (missing_field name)
present type_of name (some value) = typed name (type_of value)

-- `_require`
abbrev pub require_field : {A : Type 0} → (Json → Option A) → Fields → Text → Result ListingError A
require_field type_of payload name = present type_of name (field_value name payload)

-- row[field] or None
abbrev pub non_empty : Text → Option Text
non_empty [] = none
non_empty (c ∷ version) = some (c ∷ version)

abbrev pub history_row : Option Text → Option Text → Result ListingError HistoryRow
history_row none none = err row_without_version
history_row local remote = ok (record { local = local; remote = remote })

unfoldable pub parse_row : Json → Result ListingError HistoryRow
parse_row (object row) = do
  local ← require_field as_text row (codes "local")
  remote ← require_field as_text row (codes "remote")
  time ← require_field as_text row (codes "time")
  history_row (non_empty local) (non_empty remote)
parse_row _ = err row_not_object

unfoldable pub parse_rows : Items → Result ListingError (List HistoryRow)
unfolding parse_row
parse_rows nil = ok []
parse_rows (cons row rows) =
    parse_row row >>= λ first. parse_rows rows >>= λ rest. ok (first ∷ rest)

unfoldable pub parse_history_json :
    (Text → Option Json) → Text → Result ListingError (List HistoryRow)
unfolding load_json_object parse_rows
parse_history_json loads text = do
  payload ← load_json_object loads text
  migrations ← require_field as_list payload (codes "migrations")
  parse_rows migrations

abbrev pub onto : Option Text → Option (List Text) → Option (List Text)
onto (some value) (some values) = some (value ∷ values)
onto _ _ = none

-- The items, where all are strings.
abbrev pub all_texts : Items → Option (List Text)
all_texts nil = some []
all_texts (cons item items) = onto (as_text item) (all_texts items)

abbrev pub texts_or : Option (List Text) → Result ListingError (List Text)
texts_or none = err planned_not_strings
texts_or (some values) = ok values

abbrev pub is_nil : Items → Bool
is_nil nil = true
is_nil (cons item items) = false

abbrev pub is_empty : List Text → Bool
is_empty [] = true
is_empty (name ∷ names) = false

abbrev pub same_bool : Bool → Bool → Bool
same_bool true b = b
same_bool false b = not b

abbrev pub file_name : Migration → Text
file_name migration = migration.path

unfoldable pub validate_dry_run :
    (Text → Option Json) → Text → List Migration → Result ListingError Unit
unfolding load_json_object
validate_dry_run loads text pending = do
  payload ← load_json_object loads text
  dry_run ← require_field as_bool payload (codes "dryRun")
  require dry_run not_dry_run
  up_to_date ← require_field as_bool payload (codes "upToDate")
  planned ← require_field as_list payload (codes "migrations")
  seeds ← require_field as_list payload (codes "seeds")
  roles ← require_field as_list payload (codes "roles")
  names ← texts_or (all_texts planned)
  require (is_nil seeds) unexpected_seeds
  require (is_nil roles) unexpected_roles
  require (texts_eq names (map file_name pending)) plan_differs
  require (same_bool up_to_date (is_empty (map file_name pending))) up_to_date_inconsistent
