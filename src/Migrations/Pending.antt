-- ===== src/Migrations/Pending.antt =====
-- The list of pending migrations that one step of the deployment writes and the next reads:
-- `_write_pending` and `read_pending_file` (scripts/validate_production_migrations.py).
pub mod RoundTrip
use mexican_banking_monitor.Base.{
  ℕ, Bool, true, false, not, ◌||◌, Option, none, some, List, [], ◌∷◌, ◌++◌, Text, text_eq, Result,
  ok, err, if◌then◌else◌, between, ◌==◌,
}
use mexican_banking_monitor.Discovery.Summary.{strip, is_blank}
use mexican_banking_monitor.Migrations.History.{Migration}

-- The text that is written.
unfoldable pub pending_text : List Migration → Text
pending_text [] = []
pending_text (migration ∷ pending) = migration.path ++ 10 ∷ pending_text pending

-- A character at which `str.splitlines()` ends a line.
unfoldable pub is_line_break : ℕ → Bool
is_line_break c =
    (between 10 13 c || between 28 30 c) || ((c == 0x85) || ((c == 0x2028) || (c == 0x2029)))

abbrev pub onto_line : ℕ → List Text → List Text
onto_line c [] = (c ∷ []) ∷ []
onto_line c (line ∷ lines) = (c ∷ line) ∷ lines

-- text.splitlines(), but for an empty line between "\r" and "\n", which is dropped with the blank ones.
unfoldable pub splitlines : Text → List Text
unfolding is_line_break
splitlines [] = []
splitlines (c ∷ text) =
    let rest = splitlines text in if is_line_break c then [] ∷ rest else onto_line c rest

-- [line.strip() for line in lines if line.strip()]
unfoldable pub stripped_names : List Text → List Text
unfolding strip is_blank
stripped_names [] = []
stripped_names (line ∷ lines) =
    let rest = stripped_names lines in if is_blank line then rest else strip line ∷ rest

-- `by_name.get(name)`: the last migration of that name.
unfoldable pub by_name : Text → List Migration → Option Migration
by_name name [] = none
by_name name (migration ∷ migrations) = elim (by_name name migrations) [
  | some later ↦ some later
  | none ↦ if text_eq migration.path name then some migration else none
]

-- Either the migrations of all names, or the names that are unknown.
abbrev pub selecting :
    Text
    → Option Migration
    → Result (List Text) (List Migration)
    → Result (List Text) (List Migration)
selecting name (some migration) (ok rest) = ok (migration ∷ rest)
selecting name (some migration) (err unknown) = err unknown
selecting name none (ok rest) = err (name ∷ [])
selecting name none (err unknown) = err (name ∷ unknown)

unfoldable pub select_names : List Migration → List Text → Result (List Text) (List Migration)
unfolding by_name
select_names migrations [] = ok []
select_names migrations (name ∷ names) =
    selecting name (by_name name migrations) (select_names migrations names)

-- Of the file's text.
unfoldable pub read_pending_file : Text → List Migration → Result (List Text) (List Migration)
unfolding stripped_names splitlines select_names
read_pending_file text migrations = select_names migrations (stripped_names (splitlines text))
