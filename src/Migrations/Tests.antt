-- ===== src/Migrations/Tests.antt =====
-- The theorems on the migration checks at concrete histories and SQL texts.
use mexican_banking_monitor.Base.{
  ◌≡◌, refl, false, true, Option, some, Text, [], ◌∷◌, ◌++◌, map, codes, ok, err, contains, text_eq,
  All,
}
use mexican_banking_monitor.Base.Sorting.{texts_eq}
use mexican_banking_monitor.Base.Distinct.{IsDistinct}
use mexican_banking_monitor.Migrations.History.{
  HistoryError, Migration, migration_version, validate_history,
}
use mexican_banking_monitor.Migrations.History.Laws.{applied_row, pending_row}
use mexican_banking_monitor.Migrations.History.Accept.{
  IsPlan, validate_history-IsPlan, validate_history-plan,
}
use mexican_banking_monitor.Base.Json.{
  Json, boolean, string, array, object, nil, cons, Fields, end, field,
}
use mexican_banking_monitor.Discovery.Summary.{is_space}
use mexican_banking_monitor.Migrations.Listing.{file_name, plan_differs, validate_dry_run}
use mexican_banking_monitor.Migrations.Listing.Accept.{IsGated, validate_dry_run-IsGated}
use mexican_banking_monitor.Migrations.Pending.{pending_text, is_line_break, read_pending_file}
use mexican_banking_monitor.Migrations.Pending.RoundTrip.{
  IsFileName, read_pending_file-validate_history,
}
use mexican_banking_monitor.Migrations.Sql.{
  normal, single_quote, unterminated, scan, starts_with, is_line_end,
  strip_sql_literals_and_comments,
}
use mexican_banking_monitor.Migrations.Sql.Blanks.{IsScan, strip_sql_literals_and_comments-IsScan}
use mexican_banking_monitor.Migrations.Sql.Literals.{
  IsLiteralCharacter, blanked, followed, in_mode, scan-line_comment, scan-single_quote,
}

abbrev initial : Migration
initial = record { version = codes "202608250001"; path = codes "202608250001_initial_schema.sql" }

abbrev later : Migration
later = record { version = codes "20260901000000"; path = codes "20260901000000_catalog.sql" }

IsDistinct-versions : IsDistinct (map migration_version (initial ∷ later ∷ []))
unfolding contains text_eq
IsDistinct-versions = (refl, (refl, tt))

history_accepted :
    validate_history (applied_row initial ∷ pending_row later ∷ []) (initial ∷ later ∷ []) false
    ≡ ok (later ∷ [])
unfolding validate_history texts_eq text_eq contains
history_accepted = refl

-- A remote version behind a pending one is a gap.
history_with_gap :
    validate_history (pending_row initial ∷ applied_row later ∷ []) (initial ∷ later ∷ []) false
    ≡ err HistoryError.history_gap
unfolding validate_history texts_eq text_eq contains
history_with_gap = refl

stripped : strip_sql_literals_and_comments (codes "a 'b' -- c") ≡ ok (codes "a         ")
unfolding strip_sql_literals_and_comments
stripped = refl

unterminated_quote :
    strip_sql_literals_and_comments (codes "a 'b") ≡ err (unterminated single_quote)
unfolding strip_sql_literals_and_comments
unterminated_quote = refl

validate_history-IsPlan_example :
    IsPlan (applied_row initial ∷ pending_row later ∷ []) (initial ∷ later ∷ []) false (later ∷ [])
validate_history-IsPlan_example =
    validate_history-IsPlan (applied_row initial ∷ pending_row later ∷ []) (initial ∷ later ∷ [])
      false (later ∷ []) IsDistinct-versions history_accepted

validate_history-plan_example :
    validate_history (applied_row initial ∷ pending_row later ∷ []) (initial ∷ later ∷ []) false
    ≡ ok (later ∷ [])
validate_history-plan_example =
    validate_history-plan (initial ∷ []) (later ∷ []) false IsDistinct-versions (λ e. cc e)
      (λ e. cc e)

strip_sql_literals_and_comments-IsScan_example :
    IsScan (strip_sql_literals_and_comments (codes "SELECT 1; -- x")) (codes "SELECT 1; -- x")
strip_sql_literals_and_comments-IsScan_example =
    strip_sql_literals_and_comments-IsScan (codes "SELECT 1; -- x")

no_line_ends : All (λ c. is_line_end c ≡ false) (codes "ab")
unfolding is_line_end
no_line_ends = (refl, (refl, tt))

literal_text : All IsLiteralCharacter (codes "ab")
unfolding is_line_end
literal_text = (
  record { no_quote = refl; no_backslash = refl; no_line_end = refl },
  (record { no_quote = refl; no_backslash = refl; no_line_end = refl }, tt),
)

no_further_quote : starts_with (b'\'' ∷ []) (codes ";") ≡ false
unfolding starts_with
no_further_quote = refl

scan-line_comment_example :
    scan 6 (in_mode normal 0 []) (b'-' ∷ b'-' ∷ codes "ab" ++ 10 ∷ codes ";")
    ≡ followed
        (32 ∷ 32 ∷ blanked (codes "ab") ++ 10 ∷ [])
        (scan 1 (in_mode normal 0 []) (codes ";"))
scan-line_comment_example = scan-line_comment 0 [] (codes "ab") (codes ";") no_line_ends

scan-single_quote_example :
    scan 5 (in_mode normal 0 []) (b'\'' ∷ codes "ab" ++ b'\'' ∷ codes ";")
    ≡ followed (32 ∷ blanked (codes "ab") ++ 32 ∷ []) (scan 1 (in_mode normal 0 []) (codes ";"))
scan-single_quote_example =
    scan-single_quote 0 [] (codes "ab") (codes ";") literal_text no_further_quote

IsDistinct-names : IsDistinct (map file_name (initial ∷ later ∷ []))
unfolding contains text_eq
IsDistinct-names = (refl, (refl, tt))

IsFileName-names : All IsFileName (map file_name (initial ∷ later ∷ []))
unfolding is_line_break is_space
IsFileName-names = (refl, (refl, tt))

read_pending_file-validate_history_example :
    read_pending_file (pending_text (later ∷ [])) (initial ∷ later ∷ []) ≡ ok (later ∷ [])
read_pending_file-validate_history_example =
    read_pending_file-validate_history (applied_row initial ∷ pending_row later ∷ [])
      (initial ∷ later ∷ []) false (later ∷ []) IsDistinct-versions IsDistinct-names
      IsFileName-names history_accepted

abbrev dry_run_fields : Fields
dry_run_fields = field (codes "dryRun") (boolean true) (
    field (codes "upToDate") (boolean false) (
      field (codes "migrations") (array (cons (string later.path) nil))
        (field (codes "seeds") (array nil) (field (codes "roles") (array nil) end))))

abbrev loads : Text → Option Json
loads text = some (object dry_run_fields)

dry_run_accepted : validate_dry_run loads [] (later ∷ []) ≡ ok tt
unfolding validate_dry_run text_eq texts_eq
dry_run_accepted = refl

-- Without a pending migration the same plan is refused.
dry_run_refused : validate_dry_run loads [] [] ≡ err plan_differs
unfolding validate_dry_run text_eq texts_eq
dry_run_refused = refl

validate_dry_run-IsGated_example :
    (payload : Fields) × (loads [] ≡ some (object payload)) × IsGated payload (later ∷ [])
validate_dry_run-IsGated_example = validate_dry_run-IsGated loads [] (later ∷ []) dry_run_accepted
