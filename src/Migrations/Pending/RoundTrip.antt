-- ===== src/Migrations/Pending/RoundTrip.antt =====
-- What `_write_pending` writes, `read_pending_file` reads
-- (scripts/validate_production_migrations.py).
use mexican_banking_monitor.Base.{
  ℕ, ◌≡◌, refl, ap, subst, ◌∙◌, sym, Bool, true, false, not, ◌&&◌, none, some, List, [], ◌∷◌, ◌++◌,
  map, Text, text_eq_iff, text_eq_refl, ok, if◌then◌else◌, All, arith, contains,
}
use mexican_banking_monitor.Base.Distinct.{IsDistinct}
use mexican_banking_monitor.Discovery.Summary.{is_space, strip, lstrip, rstrip, is_blank, is_empty}
use mexican_banking_monitor.Migrations.History.{
  Migration, HistoryRow, migration_version, validate_history,
}
use mexican_banking_monitor.Migrations.History.Accept.{validate_history-IsPlan}
use mexican_banking_monitor.Migrations.Listing.{file_name}
use mexican_banking_monitor.Migrations.Pending.{
  pending_text, is_line_break, splitlines, stripped_names, by_name, select_names, read_pending_file,
}

-- No character is one at which a line ends or that is stripped.
abbrev pub no_space : Text → Bool
no_space [] = true
no_space (c ∷ name) = (not (is_space c) && not (is_line_break c)) && no_space name

-- A name that stands in one line as it is.
abbrev pub IsFileName : Text → Type 0
IsFileName [] = false ≡ true
IsFileName (c ∷ name) = no_space (c ∷ name) ≡ true

unspaced : (e : Bool) (c : ℕ) (name : Text) → (if e && false then [] else c ∷ name) ≡ c ∷ name
unspaced true c name = refl
unspaced false c name = refl

no_space-parts :
    (c : ℕ) (name : Text)
    → no_space (c ∷ name) ≡ true
    → (is_space c ≡ false) × (is_line_break c ≡ false) × (no_space name ≡ true)
no_space-parts c name h = (ground (arith, h), ground (arith, h), ground (arith, h))

rstrip-step :
    (c : ℕ) (name : Text) → is_space c ≡ false → rstrip name ≡ name → rstrip (c ∷ name) ≡ c ∷ name
unfolding rstrip
rstrip-step c name n e = rw (e, n) (unspaced (is_empty name) c name)

rstrip-no_space : (name : Text) → no_space name ≡ true → rstrip name ≡ name
rstrip-no_space [] h = unfold rstrip in refl
rstrip-no_space (c ∷ name) h =
    let (n, b, k) = no_space-parts c name h in rstrip-step c name n (rstrip-no_space name k)

lstrip-step : (c : ℕ) (name : Text) → is_space c ≡ false → lstrip (c ∷ name) ≡ c ∷ name
unfolding lstrip
lstrip-step c name n = rw n

strip-IsFileName : (name : Text) → IsFileName name → (strip name ≡ name) × (is_blank name ≡ false)
unfolding strip is_blank
strip-IsFileName [] h = cc h
strip-IsFileName (c ∷ name) h =
    let (n, b, k) = no_space-parts c name h in
    let e = ap rstrip (lstrip-step c name n) ∙ rstrip-no_space (c ∷ name) h in (e, ap is_empty e)

splitlines-line :
    (name rest : Text)
    → no_space name ≡ true
    → splitlines (name ++ 10 ∷ rest) ≡ name ∷ splitlines rest
unfolding splitlines
splitlines-line [] rest h = unfold is_line_break in refl
splitlines-line (c ∷ name) rest h =
    let (n, b, k) = no_space-parts c name h in rw (b, splitlines-line name rest k)

IsFileName-no_space : (name : Text) → IsFileName name → no_space name ≡ true
IsFileName-no_space [] h = cc
IsFileName-no_space (c ∷ name) h = h

-- The names of what was written are read.
stripped_names-pending_text :
    (pending : List Migration)
    → All IsFileName (map file_name pending)
    → stripped_names (splitlines (pending_text pending)) ≡ map file_name pending
unfolding stripped_names pending_text
stripped_names-pending_text [] h = unfold splitlines in refl
stripped_names-pending_text (migration ∷ pending) h =
    let (e, n) = strip-IsFileName migration.path h.0 in
    rw (
      splitlines-line migration.path (pending_text pending)
          (IsFileName-no_space migration.path h.0),
      n,
      e,
      stripped_names-pending_text pending h.1,
    )

-- A migration whose name no other has is found by it.
by_name-none :
    (name : Text) (migrations : List Migration)
    → contains name (map file_name migrations) ≡ false
    → by_name name migrations ≡ none
unfolding by_name contains
by_name-none name [] h = refl
by_name-none name (m ∷ migrations) h =
    let later = by_name-none name migrations (ground (arith, h)) in
    rw later (ground (arith, h, text_eq_iff name m.path, text_eq_iff m.path name))

by_name-head :
    (m : Migration) (migrations : List Migration)
    → contains m.path (map file_name migrations) ≡ false
    → by_name m.path (m ∷ migrations) ≡ some m
unfolding by_name
by_name-head m migrations h = rw (by_name-none m.path migrations h, text_eq_refl m.path)

-- What stands later in the repository is found first.
by_name-later :
    (name : Text) (x m : Migration) (migrations : List Migration)
    → by_name name migrations ≡ some m
    → by_name name (x ∷ migrations) ≡ some m
unfolding by_name
by_name-later name x m migrations h = rw h

by_name-append :
    (name : Text) (m : Migration) (applied pending : List Migration)
    → by_name name pending ≡ some m
    → by_name name (applied ++ pending) ≡ some m
by_name-append name m [] pending h = h
by_name-append name m (x ∷ applied) pending h =
    by_name-later name x m (applied ++ pending) (by_name-append name m applied pending h)

select_names-pending :
    (migrations pending : List Migration)
    → IsDistinct (map file_name pending)
    → ((name : Text) (m : Migration)
        → by_name name pending ≡ some m
        → by_name name migrations ≡ some m)
    → select_names migrations (map file_name pending) ≡ ok pending
unfolding select_names
select_names-pending migrations [] d found = refl
select_names-pending migrations (m ∷ pending) d found = rw (
  found m.path m (by_name-head m pending d.0),
  select_names-pending migrations pending d.1
      (λ name x h. found name x (by_name-later name m x pending h)),
)

-- The pending end of a repository, with names of one line each, none twice, is read back from the text
-- that is written for it.
read_pending_file-pending_text :
    (applied pending : List Migration)
    → IsDistinct (map file_name pending)
    → All IsFileName (map file_name pending)
    → read_pending_file (pending_text pending) (applied ++ pending) ≡ ok pending
unfolding read_pending_file
read_pending_file-pending_text applied pending d h =
    ap (select_names (applied ++ pending)) (stripped_names-pending_text pending h)
    ∙ select_names-pending (applied ++ pending) pending d
        (λ name m. by_name-append name m applied pending)

IsDistinct-right :
    (applied pending : List Migration)
    → IsDistinct (map file_name (applied ++ pending))
    → IsDistinct (map file_name pending)
IsDistinct-right [] pending d = d
IsDistinct-right (x ∷ applied) pending d = IsDistinct-right applied pending d.1

IsFileName-right :
    (applied pending : List Migration)
    → All IsFileName (map file_name (applied ++ pending))
    → All IsFileName (map file_name pending)
IsFileName-right [] pending h = h
IsFileName-right (x ∷ applied) pending h = IsFileName-right applied pending h.1

-- Given a repository with distinct versions and distinct file names of one line without blanks,
-- the pending migrations that `validate_history` returned are read back by `read_pending_file`
-- from the text that `_write_pending` writes.
pub read_pending_file-validate_history :
    (rows : List HistoryRow) (migrations : List Migration) (require_aligned : Bool)
    (pending : List Migration)
    → IsDistinct (map migration_version migrations)
    → IsDistinct (map file_name migrations)
    → All IsFileName (map file_name migrations)
    → validate_history rows migrations require_aligned ≡ ok pending
    → read_pending_file (pending_text pending) migrations ≡ ok pending
read_pending_file-validate_history rows migrations aligned pending versions names lines h =
    let plan = validate_history-IsPlan rows migrations aligned pending versions h in
    let whole = plan.whole in
    subst (λ ms. read_pending_file (pending_text pending) ms ≡ ok pending) (sym whole)
      (read_pending_file-pending_text plan.applied pending
        (IsDistinct-right plan.applied pending
          (subst (λ ms. IsDistinct (map file_name ms)) whole names))
        (IsFileName-right plan.applied pending
          (subst (λ ms. All IsFileName (map file_name ms)) whole lines)))
