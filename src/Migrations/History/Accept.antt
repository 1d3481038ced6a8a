-- ===== src/Migrations/History/Accept.antt =====
-- What `validate_history` accepts, and what it returns (scripts/validate_production_migrations.py).
use mexican_banking_monitor.Base.{
  ◌≡◌, ◌≢◌, refl, sym, subst, ◌∙◌, Bool, true, false, not, List, [], ◌∷◌, ◌++◌, map, arith, Text,
  ok, require, >>=-eq-ok, >>-eq-ok, require-eq-ok, if◌then◌else◌, contains,
}
use mexican_banking_monitor.Base.Sorting.{texts_eq, texts_eq→, texts_eq_refl}
use mexican_banking_monitor.Base.Distinct.{IsDistinct}
use mexican_banking_monitor.Migrations.History.{
  local_versions_differ, duplicate_remote_versions, no_common_baseline, not_aligned, Migration,
  HistoryRow, local_versions, remote_versions, all_different, pending_from, select_versions,
  is_none_pending, migration_version, validate_history,
}
use mexican_banking_monitor.Migrations.History.Laws.{
  applied_row, pending_row, pending_from-split, local-applied, remote-applied, pending_from-applied,
  select_versions-suffix,
}

-- The remote database has the first migrations, at least one, and the others are pending: none of
-- them where the history has to be aligned.
pub record IsPlan (rows : List HistoryRow) (migrations : List Migration) (require_aligned : Bool)
    (pending : List Migration) : Type 0 where
  pub applied : List Migration
  pub whole : migrations ≡ applied ++ pending
  pub remote : remote_versions rows ≡ map migration_version applied
  pub baseline : applied ≢ []
  pub aligned : require_aligned ≡ true → pending ≡ []

map-eq-append :
    (ms : List Migration) (xs ys : List Text)
    → map migration_version ms ≡ xs ++ ys
    → (a b : List Migration) × (ms ≡ a ++ b)
      × (map migration_version a ≡ xs)
      × (map migration_version b ≡ ys)
map-eq-append ms [] ys h = ([], ms, refl, refl, h)
map-eq-append [] (x ∷ xs) ys h = cc h
map-eq-append (m ∷ ms) (x ∷ xs) ys h =
    let (a, b, whole, left, right) = map-eq-append ms xs ys (cc h) in
    let first : m.version ≡ x = cc h in (m ∷ a, b, cc whole, cc (first, left), right)

not_baseline :
    (a : List Migration) (vs : List Text)
    → not (is_none_pending vs) ≡ true
    → map migration_version a ≡ vs
    → a ≢ []
not_baseline a [] h e = cc h
not_baseline [] (v ∷ vs) h e = cc e
not_baseline (m ∷ a) (v ∷ vs) h e = λ no. cc no

none_pending :
    (require_aligned : Bool) (vs : List Text) (b : List Migration)
    → (if require_aligned then is_none_pending vs else true) ≡ true
    → map migration_version b ≡ vs
    → require_aligned ≡ true
    → b ≡ []
none_pending false vs b h e a = cc a
none_pending true vs [] h e a = refl
none_pending true [] (m ∷ b) h e a = cc e
none_pending true (v ∷ vs) (m ∷ b) h e a = cc h

-- Given distinct repository versions, where `validate_history` returns pending migrations, the
-- repository's are those that the remote history lists, at least one, and then the pending
-- ones; none is pending where an aligned history is required.
pub validate_history-IsPlan :
    (rows : List HistoryRow) (migrations : List Migration) (require_aligned : Bool)
    (pending : List Migration)
    → IsDistinct (map migration_version migrations)
    → validate_history rows migrations require_aligned ≡ ok pending
    → IsPlan rows migrations require_aligned pending
unfolding validate_history
validate_history-IsPlan rows migrations aligned pending d h =
    let (local, k1) =
      >>-eq-ok
        (require (texts_eq (local_versions rows) (map migration_version migrations))
          local_versions_differ)
        _ h in
    let (different, k2) =
      >>-eq-ok (require (all_different (remote_versions rows)) duplicate_remote_versions) _ k1 in
    let (base, k3) =
      >>-eq-ok (require (not (is_none_pending (remote_versions rows))) no_common_baseline) _ k2 in
    let (vs, walked, k4) = >>=-eq-ok (pending_from false rows) _ k3 in
    let (up, k5) =
      >>-eq-ok (require (if aligned then is_none_pending vs else true) (not_aligned vs))
        (select_versions migrations vs) k4 in
    let same = texts_eq→ _ _ (
      require-eq-ok (texts_eq (local_versions rows) (map migration_version migrations))
        local_versions_differ local) in
    let split = (pending_from-split false rows vs walked).0 in
    let (a, b, whole, left, right) =
      map-eq-append migrations (remote_versions rows) vs (sym same ∙ split) in
    let chosen : select_versions migrations vs ≡ ok b =
      subst (λ ms. select_versions ms vs ≡ ok b) (sym whole)
        (subst (λ ws. select_versions (a ++ b) ws ≡ ok b) right
          (select_versions-suffix a b
            (subst (λ ms. IsDistinct (map migration_version ms)) whole d))) in
    let b_pending : b ≡ pending = cc (chosen, k5) in
    record {
      applied = a;
      whole = cc (whole, b_pending);
      remote = sym left;
      baseline =
          not_baseline a (remote_versions rows) (require-eq-ok _ no_common_baseline base) left;
      aligned = λ e.
          sym b_pending ∙ none_pending aligned vs b (require-eq-ok _ (not_aligned vs) up) right e;
    }

absent_prefix :
    (v : Text) (a b : List Migration)
    → contains v (map migration_version (a ++ b)) ≡ false
    → contains v (map migration_version a) ≡ false
unfolding contains
absent_prefix v [] b h = refl
absent_prefix v (x ∷ a) b h = ground (arith, absent_prefix v a b)

distinct_prefix :
    (a b : List Migration)
    → IsDistinct (map migration_version (a ++ b))
    → all_different (map migration_version a) ≡ true
unfolding all_different
distinct_prefix [] b d = refl
distinct_prefix (m ∷ a) b d = rw (absent_prefix m.version a b d.0, distinct_prefix a b d.1)

has_baseline :
    (a : List Migration) → a ≢ [] → not (is_none_pending (map migration_version a)) ≡ true
has_baseline [] n = absurd (n refl)
has_baseline (m ∷ a) n = refl

may_be_pending :
    (require_aligned : Bool) (b : List Migration)
    → (require_aligned ≡ true → b ≡ [])
    → (if require_aligned then is_none_pending (map migration_version b) else true) ≡ true
may_be_pending false b h = refl
may_be_pending true b h = rw (h refl)

-- Given distinct repository versions, at least one applied migration, and nothing pending where
-- an aligned history is required, a history that lists the applied migrations on both sides and
-- then the pending ones locally is accepted with exactly the pending ones.
pub validate_history-plan :
    (applied pending : List Migration) (require_aligned : Bool)
    → IsDistinct (map migration_version (applied ++ pending))
    → applied ≢ []
    → (require_aligned ≡ true → pending ≡ [])
    → validate_history
        (map applied_row applied ++ map pending_row pending)
        (applied ++ pending)
        require_aligned
      ≡ ok pending
unfolding validate_history
validate_history-plan applied pending aligned d base up =
    rw
      (
        local-applied applied pending,
        remote-applied applied pending,
        pending_from-applied applied pending,
      )
      (rw
        (
          texts_eq_refl (map migration_version (applied ++ pending)),
          distinct_prefix applied pending d,
        )
        (rw (has_baseline applied base)
          (rw (may_be_pending aligned pending up) (select_versions-suffix applied pending d))))
