-- ===== src/Migrations/History/Laws.antt =====
-- The migrations that `validate_history` lets through
-- (scripts/validate_production_migrations.py).
use mexican_banking_monitor.Base.{
  ◌≡◌, refl, subst, inl, inr, Bool, true, false, not, none, some, List, [], ◌∷◌, ◌++◌, map, arith,
  Text, text_eq, text_eq→, text_eq_refl, text_eq_iff, ok, require, ◌>>◌, >>=-eq-ok, >>-eq-ok,
  require-eq-ok, contains, Bool-cases, Option-cases,
}
use mexican_banking_monitor.Base.Distinct.{IsDistinct}
use mexican_banking_monitor.Migrations.History.{
  diverges, history_gap, Migration, HistoryRow, local_versions, remote_versions, pending_from,
  by_version, select_versions, migration_version,
}

-- Local versions are the remote ones and then the pending; none is remote after a pending one.
pub pending_from-split :
    (saw : Bool) (rows : List HistoryRow) (pending : List Text)
    → pending_from saw rows ≡ ok pending
    → (local_versions rows ≡ remote_versions rows ++ pending)
      × (saw ≡ true → remote_versions rows ≡ [])
unfolding pending_from local_versions remote_versions
pending_from-split saw [] pending h = (ground arith, λ e. refl)
pending_from-split saw (row ∷ rows) pending h = elim (Option-cases row.local) [
  | inl no_local ↦ elim (Option-cases row.remote) [
    | inl no_remote ↦
        rw (no_local, no_remote)
          (pending_from-split saw rows pending (rw (no_local, no_remote) at h))
    | inr (r, some_remote) ↦ cc (rw (no_local, some_remote) at h)
  ]
  | inr (l, some_local) ↦ elim (Option-cases row.remote) [
    | inl no_remote ↦
        let (rest, e, k) =
          >>=-eq-ok (pending_from true rows) (λ rest. ok (l ∷ rest))
            (rw (some_local, no_remote) at h) in
        let (split, none_left) = pending_from-split true rows rest e in
        let empty : remote_versions rows ≡ [] = none_left refl in
        let whole : (l ∷ rest) ≡ pending = cc k in
        rw (some_local, no_remote) (cc (split, empty, whole), λ e. empty)
    | inr (r, some_remote) ↦
        let (same, k) =
          >>-eq-ok (require (text_eq l r) (diverges l r))
            (require (not saw) history_gap >> pending_from saw rows)
            (rw (some_local, some_remote) at h) in
        let (early, k2) = >>-eq-ok (require (not saw) history_gap) (pending_from saw rows) k in
        let (split, none_left) = pending_from-split saw rows pending k2 in
        let lr : l ≡ r = text_eq→ l r (require-eq-ok (text_eq l r) (diverges l r) same) in
        let no : not saw ≡ true = require-eq-ok (not saw) history_gap early in
        rw (some_local, some_remote) (cc (split, lr), λ e. ground (arith, e, no))
  ]
]

-- The other way: rows that pair the applied versions, and then list the pending ones.
abbrev pub applied_row : Migration → HistoryRow
applied_row migration = record { local = some migration.version; remote = some migration.version }

abbrev pub pending_row : Migration → HistoryRow
pending_row migration = record { local = some migration.version; remote = none }

local-pending :
    (ms : List Migration) → local_versions (map pending_row ms) ≡ map migration_version ms
unfolding local_versions
local-pending [] = refl
local-pending (m ∷ ms) = rw (local-pending ms)

remote-pending : (ms : List Migration) → remote_versions (map pending_row ms) ≡ []
unfolding remote_versions
remote-pending [] = refl
remote-pending (m ∷ ms) = remote-pending ms

pending_from-pending :
    (saw : Bool) (ms : List Migration)
    → pending_from saw (map pending_row ms) ≡ ok (map migration_version ms)
unfolding pending_from
pending_from-pending saw [] = refl
pending_from-pending saw (m ∷ ms) = rw (pending_from-pending true ms)

pub local-applied :
    (applied ms : List Migration)
    → local_versions (map applied_row applied ++ map pending_row ms)
      ≡ map migration_version (applied ++ ms)
unfolding local_versions
local-applied [] ms = local-pending ms
local-applied (a ∷ applied) ms = rw (local-applied applied ms)

pub remote-applied :
    (applied ms : List Migration)
    → remote_versions (map applied_row applied ++ map pending_row ms)
      ≡ map migration_version applied
unfolding remote_versions
remote-applied [] ms = remote-pending ms
remote-applied (a ∷ applied) ms = rw (remote-applied applied ms)

pub pending_from-applied :
    (applied ms : List Migration)
    → pending_from false (map applied_row applied ++ map pending_row ms)
      ≡ ok (map migration_version ms)
unfolding pending_from
pending_from-applied [] ms = pending_from-pending false ms
pending_from-applied (a ∷ applied) ms =
    rw (text_eq_refl a.version) (pending_from-applied applied ms)

-- Distinct versions, looked up.
absent_version :
    (version : Text) (ms : List Migration)
    → contains version (map migration_version ms) ≡ false
    → by_version version ms ≡ none
unfolding by_version contains
absent_version version [] h = refl
absent_version version (m ∷ ms) h = elim (Bool-cases (text_eq version m.version)) [
  | inl e ↦ cc (rw e at h)
  | inr e ↦
      rw (absent_version version ms (rw e at h))
        (ground (arith, e, text_eq_iff version m.version, text_eq_iff m.version version))
]

by_version_self :
    (before : List Migration) (m : Migration) (after : List Migration)
    → IsDistinct (map migration_version (before ++ m ∷ after))
    → by_version m.version (before ++ m ∷ after) ≡ some m
unfolding by_version
by_version_self [] m after d = rw (absent_version m.version after d.0, text_eq_refl m.version)
by_version_self (b ∷ before) m after d = rw (by_version_self before m after d.1)

map-append :
    (xs ys : List Migration)
    → map migration_version (xs ++ ys) ≡ map migration_version xs ++ map migration_version ys
map-append [] ys = refl
map-append (x ∷ xs) ys = rw (map-append xs ys)

append_assoc_one :
    (xs : List Migration) (m : Migration) (ys : List Migration)
    → xs ++ m ∷ ys ≡ (xs ++ m ∷ []) ++ ys
append_assoc_one [] m ys = refl
append_assoc_one (x ∷ xs) m ys = rw (append_assoc_one xs m ys)

-- The versions of a suffix select that suffix.
pub select_versions-suffix :
    (before after : List Migration)
    → IsDistinct (map migration_version (before ++ after))
    → select_versions (before ++ after) (map migration_version after) ≡ ok after
unfolding select_versions
select_versions-suffix before [] d = refl
select_versions-suffix before (m ∷ after) d =
    let same = append_assoc_one before m after in
    let rest : select_versions (before ++ m ∷ after) (map migration_version after) ≡ ok after =
      rw same (
        select_versions-suffix (before ++ m ∷ []) after
          (subst (λ ms. IsDistinct (map migration_version ms)) same d)) in
    rw (select_versions, by_version_self before m after d, rest)
