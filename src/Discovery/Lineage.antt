-- ===== src/Discovery/Lineage.antt =====
-- `_resolve_unique_head`: the head of the one supersession chain of a family.
pub mod Chain
pub mod Walk
pub mod Heads
pub mod Resolve
pub mod Growth
use mexican_banking_monitor.Base.{
  ℕ, zero, suc, Bool, true, false, Option, none, some, List, [], ◌∷◌, Text, require, ◌>>◌, ◌>>=◌,
  ok, err, not, ◌==◌, is_some, text_eq, length, contains, if◌then◌else◌,
}
use mexican_banking_monitor.Discovery.Errors.{Checked, discovery_failed, lineage_ambiguous}
use mexican_banking_monitor.Discovery.Releases.{CatalogedRelease}
use mexican_banking_monitor.Discovery.Summary.{is_empty}

-- `{item.release_identity_hash: item for item in releases}.get(identity)`
unfoldable pub find_release : Text → List CatalogedRelease → Option CatalogedRelease
find_release identity [] = none
find_release identity (item ∷ items) = elim (find_release identity items) [
  | some found ↦ some found
  | none ↦ if text_eq item.release_identity_hash identity then some item else none
]

-- The loop that collects `superseded`; `all` is the whole family.
unfoldable pub superseded_by : List CatalogedRelease → List CatalogedRelease → Checked (List Text)
superseded_by all [] = ok []
superseded_by all (release ∷ releases) = elim release.supersedes_release_identity_hash [
  | none ↦ superseded_by all releases
  | some predecessor ↦
      require (is_some (find_release predecessor all)) lineage_ambiguous
      >> (superseded_by all releases >>= λ rest. ok (predecessor ∷ rest))
]

unfoldable pub heads_of : List Text → List CatalogedRelease → List CatalogedRelease
heads_of superseded [] = []
heads_of superseded (item ∷ items) =
    if contains item.release_identity_hash superseded
    then heads_of superseded items
    else item ∷ heads_of superseded items

-- The `while` loop, on fuel, from `current`, which is no `None` where the loop is entered.
-- `discovery_failed` stands for fuel that ran out and for a key that is missing.
unfoldable pub walk : ℕ → List CatalogedRelease → List Text → CatalogedRelease → Checked (List Text)
walk zero all visited current = err discovery_failed
walk (suc fuel) all visited current =
    if contains current.release_identity_hash visited
    then err lineage_ambiguous
    else elim current.supersedes_release_identity_hash [
      | none ↦ ok (current.release_identity_hash ∷ visited)
      | some predecessor ↦ elim (find_release predecessor all) [
        | none ↦ err discovery_failed
        | some next ↦ walk fuel all (current.release_identity_hash ∷ visited) next
      ]
    ]

-- visited - {identity}
unfoldable pub without : Text → List Text → List Text
without a [] = []
without a (x ∷ xs) = if text_eq x a then without a xs else x ∷ without a xs

-- The walk from the head, and the check that it met every release.
unfoldable pub resolve_from :
    List CatalogedRelease → CatalogedRelease → Checked (CatalogedRelease × List Text)
unfolding walk without
resolve_from releases head = do
  visited ← walk (suc (length releases)) releases [] head
  require (length visited == length releases) lineage_ambiguous
  ok (head, without head.release_identity_hash visited)

-- `heads[0]`, where there is exactly one head
unfoldable pub only_head : List CatalogedRelease → Checked CatalogedRelease
only_head [] = err lineage_ambiguous
only_head (head ∷ []) = ok head
only_head _ = err lineage_ambiguous

unfoldable pub resolve_unique_head : List CatalogedRelease → Checked (CatalogedRelease × List Text)
unfolding superseded_by heads_of only_head resolve_from find_release
resolve_unique_head releases = do
  superseded ← superseded_by releases releases
  head ← only_head (heads_of superseded releases)
  resolve_from releases head
