-- ===== src/Discovery/Lineage/Walk.antt =====
-- The `while` loop of `_resolve_unique_head` follows the chain from the head: what it visits is a
-- chain, it visits every chain, and it always ends.
use mexican_banking_monitor.Base.{
  ℕ, zero, suc, ◌+◌, ◌≤◌, ◌≡◌, refl, sym, ap, subst, ◌∙◌, inl, inr, Bool, true, false, none, some,
  List, [], ◌∷◌, arith, Text, length, contains, Bool-cases, Option-cases, ok, err,
}
use mexican_banking_monitor.Base.Distinct.{
  IsDistinct, Within, rev_onto, contains-nil, contains-head, contains-tail, contains-cons,
  contains-cons_ne, ne_of_distinct, length-le_of_Within, Within-cons,
}
use mexican_banking_monitor.Discovery.Errors.{ErrorKind, discovery_failed, lineage_ambiguous}
use mexican_banking_monitor.Discovery.Releases.{CatalogedRelease}
use mexican_banking_monitor.Discovery.Lineage.{find_release, walk}
use mexican_banking_monitor.Discovery.Lineage.Chain.{
  Chain, oldest, older, identities, find_release-identity, find_release-contains,
}

module _ (all : List CatalogedRelease) where
  module _ (fuel : ℕ) (visited : List Text) (r : CatalogedRelease) where
    walk-seen :
        contains r.release_identity_hash visited ≡ true
        → walk (suc fuel) all visited r ≡ err lineage_ambiguous
    unfolding walk
    walk-seen h = rw h

    module _ (fresh : contains r.release_identity_hash visited ≡ false) where
      walk-oldest :
          r.supersedes_release_identity_hash ≡ none
          → walk (suc fuel) all visited r ≡ ok (r.release_identity_hash ∷ visited)
      unfolding walk
      walk-oldest e = rw (fresh, e)

      walk-missing :
          (p : Text)
          → r.supersedes_release_identity_hash ≡ some p
          → find_release p all ≡ none
          → walk (suc fuel) all visited r ≡ err discovery_failed
      unfolding walk
      walk-missing p e f = rw (fresh, e, f)

      walk-older :
          (p : Text) (q : CatalogedRelease)
          → r.supersedes_release_identity_hash ≡ some p
          → find_release p all ≡ some q
          → walk (suc fuel) all visited r ≡ walk fuel all (r.release_identity_hash ∷ visited) q
      unfolding walk
      walk-older p q e f = rw (fresh, e, f)

  -- None of the texts has been visited.
  abbrev pub AreFresh : List Text → List Text → Type 0
  AreFresh ids visited = (x : Text) → contains x ids ≡ true → contains x visited ≡ false

  AreFresh-next :
      (y : Text) (ids visited : List Text)
      → contains y ids ≡ false
      → AreFresh (y ∷ ids) visited
      → AreFresh ids (y ∷ visited)
  AreFresh-next y ids visited d a x h =
      contains-cons_ne x y visited (ne_of_distinct x y ids d h) ∙ a x (contains-tail x y ids h)

  -- What is fresh once `y` is visited is not `y`, and was fresh before.
  AreFresh-back :
      (y : Text) (ids visited : List Text)
      → contains y visited ≡ false
      → AreFresh ids (y ∷ visited)
      → (contains y ids ≡ false) × AreFresh (y ∷ ids) visited
  AreFresh-back y ids visited f a = (apart (contains y ids) refl, before)
    where
      apart : (b : Bool) → contains y ids ≡ b → contains y ids ≡ false
      apart true e = cc (a y e, contains-head y visited)
      apart false e = e

      keep :
          (x : Text) (b : Bool)
          → contains x visited ≡ b
          → contains x ids ≡ true
          → contains x visited ≡ false
      keep x true e h = cc (a x h, contains-tail x y visited e)
      keep x false e h = e

      before : (x : Text) → contains x (y ∷ ids) ≡ true → contains x visited ≡ false
      before x h = elim (contains-cons x y ids h) [
        | inl same ↦ subst (λ t. contains t visited ≡ false) (sym same) f
        | inr more ↦ keep x (contains x visited) refl more
      ]

  -- What a walk that ends has visited.
  pub record Walked (visited : List Text) (r : CatalogedRelease) (v : List Text) : Type 0 where
    pub ids : List Text
    pub chain : Chain all r ids
    pub visits : v ≡ rev_onto (r.release_identity_hash ∷ ids) visited
    pub distinct : IsDistinct (r.release_identity_hash ∷ ids)
    pub fresh : AreFresh (r.release_identity_hash ∷ ids) visited

  pub walk-Walked :
      (fuel : ℕ) (visited : List Text) (r : CatalogedRelease) (v : List Text)
      → walk fuel all visited r ≡ ok v
      → Walked visited r v
  unfolding rev_onto
  walk-Walked zero visited r v h = unfold walk in cc
  walk-Walked (suc fuel) visited r v h =
      elim (Bool-cases (contains r.release_identity_hash visited)) [
        | inl seen ↦ cc (h, walk-seen fuel visited r seen)
        | inr fresh ↦ elim (Option-cases r.supersedes_release_identity_hash) [
          | inl e ↦ last fresh e
          | inr (p, e) ↦ elim (Option-cases (find_release p all)) [
            | inl f ↦ cc (h, walk-missing fuel visited r fresh p e f)
            | inr (q, f) ↦ more fresh p q e f (
                walk-Walked fuel (r.release_identity_hash ∷ visited) q v
                  (sym (walk-older fuel visited r fresh p q e f) ∙ h))
          ]
        ]
      ]
    where
      last :
          contains r.release_identity_hash visited ≡ false
          → r.supersedes_release_identity_hash ≡ none
          → Walked visited r v
      last fresh e =
          let same : v ≡ r.release_identity_hash ∷ visited =
            cc (h, walk-oldest fuel visited r fresh e) in
          record {
            ids = [];
            chain = oldest r e;
            visits = same;
            distinct = (contains-nil r.release_identity_hash, tt);
            fresh = λ x h. elim (contains-cons x r.release_identity_hash [] h) [
              | inl e ↦ subst (λ t. contains t visited ≡ false) (sym e) fresh
              | inr e ↦ cc (e, contains-nil x)
            ];
          }

      more :
          contains r.release_identity_hash visited ≡ false
          → (p : Text) (q : CatalogedRelease) → r.supersedes_release_identity_hash ≡ some p
          → find_release p all ≡ some q
          → Walked (r.release_identity_hash ∷ visited) q v
          → Walked visited r v
      more fresh p q e f w =
          let same = find_release-identity p all q f in
          let d : IsDistinct (p ∷ w.ids) = subst (λ x. IsDistinct (x ∷ w.ids)) same w.distinct in
          let (apart, before) =
            AreFresh-back r.release_identity_hash (p ∷ w.ids) visited fresh (
              subst (λ x. AreFresh (x ∷ w.ids) (r.release_identity_hash ∷ visited)) same w.fresh) in
          record {
            ids = p ∷ w.ids;
            chain = older r q p w.ids e f w.chain;
            visits =
                w.visits
                ∙ ap (λ x. rev_onto (x ∷ w.ids) (r.release_identity_hash ∷ visited))
                    (find_release-identity p all q f);
            distinct = (apart, d);
            fresh = before;
          }

  -- A walk over a chain that has not been visited goes down to its end.
  pub walk-Chain :
      (fuel : ℕ) (visited : List Text) (r : CatalogedRelease) (ids : List Text)
      → Chain all r ids
      → length ids + 1 ≤ fuel
      → IsDistinct (r.release_identity_hash ∷ ids)
      → AreFresh (r.release_identity_hash ∷ ids) visited
      → walk fuel all visited r ≡ ok (rev_onto (r.release_identity_hash ∷ ids) visited)
  unfolding rev_onto
  walk-Chain zero visited r ids c n d a = absurd (omega arith)
  walk-Chain (suc fuel) visited r [] (oldest _ e) n d a =
      walk-oldest fuel visited r (a _ (contains-head _ [])) e
  walk-Chain (suc fuel) visited r (p ∷ ids) (older _ q _ _ e f c) n d a =
      walk-older fuel visited r (a _ (contains-head _ (p ∷ ids))) p q e f
      ∙ walk-Chain fuel (r.release_identity_hash ∷ visited) q ids c (omega arith)
          (subst (λ x. IsDistinct (x ∷ ids)) (sym (find_release-identity p all q f)) d.1)
          (subst (λ x. AreFresh (x ∷ ids) (r.release_identity_hash ∷ visited))
            (sym (find_release-identity p all q f))
            (AreFresh-next r.release_identity_hash (p ∷ ids) visited d.0 a))
      ∙ ap (λ x. ok (rev_onto (x ∷ ids) (r.release_identity_hash ∷ visited)))
          (find_release-identity p all q f)

  -- Every predecessor in the family is found.
  abbrev pub IsClosed : Type 0
  IsClosed =
      (q : CatalogedRelease) (p : Text)
      → find_release q.release_identity_hash all ≡ some q
      → q.supersedes_release_identity_hash ≡ some p
      → (n : CatalogedRelease) × (find_release p all ≡ some n)

  -- Over a closed family, with room for every release, the walk ends: a refusal is for a cycle.
  pub walk-ends :
      IsClosed
      → (fuel : ℕ) (visited : List Text) (r : CatalogedRelease) (e : ErrorKind)
      → find_release r.release_identity_hash all ≡ some r
      → IsDistinct visited
      → Within visited (identities all)
      → length (identities all) + 1 ≤ length visited + fuel
      → walk fuel all visited r ≡ err e
      → e ≡ lineage_ambiguous
  walk-ends closed zero visited r e f d w n h =
      absurd (omega (arith, length-le_of_Within visited (identities all) d w))
  walk-ends closed (suc fuel) visited r e f d w n h =
      elim (Bool-cases (contains r.release_identity_hash visited)) [
        | inl seen ↦ cc (h, walk-seen fuel visited r seen)
        | inr fresh ↦ elim (Option-cases r.supersedes_release_identity_hash) [
          | inl none_left ↦ cc (h, walk-oldest fuel visited r fresh none_left)
          | inr (p, s) ↦
              let (q, g) = closed r p f s in
              walk-ends closed fuel (r.release_identity_hash ∷ visited) q e
                (subst (λ x. find_release x all ≡ some q) (sym (find_release-identity p all q g)) g)
                (fresh, d)
                (Within-cons r.release_identity_hash visited (identities all) w
                  (find_release-contains r.release_identity_hash all r f))
                (omega arith) (sym (walk-older fuel visited r fresh p q s g) ∙ h)
        ]
      ]
