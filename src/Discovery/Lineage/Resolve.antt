-- ===== src/Discovery/Lineage/Resolve.antt =====
-- `_resolve_unique_head` resolves a family exactly when it is one supersession chain, and then to
-- its head and the identities below it.
use mexican_banking_monitor.Base.{
  ℕ, suc, ◌≡◌, refl, sym, ap, subst, ◌∙◌, inl, inr, ◌⊎◌, Bool, true, false, some, List, [], ◌∷◌,
  arith, Text, text_eq, text_eq→, text_eq_iff, text_eq_refl, length, contains, Bool-cases, ok, err,
  All, All-map, if◌then◌else◌, require, >>=-eq-ok, >>-eq-ok, require-eq-ok, >>=-eq-err,
  require-eq-err, ==_iff, ◌==◌,
}
use mexican_banking_monitor.Base.Distinct.{
  IsDistinct, Within, contains-nil, contains-head, contains-tail, contains-cons, contains-cons_ne,
  Within-cons, Within-of_length, rev_onto, length-rev_onto, contains-rev_onto,
}
use mexican_banking_monitor.Discovery.Errors.{ErrorKind, lineage_ambiguous}
use mexican_banking_monitor.Discovery.Releases.{CatalogedRelease}
use mexican_banking_monitor.Discovery.Lineage.{
  find_release, superseded_by, heads_of, only_head, walk, without, resolve_from,
  resolve_unique_head,
}
use mexican_banking_monitor.Discovery.Lineage.Chain.{
  Chain, oldest, older, IsLineage, identities, find_release-identity, find_release-contains,
  Chain-finds,
}
use mexican_banking_monitor.Discovery.Lineage.Walk.{walk-Walked, walk-Chain, IsClosed, walk-ends}
use mexican_banking_monitor.Discovery.Lineage.Heads.{
  find_release_self, All-find_release, Precedes, superseded_by-Precedes, superseded_by-ok,
  superseded_by-err, heads_of-All, heads_of-one,
}

-- The same texts, as sets.
abbrev pub SameTexts : List Text → List Text → Type 0
SameTexts xs ys = (x : Text) → contains x xs ≡ contains x ys

contains-without :
    (x a : Text) (v : List Text)
    → contains x (without a v) ≡ (if text_eq x a then false else contains x v)
unfolding without contains
contains-without x a [] = ground arith
contains-without x a (y ∷ v) =
    ground (arith, contains-without x a v, text_eq_iff x a, text_eq_iff y a, text_eq_iff x y)

-- Taking the head away from what was visited leaves the rest of the chain.
without-rev_onto :
    (h : Text) (ids : List Text)
    → IsDistinct (h ∷ ids)
    → SameTexts (without h (rev_onto (h ∷ ids) [])) ids
without-rev_onto h ids d x = contains-without x h (rev_onto (h ∷ ids) []) ∙ rest (text_eq x h) refl
  where
    rest :
        (b : Bool)
        → text_eq x h ≡ b
        → (if b then false else contains x (rev_onto (h ∷ ids) [])) ≡ contains x ids
    rest true e = sym d.0 ∙ ap (λ t. contains t ids) (sym (text_eq→ x h e))
    rest false e =
        contains-rev_onto x (h ∷ ids) []
        ∙ ap (λ b. if b then true else contains x [])
            (contains-cons_ne x h ids (λ same. cc (e, same, text_eq_refl h)))
        ∙ collapse (contains x ids)
      where
        collapse : (b : Bool) → (if b then true else contains x []) ≡ b
        collapse true = refl
        collapse false = contains-nil x

only_head-ok :
    (hs : List CatalogedRelease) (h : CatalogedRelease) → only_head hs ≡ ok h → hs ≡ h ∷ []
unfolding only_head
only_head-ok [] h e = cc
only_head-ok (x ∷ []) h e = cc
only_head-ok (x ∷ y ∷ hs) h e = cc

length-identities : (all : List CatalogedRelease) → length (identities all) ≡ length all
length-identities [] = refl
length-identities (r ∷ all) = ap suc (length-identities all)

-- On a lineage the walk from the head succeeds.
resolve_from-IsLineage :
    (all : List CatalogedRelease) (head : CatalogedRelease) (ids : List Text)
    → IsLineage all head ids
    → resolve_from all head
      ≡ ok (
        head,
        without head.release_identity_hash (rev_onto (head.release_identity_hash ∷ ids) []),
      )
unfolding resolve_from
resolve_from-IsLineage all head ids l =
    rw
      (walk-Chain all (suc (length all)) [] head ids l.chain (omega (arith, l.complete)) l.distinct
        (λ x h. contains-nil x))
      (rw (
        test (length (rev_onto (head.release_identity_hash ∷ ids) [])) (length all)
          (omega (arith, l.complete, length-rev_onto (head.release_identity_hash ∷ ids) []))))
  where
    test : (a b : ℕ) → a ≡ b → (a == b) ≡ true
    test a b e = (==_iff a b).1 e

-- What a successful walk from the head says.
resolve_from-ok :
    (all : List CatalogedRelease) (top head : CatalogedRelease) (superseded : List Text)
    → resolve_from all top ≡ ok (head, superseded)
    → (v : List Text) × (walk (suc (length all)) all [] top ≡ ok v)
      × (length v ≡ length all)
      × (top ≡ head)
      × (superseded ≡ without top.release_identity_hash v)
unfolding resolve_from
resolve_from-ok all top head superseded h =
    let (v, e, k) = >>=-eq-ok (walk (suc (length all)) all [] top) _ h in
    let (n, k') = >>-eq-ok (require (length v == length all) lineage_ambiguous) _ k in
    (
      v,
      e,
      (==_iff _ _).0 (require-eq-ok (length v == length all) lineage_ambiguous n),
      cc k',
      cc k',
    )

-- Given distinct identities, a family for which `_resolve_unique_head` returns a head is a
-- lineage below that head, and the identities it returns are those of the chain below the head.
pub resolve_unique_head_sound :
    (all : List CatalogedRelease) (head : CatalogedRelease) (superseded : List Text)
    → IsDistinct (identities all)
    → resolve_unique_head all ≡ ok (head, superseded)
    → (ids : List Text) × IsLineage all head ids × SameTexts superseded ids
unfolding resolve_unique_head
resolve_unique_head_sound all head superseded d h =
    let (s, e, k) = >>=-eq-ok (superseded_by all all) _ h in
    let (top, f, g) = >>=-eq-ok (only_head (heads_of s all)) _ k in
    let (v, w, n, head_eq, rest_eq) = resolve_from-ok all top head superseded g in
    finish s top v f w n head_eq rest_eq
  where
    finish :
        (s : List Text) (top : CatalogedRelease) (v : List Text)
        → only_head (heads_of s all) ≡ ok top
        → walk (suc (length all)) all [] top ≡ ok v
        → length v ≡ length all
        → top ≡ head
        → superseded ≡ without top.release_identity_hash v
        → (ids : List Text) × IsLineage all head ids × SameTexts superseded ids
    finish s top v f w n head_eq rest_eq =
        let walked = walk-Walked all (suc (length all)) [] top v w in
        let top_found : find_release top.release_identity_hash all ≡ some top =
          (subst (All (λ r. find_release r.release_identity_hash all ≡ some r))
            (only_head-ok (heads_of s all) top f)
            (heads_of-All (λ r. find_release r.release_identity_hash all ≡ some r) s all
              (find_release_self all d))).0 in
        let lineage : IsLineage all top walked.ids = record {
          chain = walked.chain;
          member = top_found;
          distinct = walked.distinct;
          complete = omega (
            arith,
            ap (λ (t : List Text). length t) walked.visits,
            length-rev_onto (top.release_identity_hash ∷ walked.ids) [],
          );
        } in
        (
          walked.ids,
          subst (λ t. IsLineage all t walked.ids) head_eq lineage,
          λ x.
              ap (contains x) rest_eq
              ∙ ap (λ t. contains x (without top.release_identity_hash t)) walked.visits
              ∙ without-rev_onto top.release_identity_hash walked.ids walked.distinct x,
        )

-- Below a release of the chain, each release of it has its predecessor further down.
Chain-predecessor :
    (all : List CatalogedRelease) (head : CatalogedRelease) (ids : List Text)
    → Chain all head ids
    → (r : CatalogedRelease) → find_release head.release_identity_hash all ≡ some head
    → find_release r.release_identity_hash all ≡ some r
    → contains r.release_identity_hash (head.release_identity_hash ∷ ids) ≡ true
    → Precedes all ids r
Chain-predecessor all head [] (oldest _ e) r fh fr m p s =
    elim (contains-cons r.release_identity_hash head.release_identity_hash [] m) [
      | inl same ↦ cc (e, s, fh, fr, same)
      | inr more ↦ cc (more, contains-nil r.release_identity_hash)
    ]
Chain-predecessor all head (x ∷ ids) (older _ q _ _ e f c) r fh fr m p s =
    elim (contains-cons r.release_identity_hash head.release_identity_hash (x ∷ ids) m) [
      | inl same ↦ first (cc (e, s, fh, fr, same))
      | inr more ↦
          let same = sym (find_release-identity x all q f) in
          let (n, k) =
            Chain-predecessor all q ids c r (subst (λ t. find_release t all ≡ some q) same f) fr
              (subst (λ t. contains r.release_identity_hash (t ∷ ids) ≡ true) same more) p s in
          (n, contains-tail p x ids k)
    ]
  where
    first :
        x ≡ p
        → ((n : CatalogedRelease) × (find_release p all ≡ some n)) × (contains p (x ∷ ids) ≡ true)
    first same = (
      (q, subst (λ t. find_release t all ≡ some q) same f),
      subst (λ t. contains t (x ∷ ids) ≡ true) same (contains-head x ids),
    )

-- Everything below the head is superseded by a release of the family.
Chain-superseded :
    (all : List CatalogedRelease) (head : CatalogedRelease) (ids s : List Text)
    → Chain all head ids
    → find_release head.release_identity_hash all ≡ some head
    → All (Precedes all s) all
    → Within ids s
Chain-superseded all head [] s (oldest _ e) f h x c = cc (c, contains-nil x)
Chain-superseded all head (p ∷ ids) s (older _ q _ _ e g c) f h x m =
    elim (contains-cons x p ids m) [
      | inl same ↦
          subst (λ t. contains t s ≡ true) (sym same)
            ((All-find_release (Precedes all s) head.release_identity_hash all head h f p e).1)
      | inr more ↦
          Chain-superseded all q ids s c
            (subst (λ t. find_release t all ≡ some q) (sym (find_release-identity p all q g)) g) h x
            more
    ]

module _ (all : List CatalogedRelease) (head : CatalogedRelease) (ids : List Text)
    (d : IsDistinct (identities all)) (l : IsLineage all head ids) where
  -- Every release of a lineage is on its chain.
  pub on_chain : Within (identities all) (head.release_identity_hash ∷ ids)
  on_chain =
      Within-of_length (head.release_identity_hash ∷ ids) (identities all) l.distinct
        (Within-cons head.release_identity_hash ids (identities all)
          (λ x c.
            let (q, f) = Chain-finds all head ids l.chain x c in find_release-contains x all q f)
          (find_release-contains head.release_identity_hash all head l.member))
        (omega (arith, l.complete, length-identities all))

  precedes : All (Precedes all ids) all
  precedes =
      All-map (λ r. find_release r.release_identity_hash all ≡ some r) (Precedes all ids)
        (λ r f. Chain-predecessor all head ids l.chain r l.member f (
          on_chain r.release_identity_hash (find_release-contains r.release_identity_hash all r f)))
        all (find_release_self all d)

  -- All but the head are superseded.
  others :
      (s : List Text)
      → Within ids s
      → All
          (λ r.
            (r.release_identity_hash ≡ head.release_identity_hash)
            ⊎ (contains r.release_identity_hash s ≡ true))
          all
  others s w =
      All-map (λ r. find_release r.release_identity_hash all ≡ some r) _
        (λ r f.
          elim (contains-cons r.release_identity_hash head.release_identity_hash ids (
            on_chain r.release_identity_hash
              (find_release-contains r.release_identity_hash all r f))) [
                | inl same ↦ inl same
                | inr more ↦ inr (w r.release_identity_hash more)
              ])
        all (find_release_self all d)

  head_apart : (s : List Text) → Within s ids → contains head.release_identity_hash s ≡ false
  head_apart s w = elim (Bool-cases (contains head.release_identity_hash s)) [
    | inl e ↦ cc (w head.release_identity_hash e, l.distinct.0)
    | inr e ↦ e
  ]

  -- Given distinct identities, `_resolve_unique_head` returns the head of a lineage, with the
  -- identities of the chain below it.
  pub resolve_unique_head_complete :
      (superseded : List Text) × (resolve_unique_head all ≡ ok (head, superseded))
      × SameTexts superseded ids
  unfolding resolve_unique_head only_head
  resolve_unique_head_complete =
      let (s, e, w) = superseded_by-ok all ids all precedes in
      let back =
        Chain-superseded all head ids s l.chain l.member (superseded_by-Precedes all all s e) in
      let heads =
        heads_of-one s head.release_identity_hash all head d l.member (head_apart s w)
          (others s back) in
      (
        without head.release_identity_hash (rev_onto (head.release_identity_hash ∷ ids) []),
        rw (e, heads) (resolve_from-IsLineage all head ids l),
        without-rev_onto head.release_identity_hash ids l.distinct,
      )

only_head-err :
    (hs : List CatalogedRelease) (e : ErrorKind) → only_head hs ≡ err e → e ≡ lineage_ambiguous
unfolding only_head
only_head-err [] e h = cc h
only_head-err (x ∷ []) e h = cc
only_head-err (x ∷ y ∷ hs) e h = cc h

-- A walk from a release of a family whose predecessors are all known is refused for a cycle or
-- for a release that it did not meet.
resolve_from-err :
    (all : List CatalogedRelease) (head : CatalogedRelease) (e : ErrorKind)
    → IsClosed all
    → find_release head.release_identity_hash all ≡ some head
    → resolve_from all head ≡ err e
    → e ≡ lineage_ambiguous
unfolding resolve_from
resolve_from-err all head e c f h = elim (>>=-eq-err (walk (suc (length all)) all [] head) _ h) [
  | inl w ↦
      walk-ends all c (suc (length all)) [] head e f tt (λ x k. cc (k, contains-nil x))
        (omega (arith, length-identities all)) w
  | inr (v, w, k) ↦ elim (>>=-eq-err (require (length v == length all) lineage_ambiguous) _ k) [
    | inl r ↦ require-eq-err (length v == length all) lineage_ambiguous e r
    | inr (u, r, done) ↦ cc done
  ]
]

-- Given distinct identities, the one error of `_resolve_unique_head` is the ambiguous lineage:
-- the walk never runs out of fuel.
pub resolve_unique_head-err :
    (all : List CatalogedRelease) (e : ErrorKind)
    → IsDistinct (identities all)
    → resolve_unique_head all ≡ err e
    → e ≡ lineage_ambiguous
unfolding resolve_unique_head
resolve_unique_head-err all e d h = elim (>>=-eq-err (superseded_by all all) _ h) [
  | inl w ↦ superseded_by-err all all e w
  | inr (s, w, k) ↦ elim (>>=-eq-err (only_head (heads_of s all)) _ k) [
    | inl r ↦ only_head-err (heads_of s all) e r
    | inr (head, r, g) ↦
        resolve_from-err all head e
          (λ q p f n.
            (All-find_release (Precedes all s) q.release_identity_hash all q
              (superseded_by-Precedes all all s w) f p n).0)
          ((subst (All (λ x. find_release x.release_identity_hash all ≡ some x))
            (only_head-ok (heads_of s all) head r)
            (heads_of-All (λ x. find_release x.release_identity_hash all ≡ some x) s all
              (find_release_self all d))).0)
          g
  ]
]
