-- ===== src/Discovery/Lineage/Heads.antt =====
-- The superseded identities and the heads of a family.
use mexican_banking_monitor.Base.{
  ◌≡◌, ◌≢◌, refl, sym, subst, ◌∙◌, inl, inr, ◌⊎◌, Bool, true, false, Option, none, some, List, [],
  ◌∷◌, arith, Text, text_eq, text_eq→, text_eq_iff, text_eq_refl, contains, Option-cases, ok, err,
  All, All-map, Result, if◌then◌else◌, require, ◌>>=◌, ◌>>◌, is_some,
}
use mexican_banking_monitor.Base.Distinct.{
  IsDistinct, Within, contains-nil, contains-head, contains-tail, Within-cons,
}
use mexican_banking_monitor.Discovery.Errors.{ErrorKind, lineage_ambiguous}
use mexican_banking_monitor.Discovery.Releases.{CatalogedRelease}
use mexican_banking_monitor.Discovery.Lineage.{find_release, superseded_by, heads_of}
use mexican_banking_monitor.Discovery.Lineage.Chain.{identities, find_release-none}

-- With distinct identities each release is found by its own.
pub find_release_self :
    (all : List CatalogedRelease)
    → IsDistinct (identities all)
    → All (λ r. find_release r.release_identity_hash all ≡ some r) all
unfolding find_release
find_release_self [] d = tt
find_release_self (r ∷ all) d = (
  rw (find_release-none r.release_identity_hash all d.0)
      (rw (text_eq_refl r.release_identity_hash)),
  All-map (λ q. find_release q.release_identity_hash all ≡ some q)
      (λ q. find_release q.release_identity_hash (r ∷ all) ≡ some q) (λ q h. rw (h, find_release))
      all (find_release_self all d.1),
)

-- What holds of every release holds of one that is found.
pub All-find_release :
    (P : CatalogedRelease → Type 0) (x : Text) (all : List CatalogedRelease) (q : CatalogedRelease)
    → All P all
    → find_release x all ≡ some q
    → P q
unfolding find_release
All-find_release P x [] q h f = cc
All-find_release P x (r ∷ all) q h f = elim (Option-cases (find_release x all)) [
  | inl e ↦ first (text_eq r.release_identity_hash x) (rw e at f)
  | inr (n, e) ↦ subst P (cc (rw e at f)) (All-find_release P x all n h.1 e)
]
  where
    first : (b : Bool) → (if b then some r else none) ≡ some q → P q
    first true g = subst P (cc g) h.0
    first false g = cc

module _ (all : List CatalogedRelease) where
  -- The predecessor of a release, if it has one, is in the family and among the texts.
  abbrev pub Precedes : List Text → CatalogedRelease → Type 0
  Precedes ids r =
      (p : Text)
      → r.supersedes_release_identity_hash ≡ some p
      → ((n : CatalogedRelease) × (find_release p all ≡ some n)) × (contains p ids ≡ true)

  pub superseded_by-none :
      (r : CatalogedRelease) (rs : List CatalogedRelease)
      → r.supersedes_release_identity_hash ≡ none
      → superseded_by all (r ∷ rs) ≡ superseded_by all rs
  unfolding superseded_by
  superseded_by-none r rs e = rw (e, superseded_by)

  pub superseded_by-some :
      (r : CatalogedRelease) (rs : List CatalogedRelease) (p : Text)
      → r.supersedes_release_identity_hash ≡ some p
      → superseded_by all (r ∷ rs) ≡ (
          require (is_some (find_release p all)) lineage_ambiguous
          >> (superseded_by all rs >>= λ rest. ok (p ∷ rest)))
  unfolding superseded_by
  superseded_by-some r rs p e = rw (e, superseded_by)

  Precedes-tail :
      (p : Text) (ids : List Text) (r : CatalogedRelease) → Precedes ids r → Precedes (p ∷ ids) r
  Precedes-tail p ids r h x e = let (n, c) = h x e in (n, contains-tail x p ids c)

  -- The two ways in which a release adds to what is superseded.
  superseded_by-inv :
      (r : CatalogedRelease) (rs : List CatalogedRelease) (s : List Text)
      → superseded_by all (r ∷ rs) ≡ ok s
      → ((r.supersedes_release_identity_hash ≡ none) × (superseded_by all rs ≡ ok s))
        ⊎ ((p : Text) × (t : List Text) × (n : CatalogedRelease)
            × (r.supersedes_release_identity_hash ≡ some p)
            × (superseded_by all rs ≡ ok t)
            × (find_release p all ≡ some n)
            × (s ≡ p ∷ t))
  superseded_by-inv r rs s h = elim (Option-cases r.supersedes_release_identity_hash) [
    | inl e ↦ inl (e, sym (superseded_by-none r rs e) ∙ h)
    | inr (p, e) ↦ inr (split p e (find_release p all) refl (superseded_by all rs) refl)
  ]
    where
      split :
          (p : Text)
          → r.supersedes_release_identity_hash ≡ some p
          → (o : Option CatalogedRelease) → find_release p all ≡ o
          → (m : Result ErrorKind (List Text)) → superseded_by all rs ≡ m
          → (p : Text) × (t : List Text) × (n : CatalogedRelease)
            × (r.supersedes_release_identity_hash ≡ some p)
            × (superseded_by all rs ≡ ok t)
            × (find_release p all ≡ some n)
            × (s ≡ p ∷ t)
      split p e none f m g = cc (h, superseded_by-some r rs p e, f)
      split p e (some n) f (ok t) g =
          (p, t, n, e, g, f, cc (rw (superseded_by-some r rs p e, f, g) at h))
      split p e (some n) f (err x) g = cc (rw (superseded_by-some r rs p e, f, g) at h)

  -- What is collected holds every predecessor, and each of them is in the family.
  pub superseded_by-Precedes :
      (rs : List CatalogedRelease) (s : List Text)
      → superseded_by all rs ≡ ok s
      → All (Precedes s) rs
  superseded_by-Precedes [] s h = tt
  superseded_by-Precedes (r ∷ rs) s h = elim (superseded_by-inv r rs s h) [
    | inl (e, g) ↦ (λ p f. cc (e, f), superseded_by-Precedes rs s g)
    | inr (p, t, n, e, g, f, same) ↦
        subst (λ u. All (Precedes u) (r ∷ rs)) (sym same)
          (
            λ x k.
                let q : p ≡ x = cc (e, k) in
                (
                  (n, subst (λ y. find_release y all ≡ some n) q f),
                  subst (λ y. contains y (p ∷ t) ≡ true) q (contains-head p t),
                ),
            All-map (Precedes t) (Precedes (p ∷ t)) (Precedes-tail p t) rs
                (superseded_by-Precedes rs t g),
          )
  ]

  -- Where every predecessor is in the family and among the texts, they are collected from these.
  pub superseded_by-ok :
      (ids : List Text) (rs : List CatalogedRelease)
      → All (Precedes ids) rs
      → (s : List Text) × (superseded_by all rs ≡ ok s) × Within s ids
  superseded_by-ok ids [] h = ([], unfold superseded_by in refl, λ x c. cc (c, contains-nil x))
  superseded_by-ok ids (r ∷ rs) h =
      add (superseded_by-ok ids rs h.1) r.supersedes_release_identity_hash refl
    where
      add :
          (s : List Text) × (superseded_by all rs ≡ ok s) × Within s ids
          → (o : Option Text) → r.supersedes_release_identity_hash ≡ o
          → (s : List Text) × (superseded_by all (r ∷ rs) ≡ ok s) × Within s ids
      add (s, g, w) none e = (s, superseded_by-none r rs e ∙ g, w)
      add (s, g, w) (some p) e =
          let ((n, f), c) = h.0 p e in
          (p ∷ s, rw (superseded_by-some r rs p e, f, g), Within-cons p s ids w c)

  -- The collecting fails for one reason only.
  pub superseded_by-err :
      (rs : List CatalogedRelease) (x : ErrorKind)
      → superseded_by all rs ≡ err x
      → x ≡ lineage_ambiguous
  superseded_by-err [] x h = unfold superseded_by in cc
  superseded_by-err (r ∷ rs) x h =
      split (superseded_by-err rs) r.supersedes_release_identity_hash refl
    where
      split :
          ((y : ErrorKind) → superseded_by all rs ≡ err y → y ≡ lineage_ambiguous)
          → (o : Option Text) → r.supersedes_release_identity_hash ≡ o
          → x ≡ lineage_ambiguous
      split ih none e = ih x (sym (superseded_by-none r rs e) ∙ h)
      split ih (some p) e = inner (find_release p all) refl (superseded_by all rs) refl
        where
          inner :
              (o : Option CatalogedRelease)
              → find_release p all ≡ o
              → (m : Result ErrorKind (List Text)) → superseded_by all rs ≡ m
              → x ≡ lineage_ambiguous
          inner none f m g = cc (h, superseded_by-some r rs p e, f)
          inner (some n) f (ok t) g = cc (h, superseded_by-some r rs p e, f, g)
          inner (some n) f (err y) g = cc (ih y g, rw (superseded_by-some r rs p e, f, g) at h)

heads_of-dropped :
    (s : List Text) (r : CatalogedRelease) (rs : List CatalogedRelease)
    → contains r.release_identity_hash s ≡ true
    → heads_of s (r ∷ rs) ≡ heads_of s rs
unfolding heads_of
heads_of-dropped s r rs e = rw e

heads_of-kept :
    (s : List Text) (r : CatalogedRelease) (rs : List CatalogedRelease)
    → contains r.release_identity_hash s ≡ false
    → heads_of s (r ∷ rs) ≡ r ∷ heads_of s rs
unfolding heads_of
heads_of-kept s r rs e = rw e

-- What is left as a head stands in the family, and is not superseded.
pub heads_of-All :
    (P : CatalogedRelease → Type 0) (s : List Text) (rs : List CatalogedRelease)
    → All P rs
    → All P (heads_of s rs)
unfolding heads_of
heads_of-All P s [] h = tt
heads_of-All P s (r ∷ rs) h =
    elim (contains r.release_identity_hash s)
      as (λ b. All P (if b then heads_of s rs else r ∷ heads_of s rs)) [
        | true ↦ heads_of-All P s rs h.1
        | false ↦ (h.0, heads_of-All P s rs h.1)
      ]

-- No release is left as a head where every one is superseded.
pub heads_of-none :
    (s : List Text) (rs : List CatalogedRelease)
    → All (λ r. contains r.release_identity_hash s ≡ true) rs
    → heads_of s rs ≡ []
unfolding heads_of
heads_of-none s [] h = refl
heads_of-none s (r ∷ rs) h = rw h.0 (heads_of-none s rs h.1)

-- The identity that is sought stands elsewhere, or nowhere.
others_superseded :
    (s : List Text) (x : Text) (rs : List CatalogedRelease)
    → contains x (identities rs) ≡ false
    → All (λ r. (r.release_identity_hash ≡ x) ⊎ (contains r.release_identity_hash s ≡ true)) rs
    → All (λ r. contains r.release_identity_hash s ≡ true) rs
unfolding contains
others_superseded s x [] c h = tt
others_superseded s x (r ∷ rs) c (inl e, h) = cc (c, e, text_eq_refl x)
others_superseded s x (r ∷ rs) c (inr e, h) =
    (e, others_superseded s x rs (ground (arith, text_eq_iff x r.release_identity_hash)) h)

find_release-skip :
    (x : Text) (r : CatalogedRelease) (rs : List CatalogedRelease)
    → r.release_identity_hash ≢ x
    → find_release x (r ∷ rs) ≡ find_release x rs
unfolding find_release
find_release-skip x r rs ne = ground (arith, text_eq→ r.release_identity_hash x)

find_release-here :
    (x : Text) (r : CatalogedRelease) (rs : List CatalogedRelease)
    → r.release_identity_hash ≡ x
    → contains x (identities rs) ≡ false
    → find_release x (r ∷ rs) ≡ some r
unfolding find_release
find_release-here x r rs e c =
    rw (find_release-none x rs c) (rw ((text_eq_iff r.release_identity_hash x).1 e))

-- One release is left where all but it are superseded.
pub heads_of-one :
    (s : List Text) (x : Text) (rs : List CatalogedRelease) (head : CatalogedRelease)
    → IsDistinct (identities rs)
    → find_release x rs ≡ some head
    → contains x s ≡ false
    → All (λ r. (r.release_identity_hash ≡ x) ⊎ (contains r.release_identity_hash s ≡ true)) rs
    → heads_of s rs ≡ head ∷ []
heads_of-one s x [] head d f n h = unfold find_release in cc
heads_of-one s x (r ∷ rs) head d f n (inl e, h) =
    let apart : contains x (identities rs) ≡ false =
      subst (λ t. contains t (identities rs) ≡ false) e d.0 in
    cc (
      f,
      find_release-here x r rs e apart,
      heads_of-kept s r rs (subst (λ t. contains t s ≡ false) (sym e) n),
      heads_of-none s rs (others_superseded s x rs apart h),
    )
heads_of-one s x (r ∷ rs) head d f n (inr e, h) =
    heads_of-dropped s r rs e
    ∙ heads_of-one s x rs head d.1 (sym (find_release-skip x r rs (λ same. cc (e, n, same))) ∙ f) n
        h
