-- ===== src/Discovery/Classify/Changes.antt =====
-- Which artifacts a revision marks as revised.
use mexican_banking_monitor.Base.{
  ◌≡◌, ◌≢◌, refl, sym, ap, ◌∙◌, inl, inr, Bool, true, false, not, some, List, [], ◌∷◌, map, arith,
  Text, All, text_eq, text_eq_refl, text_eq→, text_eq_iff, lookup, if◌then◌else◌, Bool-cases,
  Option-cases,
}
use mexican_banking_monitor.Base.Texts.{text_lt_irrefl}
use mexican_banking_monitor.Base.Sorting.{IsStrict, Below}
use mexican_banking_monitor.Discovery.Releases.{pair_role}
use mexican_banking_monitor.Discovery.Classify.{
  is_revised, some_revised, digest_changed, revision_verdict,
}
use mexican_banking_monitor.Discovery.Classify.Laws.{classified}

-- The pair is what the list records for its role.
abbrev pub Recorded : List (Text × Text) → Text × Text → Type 0
Recorded pairs (role, digest) = lookup role pairs ≡ some digest

lookup-above :
    (a : Text) (d : Text) (ps qs : List (Text × Text))
    → Below a (map pair_role qs)
    → All (Recorded ps) qs
    → All (Recorded ((a, d) ∷ ps)) qs
unfolding lookup
lookup-above a d ps [] b h = tt
lookup-above a d ps ((r, e) ∷ qs) b h =
    (ground (arith, text_eq_iff r a, text_lt_irrefl a), lookup-above a d ps qs b.1 h.1)

-- With the roles in strict order each pair is recorded.
pub Recorded-self : (ps : List (Text × Text)) → IsStrict (map pair_role ps) → All (Recorded ps) ps
unfolding lookup
Recorded-self [] s = tt
Recorded-self ((r, d) ∷ ps) s =
    (rw (text_eq_refl r), lookup-above r d ps ps s.0 (Recorded-self ps s.1))

-- Two lists with the same roles, recorded alike, are one.
pub eq_of_Recorded :
    (hs ps qs : List (Text × Text))
    → All (Recorded hs) ps
    → All (Recorded hs) qs
    → map pair_role ps ≡ map pair_role qs
    → ps ≡ qs
eq_of_Recorded hs [] [] h k e = refl
eq_of_Recorded hs [] (q ∷ qs) h k e = cc
eq_of_Recorded hs (p ∷ ps) [] h k e = cc
eq_of_Recorded hs ((r, d) ∷ ps) ((s, f) ∷ qs) h k e =
    let same : r ≡ s = cc e in
    let tails : map pair_role ps ≡ map pair_role qs = cc e in
    let digests : d ≡ f = cc (h.0, k.0, same) in
    cc (same, digests, eq_of_Recorded hs ps qs h.1 k.1 tails)

-- A digest that has not changed is the one recorded.
pub digest_changed-false :
    (hs : List (Text × Text)) (r d : Text) → digest_changed hs r d ≡ false → Recorded hs (r, d)
unfolding digest_changed
digest_changed-false hs r d e = elim (Option-cases (lookup r hs)) [
  | inl f ↦ cc (rw (f, digest_changed) at e)
  | inr (x, f) ↦
      f ∙ ap some (sym (text_eq→ d x (not_false (text_eq d x) (rw (f, digest_changed) at e))))
]
  where
    not_false : (b : Bool) → not b ≡ false → b ≡ true
    not_false true h = refl
    not_false false h = cc

some_revised-cons :
    (hs : List (Text × Text)) (r d : Text) (ps : List (Text × Text))
    → some_revised (classified (revision_verdict hs) ((r, d) ∷ ps))
      ≡ (if digest_changed hs r d then true else some_revised (classified (revision_verdict hs) ps))
unfolding some_revised is_revised revision_verdict
some_revised-cons hs r d ps = ground arith

-- Where nothing is marked as revised, every pair is recorded.
Recorded-of_not_revised :
    (hs ps : List (Text × Text))
    → some_revised (classified (revision_verdict hs) ps) ≡ false
    → All (Recorded hs) ps
Recorded-of_not_revised hs [] e = tt
Recorded-of_not_revised hs ((r, d) ∷ ps) e = elim (Bool-cases (digest_changed hs r d)) [
  | inl c ↦ cc (rw (some_revised-cons hs r d ps, c) at e)
  | inr c ↦ (
    digest_changed-false hs r d c,
    Recorded-of_not_revised hs ps (rw (some_revised-cons hs r d ps, c) at e),
  )
]

-- An artifact set with the roles of the head that is not the head's has a revised artifact.
pub some_revised_of_ne :
    (hs ps : List (Text × Text))
    → IsStrict (map pair_role hs)
    → map pair_role ps ≡ map pair_role hs
    → ps ≢ hs
    → some_revised (classified (revision_verdict hs) ps) ≡ true
some_revised_of_ne hs ps s e ne =
    elim (Bool-cases (some_revised (classified (revision_verdict hs) ps))) [
      | inl t ↦ t
      | inr f ↦
          absurd
            (ne (eq_of_Recorded hs ps hs (Recorded-of_not_revised hs ps f) (Recorded-self hs s) e))
    ]
