-- ===== src/Discovery/Lineage/Growth.antt =====
-- A release that supersedes the head of a lineage, added to the family, is the head of a lineage.
use mexican_banking_monitor.Base.{
  ◌≡◌, ◌≢◌, sym, subst, ◌∙◌, inl, inr, false, some, List, [], ◌∷◌, ◌++◌, arith, Text, text_eq→,
  text_eq_refl, length-append, contains, Bool-cases,
}
use mexican_banking_monitor.Base.Distinct.{
  IsDistinct, contains-nil, contains-head, contains-cons_ne,
}
use mexican_banking_monitor.Discovery.Releases.{CatalogedRelease}
use mexican_banking_monitor.Discovery.Lineage.{find_release}
use mexican_banking_monitor.Discovery.Lineage.Chain.{Chain, oldest, older, IsLineage, identities}
use mexican_banking_monitor.Discovery.Lineage.Resolve.{on_chain}

absent-append :
    (new : CatalogedRelease) (x : Text) (rs : List CatalogedRelease)
    → x ≢ new.release_identity_hash
    → contains x (identities rs) ≡ false
    → contains x (identities (rs ++ new ∷ [])) ≡ false
unfolding contains
absent-append new x [] ne h = ground (arith, text_eq→ x new.release_identity_hash)
absent-append new x (q ∷ rs) ne h = ground (arith, absent-append new x rs ne)

module _ (new : CatalogedRelease) where
  pub find_release-append_self :
      (all : List CatalogedRelease)
      → find_release new.release_identity_hash (all ++ new ∷ []) ≡ some new
  unfolding find_release
  find_release-append_self [] = rw (text_eq_refl new.release_identity_hash)
  find_release-append_self (r ∷ all) = rw (find_release-append_self all)

  pub find_release-append_ne :
      (p : Text) (all : List CatalogedRelease)
      → new.release_identity_hash ≢ p
      → find_release p (all ++ new ∷ []) ≡ find_release p all
  unfolding find_release
  find_release-append_ne p [] ne = ground (arith, text_eq→ new.release_identity_hash p)
  find_release-append_ne p (r ∷ all) ne = rw (find_release-append_ne p all ne)

  Chain-append :
      (all : List CatalogedRelease) (r : CatalogedRelease) (ids : List Text)
      → contains new.release_identity_hash ids ≡ false
      → Chain all r ids
      → Chain (all ++ new ∷ []) r ids
  unfolding contains
  Chain-append all r [] n (oldest _ e) = oldest r e
  Chain-append all r (p ∷ ids) n (older _ q _ _ e f c) =
      older r q p ids e
        (find_release-append_ne p all
            (λ same. cc (n, contains-head new.release_identity_hash ids, same))
          ∙ f)
        (Chain-append all q ids (ground arith) c)

  pub identities-append :
      (all : List CatalogedRelease)
      → IsDistinct (identities all)
      → contains new.release_identity_hash (identities all) ≡ false
      → IsDistinct (identities (all ++ new ∷ []))
  identities-append [] d n = (contains-nil new.release_identity_hash, tt)
  identities-append (r ∷ all) d n = (
    absent-append new r.release_identity_hash all (λ e. ne (sym e)) d.0,
    identities-append all d.1 (not_tail n),
  )
    where
      ne : new.release_identity_hash ≢ r.release_identity_hash
      ne same = cc (
        subst (λ t. contains t (identities (r ∷ all)) ≡ false) same n,
        contains-head r.release_identity_hash (identities all),
      )

      not_tail :
          contains new.release_identity_hash (identities (r ∷ all)) ≡ false
          → contains new.release_identity_hash (identities all) ≡ false
      not_tail h =
          sym
            (contains-cons_ne new.release_identity_hash r.release_identity_hash (identities all) ne)
          ∙ h

  module _ (all : List CatalogedRelease) (head : CatalogedRelease) (ids : List Text)
      (d : IsDistinct (identities all)) (l : IsLineage all head ids)
      (supersedes : new.supersedes_release_identity_hash ≡ some head.release_identity_hash)
      (fresh : contains new.release_identity_hash (head.release_identity_hash ∷ ids) ≡ false) where
    -- It was not in the family before.
    pub new_identity : contains new.release_identity_hash (identities all) ≡ false
    new_identity = elim (Bool-cases (contains new.release_identity_hash (identities all))) [
      | inl e ↦ cc (on_chain all head ids d l new.release_identity_hash e, fresh)
      | inr e ↦ e
    ]

    -- The family with the new release is a lineage below it.
    pub IsLineage-append : IsLineage (all ++ new ∷ []) new (head.release_identity_hash ∷ ids)
    IsLineage-append =
        let ne : new.release_identity_hash ≢ head.release_identity_hash = λ e. cc (
          subst (λ t. contains t (head.release_identity_hash ∷ ids) ≡ false) e fresh,
          contains-head head.release_identity_hash ids,
        ) in
        record {
          chain =
              older new head head.release_identity_hash ids supersedes
                (find_release-append_ne head.release_identity_hash all ne ∙ l.member)
                (Chain-append all head ids
                  (sym
                      (contains-cons_ne new.release_identity_hash head.release_identity_hash ids ne)
                    ∙ fresh)
                  l.chain);
          member = find_release-append_self all;
          distinct = (fresh, l.distinct);
          complete = omega (arith, l.complete, length-append all (new ∷ []));
        }
