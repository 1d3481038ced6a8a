-- ===== src/Migrations/Listing/Accept.antt =====
-- Which dry runs are accepted (scripts/validate_production_migrations.py).
use mexican_banking_monitor.Base.{
  ◌≡◌, refl, ap, subst, Bool, true, false, Option, none, some, List, [], ◌∷◌, map, Text, codes, ok,
  require, >>=-eq-ok, >>-eq-ok, require-eq-ok,
}
use mexican_banking_monitor.Base.Json.{
  Json, boolean, string, array, object, Items, nil, cons, Fields,
}
use mexican_banking_monitor.Base.Sorting.{texts_eq, texts_eq→}
use mexican_banking_monitor.Migrations.History.{Migration}
use mexican_banking_monitor.Migrations.Listing.{
  root_fields, load_json_object, field_value, as_text, as_list, as_bool, typed, present,
  require_field, onto, all_texts, texts_or, is_nil, is_empty, same_bool, file_name,
  validate_dry_run, not_dry_run, unexpected_seeds, unexpected_roles, plan_differs,
  up_to_date_inconsistent,
}

-- The strings as JSON items.
abbrev pub text_items : List Text → Items
text_items [] = nil
text_items (name ∷ names) = cons (string name) (text_items names)

-- A dry run of exactly the pending migrations.
pub record IsGated (payload : Fields) (pending : List Migration) : Type 0 where
  pub dry : field_value (codes "dryRun") payload ≡ some (boolean true)
  pub planned :
      field_value (codes "migrations") payload ≡ some (array (text_items (map file_name pending)))
  pub seeds : field_value (codes "seeds") payload ≡ some (array nil)
  pub roles : field_value (codes "roles") payload ≡ some (array nil)
  pub up_to_date :
      field_value (codes "upToDate") payload ≡ some (boolean (is_empty (map file_name pending)))

root_fields-ok :
    (o : Option Json) (payload : Fields) → root_fields o ≡ ok payload → o ≡ some (object payload)
root_fields-ok none payload h = cc h
root_fields-ok (some (object p)) payload h = cc h
root_fields-ok (some Json.null) payload h = cc h
root_fields-ok (some (boolean b)) payload h = cc h
root_fields-ok (some (Json.number n)) payload h = cc h
root_fields-ok (some (string s)) payload h = cc h
root_fields-ok (some (array xs)) payload h = cc h

typed-ok : {A : Type 0} (name : Text) (o : Option A) (a : A) → typed name o ≡ ok a → o ≡ some a
typed-ok name none a h = cc h
typed-ok name (some x) a h = cc h

present-ok :
    {A : Type 0} (type_of : Json → Option A) (name : Text) (o : Option Json) (a : A)
    → present type_of name o ≡ ok a
    → (j : Json) × (o ≡ some j) × (type_of j ≡ some a)
present-ok type_of name none a h = cc h
present-ok type_of name (some j) a h = (j, refl, typed-ok name (type_of j) a h)

as_bool-some : (j : Json) (b : Bool) → as_bool j ≡ some b → j ≡ boolean b
as_bool-some Json.null b h = cc h
as_bool-some (boolean x) b h = cc h
as_bool-some (Json.number n) b h = cc h
as_bool-some (string s) b h = cc h
as_bool-some (array xs) b h = cc h
as_bool-some (object fs) b h = cc h

as_list-some : (j : Json) (items : Items) → as_list j ≡ some items → j ≡ array items
as_list-some Json.null b h = cc h
as_list-some (boolean x) b h = cc h
as_list-some (Json.number n) b h = cc h
as_list-some (string s) b h = cc h
as_list-some (array xs) b h = cc h
as_list-some (object fs) b h = cc h

as_text-some : (j : Json) (s : Text) → as_text j ≡ some s → j ≡ string s
as_text-some Json.null b h = cc h
as_text-some (boolean x) b h = cc h
as_text-some (Json.number n) b h = cc h
as_text-some (string s) b h = cc h
as_text-some (array xs) b h = cc h
as_text-some (object fs) b h = cc h

bool_field :
    (payload : Fields) (name : Text) (b : Bool)
    → require_field as_bool payload name ≡ ok b
    → field_value name payload ≡ some (boolean b)
bool_field payload name b h =
    let (j, e, k) = present-ok as_bool name (field_value name payload) b h in
    cc (e, as_bool-some j b k)

list_field :
    (payload : Fields) (name : Text) (items : Items)
    → require_field as_list payload name ≡ ok items
    → field_value name payload ≡ some (array items)
list_field payload name items h =
    let (j, e, k) = present-ok as_list name (field_value name payload) items h in
    cc (e, as_list-some j items k)

onto-some :
    (o : Option Text) (p : Option (List Text)) (names : List Text)
    → onto o p ≡ some names
    → (s : Text) × (rest : List Text) × (o ≡ some s) × (p ≡ some rest) × (s ∷ rest ≡ names)
onto-some none none names h = cc h
onto-some none (some rest) names h = cc h
onto-some (some s) none names h = cc h
onto-some (some s) (some rest) names h = (s, rest, refl, refl, cc h)

all_texts-some :
    (items : Items) (names : List Text) → all_texts items ≡ some names → items ≡ text_items names
all_texts-some nil names h = let same : [] ≡ names = cc h in ap text_items same
all_texts-some (cons item items) names h =
    let (s, rest, e, k, same) = onto-some (as_text item) (all_texts items) names h in
    let tail = all_texts-some items rest k in
    let head = as_text-some item s e in cc (tail, head, ap text_items same)

texts_or-ok : (o : Option (List Text)) (names : List Text) → texts_or o ≡ ok names → o ≡ some names
texts_or-ok none names h = cc h
texts_or-ok (some x) names h = cc h

is_nil-eq : (items : Items) → is_nil items ≡ true → items ≡ nil
is_nil-eq nil h = refl
is_nil-eq (cons item items) h = cc h

same_bool-eq : (a b : Bool) → same_bool a b ≡ true → a ≡ b
same_bool-eq true true h = refl
same_bool-eq true false h = cc h
same_bool-eq false true h = cc h
same_bool-eq false false h = refl

-- A dry run that `validate_dry_run` accepts says that it is one, plans exactly the pending
-- migrations in their order, has neither seeds nor roles, and is up to date exactly where
-- nothing is pending.
pub validate_dry_run-IsGated :
    (loads : Text → Option Json) (text : Text) (pending : List Migration)
    → validate_dry_run loads text pending ≡ ok tt
    → (payload : Fields) × (loads text ≡ some (object payload)) × IsGated payload pending
unfolding validate_dry_run load_json_object
validate_dry_run-IsGated loads text pending h =
    let gated = map file_name pending in
    let (payload, e0, k0) = >>=-eq-ok (root_fields (loads text)) _ h in
    let (dry, e1, k1) = >>=-eq-ok (require_field as_bool payload (codes "dryRun")) _ k0 in
    let (e2, k2) = >>-eq-ok (require dry not_dry_run) _ k1 in
    let (up_to_date, e3, k3) = >>=-eq-ok (require_field as_bool payload (codes "upToDate")) _ k2 in
    let (planned, e4, k4) = >>=-eq-ok (require_field as_list payload (codes "migrations")) _ k3 in
    let (seeds, e5, k5) = >>=-eq-ok (require_field as_list payload (codes "seeds")) _ k4 in
    let (roles, e6, k6) = >>=-eq-ok (require_field as_list payload (codes "roles")) _ k5 in
    let (names, e7, k7) = >>=-eq-ok (texts_or (all_texts planned)) _ k6 in
    let (e8, k8) = >>-eq-ok (require (is_nil seeds) unexpected_seeds) _ k7 in
    let (e9, k9) = >>-eq-ok (require (is_nil roles) unexpected_roles) _ k8 in
    let (e10, k10) =
      >>-eq-ok (require (texts_eq names gated) plan_differs)
        (require (same_bool up_to_date (is_empty gated)) up_to_date_inconsistent) k9 in
    let items = all_texts-some planned names (texts_or-ok (all_texts planned) names e7) in
    let same = texts_eq→ names gated (require-eq-ok (texts_eq names gated) plan_differs e10) in
    (
      payload,
      root_fields-ok (loads text) payload e0,
      record {
        dry =
            subst (λ b. field_value (codes "dryRun") payload ≡ some (boolean b))
              (require-eq-ok dry not_dry_run e2) (bool_field payload (codes "dryRun") dry e1);
        planned =
            subst (λ xs. field_value (codes "migrations") payload ≡ some (array (text_items xs)))
              same
              (subst (λ xs. field_value (codes "migrations") payload ≡ some (array xs)) items
                (list_field payload (codes "migrations") planned e4));
        seeds =
            subst (λ xs. field_value (codes "seeds") payload ≡ some (array xs))
              (is_nil-eq seeds (require-eq-ok (is_nil seeds) unexpected_seeds e8))
              (list_field payload (codes "seeds") seeds e5);
        roles =
            subst (λ xs. field_value (codes "roles") payload ≡ some (array xs))
              (is_nil-eq roles (require-eq-ok (is_nil roles) unexpected_roles e9))
              (list_field payload (codes "roles") roles e6);
        up_to_date =
            subst (λ b. field_value (codes "upToDate") payload ≡ some (boolean b))
              (same_bool-eq up_to_date (is_empty gated)
                (require-eq-ok (same_bool up_to_date (is_empty gated)) up_to_date_inconsistent k10))
              (bool_field payload (codes "upToDate") up_to_date e3);
      },
    )
