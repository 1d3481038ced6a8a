-- ===== src/Http/Bounded.antt =====
-- No step of an exchange ends in the error that stands for the end of a loop
-- (src/mx_bank_monitor/ingestion/http.py).
use mexican_banking_monitor.Base.{
  ℕ, ◌+◌, ◌≡◌, refl, sym, subst, inl, inr, Bool, true, false, ◌||◌, Option, none, some, List, [],
  ◌∷◌, Text, length, Result, ok, err, require, if◌then◌else◌, ltb, ◌==◌, Bool-cases, require-eq-err,
}
use mexican_banking_monitor.Discovery.Errors.{Checked, redirect_invalid}
use mexican_banking_monitor.Discovery.Summary.{strip, is_blank}
use mexican_banking_monitor.Http.Headers.{
  HttpError, discovery, value_error, exhausted, optional_content_length, required_content_length,
  parse_content_length, int_of_digits, is_digits, at_most_max, max_content_length, required,
  contains_control_character,
}
use mexican_banking_monitor.Http.Network.{Ending, finished, broken, undecodable}
use mexican_banking_monitor.Http.Body.{
  Body, complete, over_limit, failed, within, before, read_body,
}
use mexican_banking_monitor.Http.Client.{
  checked, any_space, redirect_location, joined_url, status_error,
}

abbrev pub is_exhausted : HttpError → Bool
is_exhausted exhausted = true
is_exhausted _ = false

pub checked-err :
    {A : Type 0} (c : Checked A) (e : HttpError) → checked c ≡ err e → is_exhausted e ≡ false
checked-err (ok a) e h = cc h
checked-err (err kind) e h =
    let same : discovery kind ≡ e = cc h in subst (λ x. is_exhausted x ≡ false) same refl

pub checked-ok : (c : Checked Unit) → checked c ≡ ok tt → c ≡ ok tt
checked-ok (ok tt) h = refl
checked-ok (err kind) h = cc h

pub require-err :
    (c : Bool) (x e : HttpError)
    → is_exhausted x ≡ false
    → require c x ≡ err e
    → is_exhausted e ≡ false
require-err c x e n h = subst (λ y. is_exhausted y ≡ false) (sym (require-eq-err c x e h)) n

-- No result of these is the end of a loop.
abbrev pub Bounded : {A : Type 0} → Result HttpError A → Type 0
Bounded (ok a) = Unit
Bounded (err e) = is_exhausted e ≡ false

pub Bounded-err :
    {A : Type 0} (r : Result HttpError A) (e : HttpError)
    → Bounded r
    → r ≡ err e
    → is_exhausted e ≡ false
Bounded-err (ok a) e b h = cc h
Bounded-err (err x) e b h = let same : x ≡ e = cc h in subst (λ y. is_exhausted y ≡ false) same b

if-Bounded :
    {A : Type 0} (c : Bool) (x y : Result HttpError A)
    → Bounded x
    → Bounded y
    → Bounded (if c then x else y)
if-Bounded true x y a b = a
if-Bounded false x y a b = b

at_most_max-Bounded : (r : Result HttpError ℕ) → Bounded r → Bounded (at_most_max r)
at_most_max-Bounded (ok value) b =
    if-Bounded (ltb max_content_length value) (ok none) (ok (some value)) tt tt
at_most_max-Bounded (err e) b = b

parse_content_length-Bounded : (value : Text) → Bounded (parse_content_length value)
unfolding parse_content_length int_of_digits
parse_content_length-Bounded value =
    if-Bounded (is_digits (strip value)) (at_most_max (int_of_digits (strip value))) (ok none)
      (at_most_max-Bounded (int_of_digits (strip value))
        (if-Bounded (ltb 4300 (length (strip value))) (err value_error) _ refl tt))
      tt

pub optional_content_length-Bounded : (o : Option Text) → Bounded (optional_content_length o)
unfolding optional_content_length
optional_content_length-Bounded none = tt
optional_content_length-Bounded (some value) = parse_content_length-Bounded value

required-Bounded : (r : Result HttpError (Option ℕ)) → Bounded r → Bounded (required r)
required-Bounded (ok none) b = refl
required-Bounded (ok (some value)) b = tt
required-Bounded (err e) b = b

pub required_content_length-Bounded : (o : Option Text) → Bounded (required_content_length o)
unfolding required_content_length
required_content_length-Bounded none = tt
required_content_length-Bounded (some value) =
    required-Bounded _ (parse_content_length-Bounded value)

pub redirect_location-Bounded : (o : Option Text) → Bounded (redirect_location o)
unfolding redirect_location
redirect_location-Bounded none = refl
redirect_location-Bounded (some raw) =
    if-Bounded (contains_control_character raw || is_blank raw) (err (discovery redirect_invalid)) _
      refl
      (if-Bounded (any_space (strip raw)) (err (discovery redirect_invalid)) (ok (strip raw)) refl
        tt)

pub status_error-not_exhausted : (status : ℕ) → is_exhausted (status_error status) ≡ false
unfolding status_error
status_error-not_exhausted status = elim (Bool-cases (status == 404)) [
  | inl e ↦ rw e refl
  | inr e ↦ rw e refl
]

-- Neither does the reading of a body.
abbrev pub IsBoundedBody : Body → Type 0
IsBoundedBody (complete content) = Unit
IsBoundedBody over_limit = Unit
IsBoundedBody (failed e) = is_exhausted e ≡ false

before-IsBoundedBody :
    (chunk : List ℕ) (b : Body) → IsBoundedBody b → IsBoundedBody (before chunk b)
before-IsBoundedBody chunk (complete content) b = tt
before-IsBoundedBody chunk over_limit b = tt
before-IsBoundedBody chunk (failed e) b = b

pub read_body-IsBoundedBody :
    (max_bytes : Option ℕ) (received : ℕ) (chunks : List (List ℕ)) (ending : Ending)
    → IsBoundedBody (read_body max_bytes received chunks ending)
unfolding read_body
read_body-IsBoundedBody max_bytes received [] finished = tt
read_body-IsBoundedBody max_bytes received [] broken = refl
read_body-IsBoundedBody max_bytes received [] undecodable = refl
read_body-IsBoundedBody max_bytes received (chunk ∷ chunks) ending =
    let rest = read_body-IsBoundedBody max_bytes (received + length chunk) chunks ending in
    elim (Bool-cases (within max_bytes (received + length chunk))) [
      | inl e ↦ rw e (before-IsBoundedBody chunk _ rest)
      | inr e ↦ rw e tt
    ]

pub joined_url-Bounded : (o : Option Text) → Bounded (joined_url o)
joined_url-Bounded none = refl
joined_url-Bounded (some url) = tt
