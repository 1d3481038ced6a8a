-- ===== src/Http/Body.antt =====
-- The body of a response, with its limit and its declared length: `_read_body`, and what
-- `_artifact_from_response` compares (src/mx_bank_monitor/ingestion/http.py).
use mexican_banking_monitor.Base.{
  ℕ, ◌+◌, ◌≡◌, refl, sym, ap, subst, ◌∙◌, arith, inl, inr, Bool, true, Option, none, some, List, [],
  ◌∷◌, ◌++◌, length, length-append, if◌then◌else◌, leb, ◌==◌, Bool-cases,
}
use mexican_banking_monitor.Discovery.Errors.{content_encoding_unsupported}
use mexican_banking_monitor.Http.Headers.{HttpError, discovery, stream_error}
use mexican_banking_monitor.Http.Network.{Ending, finished, broken, undecodable}

abbrev pub within : Option ℕ → ℕ → Bool
within none size = true
within (some max_bytes) size = leb size max_bytes

-- What becomes of the reading of a body: its content, more bytes than the limit, or an error.
pub data Body : Type 0 where
  complete : List ℕ → Body
  over_limit : Body
  failed : HttpError → Body

abbrev pub before : List ℕ → Body → Body
before chunk (complete content) = complete (chunk ++ content)
before chunk over_limit = over_limit
before chunk (failed e) = failed e

abbrev ended : Ending → Body
ended finished = complete []
ended broken = failed stream_error
ended undecodable = failed (discovery content_encoding_unsupported)

-- The chunks behind the `received` bytes.
unfoldable pub read_body : Option ℕ → ℕ → List (List ℕ) → Ending → Body
read_body max_bytes received [] ending = ended ending
read_body max_bytes received (chunk ∷ chunks) ending =
    let rest = read_body max_bytes (received + length chunk) chunks ending in
    if within max_bytes (received + length chunk) then before chunk rest else over_limit

-- declared is not None and max_bytes is not None and declared > max_bytes, and the like for lengths.
abbrev pub declared_within : Option ℕ → Option ℕ → Bool
declared_within none max_bytes = true
declared_within (some declared) max_bytes = within max_bytes declared

abbrev pub is_declared : Option ℕ → List ℕ → Bool
is_declared none content = true
is_declared (some declared) content = length content == declared

-- b"".join(chunks)
abbrev pub joined : List (List ℕ) → List ℕ
joined [] = []
joined (chunk ∷ chunks) = chunk ++ joined chunks

before-complete :
    (chunk : List ℕ) (rest : Body) (content : List ℕ)
    → before chunk rest ≡ complete content
    → (tail : List ℕ) × (rest ≡ complete tail) × (content ≡ chunk ++ tail)
before-complete chunk (complete tail) content h = (tail, refl, cc h)
before-complete chunk over_limit content h = cc h
before-complete chunk (failed e) content h = cc h

within-zero : (max_bytes : Option ℕ) → within max_bytes 0 ≡ true
within-zero none = refl
within-zero (some most) = ground arith

add_zero : (n : ℕ) → n + 0 ≡ n
add_zero n = omega arith

zero_add : (n : ℕ) → 0 + n ≡ n
zero_add n = omega arith

-- A body that is read to its end is all chunks; with the bytes before them they are within the limit,
-- if those before are.
read_body-complete :
    (max_bytes : Option ℕ) (received : ℕ) (chunks : List (List ℕ)) (ending : Ending)
    (content : List ℕ)
    → within max_bytes received ≡ true
    → read_body max_bytes received chunks ending ≡ complete content
    → (content ≡ joined chunks)
      × (ending ≡ finished)
      × (within max_bytes (received + length content) ≡ true)
unfolding read_body
read_body-complete max_bytes received [] finished content small h =
    let none_read : content ≡ [] = cc h in
    (none_read, refl, rw none_read (rw (add_zero received) small))
read_body-complete max_bytes received [] broken content small h = cc h
read_body-complete max_bytes received [] undecodable content small h = cc h
read_body-complete max_bytes received (chunk ∷ chunks) ending content small h =
    elim (Bool-cases (within max_bytes (received + length chunk))) [
      | inl e ↦
          let (tail, k, same) =
            before-complete chunk (read_body max_bytes (received + length chunk) chunks ending)
              content (rw e at h) in
          let (all, end, more) =
            read_body-complete max_bytes (received + length chunk) chunks ending tail e k in
          let whole : (received + length chunk) + length tail ≡ received + length (chunk ++ tail) =
            omega (arith, length-append chunk tail) in
          (
            same ∙ ap (λ x. chunk ++ x) all,
            end,
            subst (λ n. within max_bytes n ≡ true)
                (whole ∙ ap (λ x. received + length x) (sym same)) more,
          )
      | inr e ↦ let no : over_limit ≡ complete content = rw e at h in cc no
    ]

-- A body that is read to its end is all chunks, and within the limit.
pub read_body-ok :
    (max_bytes : Option ℕ) (chunks : List (List ℕ)) (ending : Ending) (content : List ℕ)
    → read_body max_bytes 0 chunks ending ≡ complete content
    → (content ≡ joined chunks) × (ending ≡ finished) × (within max_bytes (length content) ≡ true)
read_body-ok max_bytes chunks ending content h =
    let (all, end, small) =
      read_body-complete max_bytes 0 chunks ending content (within-zero max_bytes) h in
    (all, end, subst (λ n. within max_bytes n ≡ true) (zero_add (length content)) small)
