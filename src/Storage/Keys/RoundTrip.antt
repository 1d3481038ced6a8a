-- ===== src/Storage/Keys/RoundTrip.antt =====
-- Canonical keys and digests determine each other (src/mx_bank_monitor/ingestion/artifacts.py).
use mexican_banking_monitor.Base.{
  ℕ, zero, suc, ◌≡◌, refl, sym, subst, ap, ◌∙◌, inl, inr, Bool, true, Option, some, [], ◌∷◌, ◌++◌,
  arith, Text, codes, text_eq, text_eq→, text_eq_refl, length, take, drop, All, ok, require, ◌>>◌,
  >>-eq-ok, require-eq-ok, Bool-cases, Option-cases,
}
use mexican_banking_monitor.Base.Regex.{
  Reads, class, times, fullmatch, fullmatch-All, fullmatch-times, length-times,
}
use mexican_banking_monitor.Discovery.Patterns.{hex, is_sha256, sha256_pattern}
use mexican_banking_monitor.Storage.Errors.{invalid_location}
use mexican_banking_monitor.Storage.Keys.{
  key_of, strip_prefix, digest_group, checked_digest, digest_behind, sha256_from_key,
}

pub strip_prefix-append : (p s : Text) → strip_prefix p (p ++ s) ≡ some s
unfolding strip_prefix
strip_prefix-append [] s = refl
strip_prefix-append (c ∷ p) s = ground (arith, strip_prefix-append p s)

append_of-strip_prefix : (p t s : Text) → strip_prefix p t ≡ some s → t ≡ p ++ s
unfolding strip_prefix
append_of-strip_prefix [] t s h = cc h
append_of-strip_prefix (c ∷ p) [] s h = cc h
append_of-strip_prefix (c ∷ p) (d ∷ t) s h = ground (arith, append_of-strip_prefix p t s)

Reads-times : (n : ℕ) (p : ℕ → Bool) → Reads p (times n (class p))
Reads-times zero p = tt
Reads-times (suc n) p = (λ c e. e, Reads-times n p)

-- A digest has 64 hexadecimal digits.
is_sha256-All : (s : Text) → is_sha256 s ≡ true → All (λ c. hex c ≡ true) s
unfolding is_sha256
is_sha256-All s h = fullmatch-All hex sha256_pattern s (Reads-times 64 hex) h

is_sha256-length : (s : Text) → is_sha256 s ≡ true → length s ≡ 64
unfolding is_sha256
is_sha256-length s h = length-times 64 hex s h

-- Its first two digits are a shard, and are split off again.
record IsSharded (s : Text) : Type 0 where
  shard : fullmatch (times 2 (class hex)) (take 2 s) ≡ true
  first : take 2 (take 2 s ++ (b'/' ∷ s)) ≡ take 2 s
  second : drop 2 (take 2 s ++ (b'/' ∷ s)) ≡ b'/' ∷ s

IsSharded-is_sha256 : (s : Text) → is_sha256 s ≡ true → IsSharded s
IsSharded-is_sha256 [] h = cc (is_sha256-length [] h)
IsSharded-is_sha256 (a ∷ []) h = absurd (omega (arith, is_sha256-length (a ∷ []) h))
IsSharded-is_sha256 (a ∷ b ∷ s) h =
    let digits = is_sha256-All (a ∷ b ∷ s) h in
    record {
      shard = fullmatch-times hex (a ∷ b ∷ []) (digits.0, (digits.1.0, tt));
      first = refl;
      second = refl;
    }

digest_group-key_of :
    (s : Text) → is_sha256 s ≡ true → digest_group (take 2 s ++ (b'/' ∷ s)) ≡ some s
unfolding digest_group
digest_group-key_of s h =
    let w = IsSharded-is_sha256 s h in
    rw (w.first, w.shard, w.second) (strip_prefix-append (b'/' ∷ []) s)

take-append_drop : (n : ℕ) (s : Text) → take n s ++ drop n s ≡ s
take-append_drop zero s = refl
take-append_drop (suc n) [] = refl
take-append_drop (suc n) (c ∷ s) = rw (take-append_drop n s)

-- From the canonical key of 64 hexadecimal digits, `_sha256_from_key` reads these digits.
pub sha256_from_key-key_of : (s : Text) → is_sha256 s ≡ true → sha256_from_key (key_of s) ≡ ok s
unfolding sha256_from_key
sha256_from_key-key_of s h =
    let w = IsSharded-is_sha256 s h in
    ap digest_behind (strip_prefix-append (codes "sha256/") (take 2 s ++ (b'/' ∷ s)))
    ∙ ap (λ (d : Option Text). checked_digest (take 2 (take 2 s ++ (b'/' ∷ s))) d)
        (digest_group-key_of s h)
    ∙ rw (h, w.first) (rw (text_eq_refl (take 2 s)))

digest_group-append :
    (rest digest : Text) → digest_group rest ≡ some digest → rest ≡ take 2 rest ++ (b'/' ∷ digest)
unfolding digest_group
digest_group-append rest digest h =
    elim (Bool-cases (fullmatch (times 2 (class hex)) (take 2 rest))) [
      | inl e ↦
          let behind = append_of-strip_prefix (b'/' ∷ []) (drop 2 rest) digest (rw e at h) in
          sym (take-append_drop 2 rest) ∙ ap (λ (t : Text). take 2 rest ++ t) behind
      | inr e ↦ cc (rw e at h)
    ]

-- A key that has a digest is the key of that digest, which has the SHA-256 form.
pub key_of-sha256_from_key :
    (key s : Text) → sha256_from_key key ≡ ok s → (is_sha256 s ≡ true) × (key ≡ key_of s)
unfolding sha256_from_key
key_of-sha256_from_key key s h = elim (Option-cases (strip_prefix (codes "sha256/") key)) [
  | inl e ↦ cc (h, ap digest_behind e)
  | inr (rest, e) ↦ elim (Option-cases (digest_group rest)) [
    | inl f ↦ cc (h, ap digest_behind e, ap (checked_digest (take 2 rest)) f)
    | inr (digest, f) ↦
        found rest digest e f (sym (ap digest_behind e ∙ ap (checked_digest (take 2 rest)) f) ∙ h)
  ]
]
  where
    found :
        (rest digest : Text)
        → strip_prefix (codes "sha256/") key ≡ some rest
        → digest_group rest ≡ some digest
        → (require (is_sha256 digest) invalid_location
            >> (require (text_eq (take 2 rest) (take 2 digest)) invalid_location >> ok digest))
          ≡ ok s
        → (is_sha256 s ≡ true) × (key ≡ key_of s)
    found rest digest e f k =
        let (form, k1) =
          >>-eq-ok (require (is_sha256 digest) invalid_location)
            (require (text_eq (take 2 rest) (take 2 digest)) invalid_location >> ok digest) k in
        let (shard, k2) =
          >>-eq-ok (require (text_eq (take 2 rest) (take 2 digest)) invalid_location) (ok digest)
            k1 in
        let same : digest ≡ s = cc k2 in
        let prefix : take 2 rest ≡ take 2 digest =
          text_eq→ _ _
            (require-eq-ok (text_eq (take 2 rest) (take 2 digest)) invalid_location shard) in
        let whole : key ≡ key_of digest =
          append_of-strip_prefix (codes "sha256/") key rest e
          ∙ ap (λ (t : Text). codes "sha256/" ++ t)
              (digest_group-append rest digest f
                ∙ ap (λ (t : Text). t ++ (b'/' ∷ digest)) prefix) in
        subst (λ (d : Text). (is_sha256 d ≡ true) × (key ≡ key_of d)) same
          (require-eq-ok (is_sha256 digest) invalid_location form, whole)
