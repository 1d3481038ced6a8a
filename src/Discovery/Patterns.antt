-- ===== src/Discovery/Patterns.antt =====
-- The patterns and limits of ingestion/discovery.py.
use mexican_banking_monitor.Base.{ℕ, Bool, ◌&&◌, ◌||◌, Text, leb, between, ◌==◌, length}
use mexican_banking_monitor.Base.Regex.{Regex, class, seq, star, plus, times, fullmatch}

abbrev pub error_code_max_length : ℕ
error_code_max_length = 64

abbrev pub safe_summary_max_length : ℕ
safe_summary_max_length = 512

abbrev pub identity_scheme_max_length : ℕ
identity_scheme_max_length = 128

-- [a-z], [a-z0-9] and [0-9a-f]
abbrev pub lower : ℕ → Bool
lower = between b'a' b'z'

abbrev pub lower_digit : ℕ → Bool
lower_digit c = between b'a' b'z' c || between b'0' b'9' c

abbrev pub hex : ℕ → Bool
hex c = between b'0' b'9' c || between b'a' b'f' c

abbrev pub char : ℕ → Regex
char k = class (λ c. c == k)

-- [a-z][a-z0-9]*(?:_[a-z0-9]+)*
abbrev pub identifier_pattern : Regex
identifier_pattern =
    seq (class lower)
      (seq (star (class lower_digit)) (star (seq (char b'_') (plus (class lower_digit)))))

-- [a-z][a-z0-9]*(?:_[a-z0-9]+)*(?:\.[a-z0-9]+(?:_[a-z0-9]+)*)+
abbrev pub identity_scheme_pattern : Regex
identity_scheme_pattern = seq (class lower) (
    seq (star (class lower_digit)) (
      seq (star (seq (char b'_') (plus (class lower_digit)))) (
        plus (
          seq (char b'.')
            (seq (plus (class lower_digit)) (star (seq (char b'_') (plus (class lower_digit)))))))))

-- [0-9a-f]{64}
abbrev pub sha256_pattern : Regex
sha256_pattern = times 64 (class hex)

unfoldable pub is_identifier : Text → Bool
is_identifier value = fullmatch identifier_pattern value

unfoldable pub is_identity_scheme : Text → Bool
is_identity_scheme value =
    leb (length value) identity_scheme_max_length && fullmatch identity_scheme_pattern value

unfoldable pub is_sha256 : Text → Bool
is_sha256 value = fullmatch sha256_pattern value

unfoldable pub is_audit_error_code : Text → Bool
is_audit_error_code value =
    leb (length value) error_code_max_length && fullmatch identifier_pattern value
