-- ===== src/Http/Headers.antt =====
-- The headers of a response (src/mx_bank_monitor/ingestion/http.py). A header's value is found by its
-- name in lowercase.
use mexican_banking_monitor.Base.{
  ℕ, ◌+◌, ◌*◌, ◌-◌, ◌^◌, Bool, true, false, not, ◌&&◌, ◌||◌, Option, none, some, [], ◌∷◌, Text,
  codes, text_eq, length, Result, ok, err, if◌then◌else◌, ltb, between,
}
use mexican_banking_monitor.Base.Regex.{class, plus, fullmatch}
use mexican_banking_monitor.Discovery.Errors.{ErrorKind, length_mismatch}
use mexican_banking_monitor.Discovery.Summary.{is_control_character, strip, is_blank}

-- What the client raises: an error of discovery, a `ValueError`, or an error of a stream that breaks
-- off. `exhausted` stands for the end of a loop that the code does not bound.
pub data HttpError : Type 0 where
  discovery : ErrorKind → HttpError
  value_error : HttpError
  stream_error : HttpError
  exhausted : HttpError

abbrev pub Headers : Type 0
Headers = Text → Option Text

unfoldable pub contains_control_character : Text → Bool
unfolding is_control_character
contains_control_character [] = false
contains_control_character (c ∷ value) = is_control_character c || contains_control_character value

abbrev exceeds : Option ℕ → Text → Bool
exceeds none value = false
exceeds (some max_length) value = ltb max_length (length value)

unfoldable pub safe_observational_header : Option Text → Option ℕ → Option Text
unfolding contains_control_character is_blank
safe_observational_header none max_length = none
safe_observational_header (some value) max_length =
    if contains_control_character value || is_blank value
    then none
    else if exceeds max_length value
    then none
    else some value

abbrev pub etag_max_length : ℕ
etag_max_length = 1024

abbrev pub last_modified_max_length : ℕ
last_modified_max_length = 128

abbrev pub max_content_length : ℕ
max_content_length = 2 ^ 63 - 1

unfoldable pub is_digits : Text → Bool
is_digits raw = fullmatch (plus (class (between 48 57))) raw

-- int(raw), of digits.
abbrev decimal_value : ℕ → Text → ℕ
decimal_value value [] = value
decimal_value value (c ∷ raw) = decimal_value (value * 10 + (c - 48)) raw

-- `int` refuses more digits than `sys.get_int_max_str_digits()`, 4300 by default.
unfoldable pub int_of_digits : Text → Result HttpError ℕ
int_of_digits raw = if ltb 4300 (length raw) then err value_error else ok (decimal_value 0 raw)

abbrev pub at_most_max : Result HttpError ℕ → Result HttpError (Option ℕ)
at_most_max (err e) = err e
at_most_max (ok value) = if ltb max_content_length value then ok none else ok (some value)

-- The value of digits, none where they are malformed or too large.
unfoldable pub parse_content_length : Text → Result HttpError (Option ℕ)
unfolding is_digits int_of_digits strip
parse_content_length value =
    let raw = strip value in if is_digits raw then at_most_max (int_of_digits raw) else ok none

unfoldable pub optional_content_length : Option Text → Result HttpError (Option ℕ)
unfolding parse_content_length
optional_content_length none = ok none
optional_content_length (some value) = parse_content_length value

abbrev pub required : Result HttpError (Option ℕ) → Result HttpError (Option ℕ)
required (ok none) = err (discovery length_mismatch)
required other = other

unfoldable pub required_content_length : Option Text → Result HttpError (Option ℕ)
unfolding parse_content_length
required_content_length none = ok none
required_content_length (some value) = required (parse_content_length value)

unfoldable pub optional_content_encoding : Option Text → Option Text
unfolding contains_control_character strip is_blank
optional_content_encoding none = none
optional_content_encoding (some raw) =
    if contains_control_character raw || is_blank raw then none else some (strip raw)

unfoldable pub identity_encoding_accepted : (Text → Text) → Option Text → Bool
unfolding contains_control_character strip
identity_encoding_accepted casefold none = true
identity_encoding_accepted casefold (some raw) =
    not (contains_control_character raw) && text_eq (casefold (strip raw)) (codes "identity")
