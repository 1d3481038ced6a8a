-- ===== src/Base/Json.antt =====
-- JSON values, and `json.dumps(..., sort_keys=True, separators=(",", ":"), ensure_ascii=True)`.
use Prim.Native.Nat.{ℕ, zero, suc, ◌+◌, ◌-◌, ◌/◌, ◌%◌}
use mathlib.Core.Bool.{Bool, true, false}
use mathlib.Core.List.{[], ◌∷◌, ◌++◌}
use mexican_banking_monitor.Base.Tests.{ltb, between, ◌==◌, if◌then◌else◌}
use mexican_banking_monitor.Base.Texts.{Text, codes, text_lt}

mutual
  pub data Json : Type 0 where
    null : Json
    boolean : Bool → Json
    number : ℕ → Json
    string : Text → Json
    array : Items → Json
    object : Fields → Json

  pub data Items : Type 0 where
    nil : Items
    cons : Json → Items → Items

  pub data Fields : Type 0 where
    end : Fields
    field : Text → Json → Fields → Fields

-- One hexadecimal digit.
unfoldable pub hex_digit : ℕ → ℕ
hex_digit d = if ltb d 10 then 48 + d else 87 + d

-- The last n hexadecimal digits, the highest first.
unfoldable pub hex_digits : ℕ → ℕ → Text
unfolding hex_digit
hex_digits zero x = []
hex_digits (suc n) x = hex_digits n (x / 16) ++ hex_digit (x % 16) ∷ []

unicode_escape : ℕ → Text
unfolding hex_digits
unicode_escape c = b'\\' ∷ b'u' ∷ hex_digits 4 c

-- One character inside a string literal, in ASCII.
unfoldable pub escape : ℕ → Text
unfolding unicode_escape
escape c =
    if c == b'"'
    then b'\\' ∷ b'"' ∷ []
    else if c == b'\\'
    then b'\\' ∷ b'\\' ∷ []
    else if c == 10
    then b'\\' ∷ b'n' ∷ []
    else if c == 13
    then b'\\' ∷ b'r' ∷ []
    else if c == 9
    then b'\\' ∷ b't' ∷ []
    else if c == 12
    then b'\\' ∷ b'f' ∷ []
    else if c == 8
    then b'\\' ∷ b'b' ∷ []
    else if between 32 126 c
    then c ∷ []
    else if ltb c 0x10000
    then unicode_escape c
    else unicode_escape (0xd800 + (c - 0x10000) / 0x400)
      ++ unicode_escape (0xdc00 + (c - 0x10000) % 0x400)

unfoldable pub escape_all : Text → Text
unfolding escape
escape_all [] = []
escape_all (c ∷ s) = escape c ++ escape_all s

unfoldable pub quoted : Text → Text
unfolding escape_all
quoted s = b'"' ∷ (escape_all s ++ b'"' ∷ [])

-- The decimal digits of n before `rest`; the fuel n + 1 is more than the number of digits.
decimal_from : ℕ → ℕ → Text → Text
decimal_from zero n rest = rest
decimal_from (suc f) n rest =
    let d = (48 + n % 10) ∷ rest in
    let more = decimal_from f (n / 10) d in if ltb n 10 then d else more

unfoldable pub decimal : ℕ → Text
unfolding decimal_from
decimal n = decimal_from (suc n) n []

-- The fields in the order of their keys.
insert_field : Text → Json → Fields → Fields
insert_field k v end = field k v end
insert_field k v (field j w fs) =
    if text_lt j k then field j w (insert_field k v fs) else field k v (field j w fs)

sort_fields : Fields → Fields
unfolding insert_field text_lt
sort_fields end = end
sort_fields (field k v fs) = insert_field k v (sort_fields fs)

unfoldable mutual
  pub dumps_sorted : Json → Text
  dumps_sorted null = codes "null"
  dumps_sorted (boolean true) = codes "true"
  dumps_sorted (boolean false) = codes "false"
  dumps_sorted (number n) = decimal n
  dumps_sorted (string s) = quoted s
  dumps_sorted (array xs) = b'[' ∷ (dumps_items xs ++ b']' ∷ [])
  dumps_sorted (object fs) = b'{' ∷ (dumps_fields fs ++ b'}' ∷ [])

  pub dumps_items : Items → Text
  dumps_items nil = []
  dumps_items (cons x nil) = dumps_sorted x
  dumps_items (cons x xs) = dumps_sorted x ++ b',' ∷ dumps_items xs

  pub dumps_fields : Fields → Text
  dumps_fields end = []
  dumps_fields (field k v end) = quoted k ++ b':' ∷ dumps_sorted v
  dumps_fields (field k v fs) = quoted k ++ b':' ∷ dumps_sorted v ++ b',' ∷ dumps_fields fs

unfoldable mutual
  unfolding sort_fields insert_field text_lt

  pub sort_keys : Json → Json
  sort_keys (array xs) = array (sort_items xs)
  sort_keys (object fs) = object (sort_fields (sort_each fs))
  sort_keys j = j

  pub sort_items : Items → Items
  sort_items nil = nil
  sort_items (cons x xs) = cons (sort_keys x) (sort_items xs)

  pub sort_each : Fields → Fields
  sort_each end = end
  sort_each (field k v fs) = field k (sort_keys v) (sort_each fs)

unfoldable pub dumps : Json → Text
unfolding dumps_sorted dumps_items dumps_fields sort_keys sort_items sort_each quoted decimal
dumps j = dumps_sorted (sort_keys j)
