-- ===== src/Discovery/Summary.antt =====
-- `sanitize_summary` and the summary that an exception carries.
pub mod Laws
use mexican_banking_monitor.Base.{
  ℕ, zero, suc, ◌-◌, Bool, true, false, ◌||◌, ◌&&◌, Option, none, some, List, [], ◌∷◌, ◌++◌, map,
  Text, codes, ltb, between, ◌==◌, length, take, if◌then◌else◌,
}
use mexican_banking_monitor.Discovery.Errors.{ErrorKind, default_summary}
use mexican_banking_monitor.Discovery.Patterns.{safe_summary_max_length}

-- The category Cc, and the two Unicode line separators.
unfoldable pub is_control_character : ℕ → Bool
is_control_character c = ltb c 32 || between 127 159 c || c == 0x2028 || c == 0x2029

-- The characters at which `str.split()` splits and which `str.rstrip()` strips.
unfoldable pub is_space : ℕ → Bool
is_space c =
    between 9 13 c
    || between 28 32 c
    || c == 0x85
    || c == 0xa0
    || c == 0x1680
    || between 0x2000 0x200a c
    || c == 0x2028
    || c == 0x2029
    || c == 0x202f
    || c == 0x205f
    || c == 0x3000

abbrev pub is_empty {ℓ} : {A : Type ℓ} → List A → Bool
is_empty [] = true
is_empty (x ∷ xs) = false

-- The words of the text, where `word` is what has been read of the current one.
unfoldable pub split_from : Text → Text → List Text
split_from word [] = if is_empty word then [] else word ∷ []
split_from word (c ∷ s) = elim (is_space c) [
  | true ↦ if is_empty word then split_from [] s else word ∷ split_from [] s
  | false ↦ split_from (word ++ c ∷ []) s
]

-- value.split()
unfoldable pub split : Text → List Text
unfolding split_from
split value = split_from [] value

-- " ".join(words)
unfoldable pub join_rest : List Text → Text
join_rest [] = []
join_rest (w ∷ ws) = 32 ∷ (w ++ join_rest ws)

unfoldable pub join : List Text → Text
unfolding join_rest
join [] = []
join (w ∷ ws) = w ++ join_rest ws

-- value.rstrip()
unfoldable pub rstrip : Text → Text
rstrip [] = []
rstrip (c ∷ s) = let rest = rstrip s in if is_empty rest && is_space c then [] else c ∷ rest

-- value.lstrip(), value.strip() and value.strip() == ""
unfoldable pub lstrip : Text → Text
unfolding is_space
lstrip [] = []
lstrip (c ∷ s) = if is_space c then lstrip s else c ∷ s

unfoldable pub strip : Text → Text
unfolding lstrip rstrip
strip value = rstrip (lstrip value)

unfoldable pub is_blank : Text → Bool
unfolding strip
is_blank value = is_empty (strip value)

unfoldable pub blank_control : ℕ → ℕ
unfolding is_control_character
blank_control c = if is_control_character c then 32 else c

unfoldable pub sanitize_summary : Text → Text
unfolding split join rstrip blank_control
sanitize_summary value =
    let collapsed = join (split (map blank_control value)) in
    if ltb safe_summary_max_length (length collapsed)
    then rstrip (take (safe_summary_max_length - 3) collapsed) ++ codes "..."
    else collapsed

-- `DiscoveryError.__init__`: the summary given, or the default of the class if none is left of it.
unfoldable pub safe_summary : ErrorKind → Option Text → Text
safe_summary kind none = sanitize_summary (default_summary kind)
safe_summary kind (some summary) =
    let cleaned = sanitize_summary summary in
    if is_empty cleaned then sanitize_summary (default_summary kind) else cleaned
