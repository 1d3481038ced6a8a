-- ===== src/Migrations/Sql.antt =====
-- The scanner that blanks the literals and the comments of an SQL text
-- (`strip_sql_literals_and_comments` in scripts/validate_production_migrations.py). The text still
-- to be read stands for `sql[index:]`, and the loop runs on fuel.
pub mod Steps
pub mod Blanks
pub mod Literals
use mexican_banking_monitor.Base.{
  ℕ, zero, suc, ◌+◌, ◌-◌, Bool, true, false, ◌||◌, Option, none, some, List, [], ◌∷◌, ◌++◌, map,
  Text, length, take, drop, Result, ok, err, ◌>>=◌, if◌then◌else◌, ◌==◌, between,
}

pub data ScanState : Type 0 where
  normal : ScanState
  line_comment : ScanState
  block_comment : ScanState
  single_quote : ScanState
  double_quote : ScanState
  dollar_quote : ScanState

pub data SqlError : Type 0 where
  unterminated : ScanState → SqlError
  out_of_fuel : SqlError

-- The loop's variables but `index` and `output`.
pub record Scanner : Type 0 where
  pub state : ScanState
  pub block_depth : ℕ
  pub dollar_delimiter : Text

-- One round of the loop: the variables after it, by how much `index` grows, and whether these
-- characters are blanked.
pub record Move : Type 0 where
  pub next : Scanner
  pub width : ℕ
  pub is_blank : Bool

abbrev pub in_state : ScanState → Scanner → Scanner
in_state state scanner = record scanner { state = state }

-- sql.startswith(prefix, index)
unfoldable pub starts_with : Text → Text → Bool
starts_with [] rest = true
starts_with (p ∷ prefix) [] = false
starts_with (p ∷ prefix) (c ∷ rest) = if p == c then starts_with prefix rest else false

-- character in "\r\n"
unfoldable pub is_line_end : ℕ → Bool
is_line_end c = (c == 13) || (c == 10)

-- `blank`, on one character.
unfoldable pub blank : ℕ → ℕ
unfolding is_line_end
blank c = if is_line_end c then c else 32

unfoldable pub is_tag_start : ℕ → Bool
is_tag_start c = between b'A' b'Z' c || between b'a' b'z' c || (c == b'_')

unfoldable pub is_tag_character : ℕ → Bool
unfolding is_tag_start
is_tag_character c = is_tag_start c || between b'0' b'9' c

-- How far the closing "$" is, behind tag characters.
unfoldable pub tag_rest_width : Text → Option ℕ
unfolding is_tag_character
tag_rest_width [] = none
tag_rest_width (c ∷ rest) =
    let further = tag_rest_width rest in
    if c == b'$'
    then some 1
    else if is_tag_character c
    then elim further [ none ↦ none | some n ↦ some (suc n) ]
    else none

-- The length of what `\$(?:[A-Za-z_][A-Za-z0-9_]*)?\$` matches; the argument is behind the first "$".
unfoldable pub dollar_tag_width : Text → Option ℕ
unfolding tag_rest_width
dollar_tag_width [] = none
dollar_tag_width (c ∷ rest) =
    if c == b'$'
    then some 2
    else if is_tag_start c
    then elim (tag_rest_width rest) [ none ↦ none | some n ↦ some (2 + n) ]
    else none

abbrev pub blanking : Scanner → ℕ → Move
blanking next width = record { next = next; width = width; is_blank = true }

abbrev pub keeping : Scanner → Move
keeping next = record { next = next; width = 1; is_blank = false }

unfoldable pub normal_step : Scanner → ℕ → Text → Move
unfolding starts_with dollar_tag_width
normal_step scanner c rest =
    if starts_with (b'-' ∷ b'-' ∷ []) (c ∷ rest)
    then blanking (in_state line_comment scanner) 2
    else if starts_with (b'/' ∷ b'*' ∷ []) (c ∷ rest)
    then blanking (record scanner { state = block_comment; block_depth = 1 }) 2
    else if c == b'\''
    then blanking (in_state single_quote scanner) 1
    else if c == b'"'
    then blanking (in_state double_quote scanner) 1
    else if c == b'$'
    then elim (dollar_tag_width rest) [
      | none ↦ keeping scanner
      | some n ↦
          blanking (record scanner { state = dollar_quote; dollar_delimiter = take n (c ∷ rest) }) n
    ]
    else keeping scanner

unfoldable pub line_comment_step : Scanner → ℕ → Move
unfolding is_line_end
line_comment_step scanner c =
    if is_line_end c then keeping (in_state normal scanner) else blanking scanner 1

-- The depth is at least 1 inside a block comment.
unfoldable pub block_comment_step : Scanner → ℕ → Text → Move
unfolding starts_with
block_comment_step scanner c rest =
    if starts_with (b'/' ∷ b'*' ∷ []) (c ∷ rest)
    then blanking (record scanner { block_depth = scanner.block_depth + 1 }) 2
    else if starts_with (b'*' ∷ b'/' ∷ []) (c ∷ rest)
    then blanking
        (record scanner {
          state = if (scanner.block_depth - 1) == 0 then normal else scanner.state;
          block_depth = scanner.block_depth - 1;
        })
        2
    else blanking scanner 1

abbrev pub has_more : Text → Bool
has_more [] = false
has_more (c ∷ rest) = true

unfoldable pub single_quote_step : Scanner → ℕ → Text → Move
unfolding starts_with
single_quote_step scanner c rest =
    if starts_with (b'\'' ∷ b'\'' ∷ []) (c ∷ rest)
    then blanking scanner 2
    else if (if c == b'\\' then has_more rest else false)
    then blanking scanner 2
    else if c == b'\''
    then blanking (in_state normal scanner) 1
    else blanking scanner 1

unfoldable pub double_quote_step : Scanner → ℕ → Text → Move
unfolding starts_with
double_quote_step scanner c rest =
    if starts_with (b'"' ∷ b'"' ∷ []) (c ∷ rest)
    then blanking scanner 2
    else if c == b'"'
    then blanking (in_state normal scanner) 1
    else blanking scanner 1

unfoldable pub dollar_quote_step : Scanner → ℕ → Text → Move
unfolding starts_with
dollar_quote_step scanner c rest =
    if starts_with scanner.dollar_delimiter (c ∷ rest)
    then blanking (in_state normal scanner) (length scanner.dollar_delimiter)
    else blanking scanner 1

unfoldable pub step_in : ScanState → Scanner → ℕ → Text → Move
unfolding normal_step line_comment_step block_comment_step single_quote_step double_quote_step
    dollar_quote_step
step_in normal scanner c rest = normal_step scanner c rest
step_in line_comment scanner c rest = line_comment_step scanner c
step_in block_comment scanner c rest = block_comment_step scanner c rest
step_in single_quote scanner c rest = single_quote_step scanner c rest
step_in double_quote scanner c rest = double_quote_step scanner c rest
step_in dollar_quote scanner c rest = dollar_quote_step scanner c rest

unfoldable pub step : Scanner → ℕ → Text → Move
unfolding step_in
step scanner c rest = step_in scanner.state scanner c rest

unfoldable pub emitted : Move → Text → Text
unfolding blank
emitted move rest = if move.is_blank then map blank (take move.width rest) else take move.width rest

-- The check behind the loop.
unfoldable pub finish : ScanState → Result SqlError Text
finish normal = ok []
finish line_comment = ok []
finish block_comment = err (unterminated block_comment)
finish single_quote = err (unterminated single_quote)
finish double_quote = err (unterminated double_quote)
finish dollar_quote = err (unterminated dollar_quote)

unfoldable pub scan : ℕ → Scanner → Text → Result SqlError Text
unfolding step emitted finish
scan fuel scanner [] = finish scanner.state
scan zero scanner (c ∷ rest) = err out_of_fuel
scan (suc fuel) scanner (c ∷ rest) =
    scan fuel (step scanner c rest).next (drop (step scanner c rest).width (c ∷ rest)) >>= λ behind.
    ok (emitted (step scanner c rest) (c ∷ rest) ++ behind)

abbrev pub start : Scanner
start = record { state = normal; block_depth = 0; dollar_delimiter = [] }

unfoldable pub strip_sql_literals_and_comments : Text → Result SqlError Text
unfolding scan
strip_sql_literals_and_comments sql = scan (length sql) start sql
