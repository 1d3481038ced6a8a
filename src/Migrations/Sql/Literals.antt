-- ===== src/Migrations/Sql/Literals.antt =====
-- What stands in a line comment or in a quoted literal is blanked as a whole, and the scanner reads
-- on behind it as if it were not there (scripts/validate_production_migrations.py).
use mexican_banking_monitor.Base.{
  ℕ, suc, ◌≡◌, refl, ap, false, [], ◌∷◌, ◌++◌, arith, Text, length, drop, All, Result, ok, err,
  ◌>>=◌, ◌==◌,
}
use mexican_banking_monitor.Migrations.Sql.{
  ScanState, normal, line_comment, single_quote, SqlError, Scanner, Move, starts_with, is_line_end,
  blank, normal_step, line_comment_step, single_quote_step, step_in, step, emitted, scan, blanking,
}
use mexican_banking_monitor.Migrations.Sql.Blanks.{scan-fuel}

abbrev pub in_mode : ScanState → ℕ → Text → Scanner
in_mode state depth delimiter = record {
  state = state;
  block_depth = depth;
  dollar_delimiter = delimiter;
}

abbrev pub blanked : Text → Text
blanked [] = []
blanked (c ∷ body) = 32 ∷ blanked body

abbrev pub followed : Text → Result SqlError Text → Result SqlError Text
followed out rest = rest >>= λ behind. ok (out ++ behind)

followed-cons :
    (c : ℕ) (out : Text) (rest : Result SqlError Text)
    → (followed out rest >>= λ behind. ok (c ∷ behind)) ≡ followed (c ∷ out) rest
followed-cons c out (ok t) = refl
followed-cons c out (err e) = refl

-- A character that a quoted literal holds as itself.
pub record IsLiteralCharacter (c : ℕ) : Type 0 where
  pub no_quote : (c == b'\'') ≡ false
  pub no_backslash : (c == b'\\') ≡ false
  pub no_line_end : is_line_end c ≡ false

module _ (depth : ℕ) (delimiter : Text) where
  comment_step :
      (c : ℕ) (s : Text)
      → is_line_end c ≡ false
      → (n : ℕ)
      → scan (suc n) (in_mode line_comment depth delimiter) (c ∷ s)
        ≡ (scan n (in_mode line_comment depth delimiter) s >>= λ behind. ok (32 ∷ behind))
  unfolding scan step step_in line_comment_step emitted blank
  comment_step c s h n = rw (h, h)

  comment_end :
      (s : Text) (n : ℕ)
      → scan (suc n) (in_mode line_comment depth delimiter) (10 ∷ s)
        ≡ (scan n (in_mode normal depth delimiter) s >>= λ behind. ok (10 ∷ behind))
  unfolding scan step step_in line_comment_step emitted is_line_end
  comment_end s n = refl

  comment_rest :
      (body s : Text)
      → All (λ c. is_line_end c ≡ false) body
      → scan (length (body ++ 10 ∷ s)) (in_mode line_comment depth delimiter) (body ++ 10 ∷ s)
        ≡ followed (blanked body ++ 10 ∷ []) (scan (length s) (in_mode normal depth delimiter) s)
  comment_rest [] s h = comment_end s (length s)
  comment_rest (c ∷ body) s h =
      rw (comment_step c (body ++ 10 ∷ s) h.0 (length (body ++ 10 ∷ s)), comment_rest body s h.1)
        (followed-cons 32 (blanked body ++ 10 ∷ []) _)

  comment_start :
      (s : Text) (n : ℕ)
      → scan (suc n) (in_mode normal depth delimiter) (b'-' ∷ b'-' ∷ s)
        ≡ (scan n (in_mode line_comment depth delimiter) s >>= λ behind. ok (32 ∷ 32 ∷ behind))
  unfolding scan step step_in normal_step starts_with emitted blank is_line_end
  comment_start s n = refl

  -- A line comment whose body has no line ends is blanked up to its line feed, and the scan
  -- goes on behind it as on a text of its own.
  pub scan-line_comment :
      (body s : Text)
      → All (λ c. is_line_end c ≡ false) body
      → scan
          (length (b'-' ∷ b'-' ∷ body ++ 10 ∷ s))
          (in_mode normal depth delimiter)
          (b'-' ∷ b'-' ∷ body ++ 10 ∷ s)
        ≡ followed
            (32 ∷ 32 ∷ blanked body ++ 10 ∷ [])
            (scan (length s) (in_mode normal depth delimiter) s)
  scan-line_comment body s h = rw (comment_start (body ++ 10 ∷ s) (suc (length (body ++ 10 ∷ s)))) (
      rw
        (scan-fuel (suc (length (body ++ 10 ∷ s))) (length (body ++ 10 ∷ s))
          (in_mode line_comment depth delimiter) (body ++ 10 ∷ s) tt (omega arith) (omega arith))
        (rw (comment_rest body s h) (both _)))
    where
      both :
          (r : Result SqlError Text)
          → (followed (blanked body ++ 10 ∷ []) r >>= λ behind. ok (32 ∷ 32 ∷ behind))
            ≡ followed (32 ∷ 32 ∷ blanked body ++ 10 ∷ []) r
      both (ok t) = refl
      both (err e) = refl

  quote_step :
      (c : ℕ) (s : Text)
      → (c == b'\'') ≡ false
      → (c == b'\\') ≡ false
      → is_line_end c ≡ false
      → (n : ℕ)
      → scan (suc n) (in_mode single_quote depth delimiter) (c ∷ s)
        ≡ (scan n (in_mode single_quote depth delimiter) s >>= λ behind. ok (32 ∷ behind))
  unfolding scan step step_in single_quote_step starts_with emitted blank
  quote_step c s q b h n = let q' : (b'\'' == c) ≡ false = ground (arith, q) in rw (q, b, q') (rw h)

  quote_end_step :
      (s : Text)
      → starts_with (b'\'' ∷ []) s ≡ false
      → step (in_mode single_quote depth delimiter) b'\'' s
        ≡ blanking (in_mode normal depth delimiter) 1
  unfolding step step_in single_quote_step starts_with
  quote_end_step s h = rw h

  quote_end :
      (s : Text)
      → starts_with (b'\'' ∷ []) s ≡ false
      → (n : ℕ)
      → scan (suc n) (in_mode single_quote depth delimiter) (b'\'' ∷ s)
        ≡ (scan n (in_mode normal depth delimiter) s >>= λ behind. ok (32 ∷ behind))
  unfolding scan emitted blank is_line_end
  quote_end s h n =
      ap
        (λ (move : Move). scan n move.next (drop move.width (b'\'' ∷ s)) >>= λ behind.
          ok (emitted move (b'\'' ∷ s) ++ behind))
        (quote_end_step s h)

  quote_rest :
      (body s : Text)
      → All IsLiteralCharacter body
      → starts_with (b'\'' ∷ []) s ≡ false
      → scan (length (body ++ b'\'' ∷ s)) (in_mode single_quote depth delimiter) (body ++ b'\'' ∷ s)
        ≡ followed (blanked body ++ 32 ∷ []) (scan (length s) (in_mode normal depth delimiter) s)
  quote_rest [] s h e = quote_end s e (length s)
  quote_rest (c ∷ body) s h e =
      rw
        (
          quote_step c (body ++ b'\'' ∷ s) h.0.no_quote h.0.no_backslash h.0.no_line_end
              (length (body ++ b'\'' ∷ s)),
          quote_rest body s h.1 e,
        )
        (followed-cons 32 (blanked body ++ 32 ∷ []) _)

  quote_start :
      (s : Text) (n : ℕ)
      → scan (suc n) (in_mode normal depth delimiter) (b'\'' ∷ s)
        ≡ (scan n (in_mode single_quote depth delimiter) s >>= λ behind. ok (32 ∷ behind))
  unfolding scan step step_in normal_step starts_with emitted blank is_line_end
  quote_start s n = refl

  -- A single-quoted literal without quotes, backslashes or line ends inside, with no quote
  -- right behind it, is blanked with its quotes, and the scan goes on behind it as on a text of
  -- its own.
  pub scan-single_quote :
      (body s : Text)
      → All IsLiteralCharacter body
      → starts_with (b'\'' ∷ []) s ≡ false
      → scan
          (length (b'\'' ∷ body ++ b'\'' ∷ s))
          (in_mode normal depth delimiter)
          (b'\'' ∷ body ++ b'\'' ∷ s)
        ≡ followed
            (32 ∷ blanked body ++ 32 ∷ [])
            (scan (length s) (in_mode normal depth delimiter) s)
  scan-single_quote body s h e =
      rw (quote_start (body ++ b'\'' ∷ s) (length (body ++ b'\'' ∷ s)), quote_rest body s h e)
        (followed-cons 32 (blanked body ++ 32 ∷ []) _)
