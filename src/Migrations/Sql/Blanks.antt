-- ===== src/Migrations/Sql/Blanks.antt =====
-- The scanner always comes to an end, and only blanks characters
-- (`strip_sql_literals_and_comments` in scripts/validate_production_migrations.py).
use mexican_banking_monitor.Base.{
  ℕ, zero, suc, ◌-◌, ◌≤◌, ◌≡◌, ◌≢◌, refl, ap, inl, inr, ◌⊎◌, Bool, true, false, [], ◌∷◌, ◌++◌, map,
  arith, Text, length, take, drop, Result, ok, err, ◌>>=◌, if◌then◌else◌, Bool-cases,
}
use mexican_banking_monitor.Migrations.Sql.{
  ScanState, normal, line_comment, block_comment, single_quote, double_quote, dollar_quote,
  SqlError, unterminated, out_of_fuel, Scanner, Move, is_line_end, blank, step, emitted, finish,
  scan, start, strip_sql_literals_and_comments,
}
use mexican_banking_monitor.Migrations.Sql.Steps.{IsReady, step-IsProgress, start-IsReady}

length-drop : (n : ℕ) (s : Text) → length (drop n s) ≡ length s - n
length-drop zero s = omega arith
length-drop (suc n) [] = omega arith
length-drop (suc n) (c ∷ s) = omega (arith, length-drop n s)

-- With the text's length as fuel, any other fuel that is as large gives the same.
pub scan-fuel :
    (n k : ℕ) (m : Scanner) (s : Text)
    → IsReady m
    → length s ≤ n
    → length s ≤ k
    → scan n m s ≡ scan k m s
unfolding scan
scan-fuel n k m [] r p q = refl
scan-fuel zero k m (c ∷ s) r p q = absurd (omega (arith, p))
scan-fuel (suc n) zero m (c ∷ s) r p q = absurd (omega (arith, q))
scan-fuel (suc n) (suc k) m (c ∷ s) r p q =
    let g = step-IsProgress m c s r in
    let w = (step m c s).width in
    let d = length-drop w (c ∷ s) in
    let low = g.some_read in
    ap (λ (x : Result SqlError Text). x >>= λ behind. ok (emitted (step m c s) (c ∷ s) ++ behind))
      (scan-fuel n k (step m c s).next (drop w (c ∷ s)) g.ready (omega (arith, d, low, p))
        (omega (arith, d, low, q)))

-- One text is the other with characters that are no line ends turned into blanks.
abbrev pub IsBlanked : Text → Text → Type 0
IsBlanked [] [] = Unit
IsBlanked [] (c ∷ s) = ⊥
IsBlanked (o ∷ out) [] = ⊥
IsBlanked (o ∷ out) (c ∷ s) = ((o ≡ c) ⊎ ((o ≡ 32) × (is_line_end c ≡ false))) × IsBlanked out s

blank-cases : (c : ℕ) → (blank c ≡ c) ⊎ ((blank c ≡ 32) × (is_line_end c ≡ false))
unfolding blank
blank-cases c = elim (Bool-cases (is_line_end c)) [ inl e ↦ inl (rw e) | inr e ↦ inr (rw e, e) ]

IsBlanked-take :
    (blanks : Bool) (n : ℕ) (s behind : Text)
    → IsBlanked behind (drop n s)
    → IsBlanked ((if blanks then map blank (take n s) else take n s) ++ behind) s
IsBlanked-take true zero s behind h = h
IsBlanked-take false zero s behind h = h
IsBlanked-take true (suc n) [] behind h = h
IsBlanked-take false (suc n) [] behind h = h
IsBlanked-take true (suc n) (c ∷ s) behind h = (blank-cases c, IsBlanked-take true n s behind h)
IsBlanked-take false (suc n) (c ∷ s) behind h = (inl refl, IsBlanked-take false n s behind h)

-- The scan's outcome: a blanked text, or the state in which the text ends.
abbrev pub IsScan : Result SqlError Text → Text → Type 0
IsScan (ok out) s = IsBlanked out s
IsScan (err out_of_fuel) s = ⊥
IsScan (err (unterminated state)) s = (state ≢ normal) × (state ≢ line_comment)

IsScan-finish : (state : ScanState) → IsScan (finish state) []
unfolding finish
IsScan-finish normal = tt
IsScan-finish line_comment = tt
IsScan-finish block_comment = (λ e. cc e, λ e. cc e)
IsScan-finish single_quote = (λ e. cc e, λ e. cc e)
IsScan-finish double_quote = (λ e. cc e, λ e. cc e)
IsScan-finish dollar_quote = (λ e. cc e, λ e. cc e)

IsScan-emitted :
    (move : Move) (s : Text) (behind : Result SqlError Text)
    → IsScan behind (drop move.width s)
    → IsScan (behind >>= λ text. ok (emitted move s ++ text)) s
unfolding emitted
IsScan-emitted move s (ok out) h = IsBlanked-take move.is_blank move.width s out h
IsScan-emitted move s (err out_of_fuel) h = h
IsScan-emitted move s (err (unterminated state)) h = h

scan-IsScan : (n : ℕ) (m : Scanner) (s : Text) → IsReady m → length s ≤ n → IsScan (scan n m s) s
unfolding scan
scan-IsScan n m [] r p = IsScan-finish m.state
scan-IsScan zero m (c ∷ s) r p = absurd (omega (arith, p))
scan-IsScan (suc n) m (c ∷ s) r p =
    let g = step-IsProgress m c s r in
    let w = (step m c s).width in
    let d = length-drop w (c ∷ s) in
    let low = g.some_read in
    IsScan-emitted (step m c s) (c ∷ s) (scan n (step m c s).next (drop w (c ∷ s)))
      (scan-IsScan n (step m c s).next (drop w (c ∷ s)) g.ready (omega (arith, d, low, p)))

-- Every text is scanned to its end: the result is the text with some characters that are no line
-- ends turned into blanks, or the text ends inside a block comment or a quote. The loop never
-- runs out of fuel.
pub strip_sql_literals_and_comments-IsScan :
    (sql : Text) → IsScan (strip_sql_literals_and_comments sql) sql
unfolding strip_sql_literals_and_comments
strip_sql_literals_and_comments-IsScan sql =
    scan-IsScan (length sql) start sql start-IsReady (omega arith)
