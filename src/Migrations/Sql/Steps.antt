-- ===== src/Migrations/Sql/Steps.antt =====
-- One round of the scanner's loop: it reads at least one character, never more than there are, and
-- keeps what the scanner relies on in its states (scripts/validate_production_migrations.py).
use mexican_banking_monitor.Base.{
  ℕ, suc, ◌+◌, ◌-◌, ◌≤◌, ◌≡◌, refl, sym, subst, inl, inr, Bool, true, false, none, some, [], ◌∷◌,
  arith, Text, length, length-take, take, if◌then◌else◌, ◌==◌, Bool-cases, Option-cases,
}
use mexican_banking_monitor.Migrations.Sql.{
  ScanState, normal, line_comment, block_comment, single_quote, double_quote, dollar_quote, Scanner,
  Move, in_state, starts_with, is_line_end, tag_rest_width, dollar_tag_width, blanking, keeping,
  normal_step, line_comment_step, block_comment_step, has_more, single_quote_step,
  double_quote_step, dollar_quote_step, step_in, step, start,
}

-- In a dollar quote the delimiter is not empty; in a block comment the depth is positive.
abbrev pub IsReadyIn : ScanState → Scanner → Type 0
IsReadyIn normal m = Unit
IsReadyIn line_comment m = Unit
IsReadyIn block_comment m = 1 ≤ m.block_depth
IsReadyIn single_quote m = Unit
IsReadyIn double_quote m = Unit
IsReadyIn dollar_quote m = 1 ≤ length m.dollar_delimiter

abbrev pub IsReady : Scanner → Type 0
IsReady m = IsReadyIn m.state m

pub record IsProgress (move : Move) (rest : Text) : Type 0 where
  pub ready : IsReady move.next
  pub some_read : 1 ≤ move.width
  pub in_range : move.width ≤ length rest

starts_with-length : (p s : Text) → starts_with p s ≡ true → length p ≤ length s
unfolding starts_with
starts_with-length [] s h = ground arith
starts_with-length (x ∷ p) [] h = cc h
starts_with-length (x ∷ p) (y ∷ s) h = ground (arith, starts_with-length p s)

tag_rest_width-range : (s : Text) (n : ℕ) → tag_rest_width s ≡ some n → (1 ≤ n) × (n ≤ length s)
unfolding tag_rest_width
tag_rest_width-range [] n h = cc h
tag_rest_width-range (c ∷ s) n h = elim (Option-cases (tag_rest_width s)) [
  | inl e ↦ ground (arith, e, h)
  | inr (k, e) ↦ ground (arith, e, h, tag_rest_width-range s k e)
]

dollar_tag_width-range :
    (s : Text) (n : ℕ) → dollar_tag_width s ≡ some n → (1 ≤ n) × (n ≤ suc (length s))
unfolding dollar_tag_width
dollar_tag_width-range [] n h = cc h
dollar_tag_width-range (c ∷ s) n h = elim (Option-cases (tag_rest_width s)) [
  | inl e ↦ ground (arith, e, h)
  | inr (k, e) ↦ ground (arith, e, h, tag_rest_width-range s k e)
]

-- Two characters can be read where two are seen.
two : (a b c : ℕ) (s : Text) → starts_with (a ∷ b ∷ []) (c ∷ s) ≡ true → 2 ≤ length (c ∷ s)
two a b c s h = starts_with-length (a ∷ b ∷ []) (c ∷ s) h

one : (c : ℕ) (s : Text) → 1 ≤ length (c ∷ s)
one c s = omega arith

two_more :
    (b : Bool) (c : ℕ) (s : Text) → (if b then has_more s else false) ≡ true → 2 ≤ length (c ∷ s)
two_more false c s h = cc h
two_more true c [] h = cc h
two_more true c (x ∷ s) h = omega arith

by :
    (m : Scanner) (n : ℕ) (s : Text)
    → IsReady m
    → 1 ≤ n
    → n ≤ length s
    → IsProgress (blanking m n) s
by m n s r p q = record { ready = r; some_read = p; in_range = q }

kept : (m : Scanner) (c : ℕ) (s : Text) → IsReady m → IsProgress (keeping m) (c ∷ s)
kept m c s r = record { ready = r; some_read = omega arith; in_range = omega arith }

normal_step-IsProgress :
    (m : Scanner) (c : ℕ) (s : Text) → m.state ≡ normal → IsProgress (normal_step m c s) (c ∷ s)
unfolding normal_step
normal_step-IsProgress m c s h = elim (Bool-cases (starts_with (b'-' ∷ b'-' ∷ []) (c ∷ s))) [
  | inl e ↦ rw e (by (in_state line_comment m) 2 (c ∷ s) tt (omega arith) (two b'-' b'-' c s e))
  | inr e ↦ rw e (elim (Bool-cases (starts_with (b'/' ∷ b'*' ∷ []) (c ∷ s))) [
    | inl f ↦ rw f (
        by (record m { state = block_comment; block_depth = 1 }) 2 (c ∷ s) (omega arith)
          (omega arith) (two b'/' b'*' c s f))
    | inr f ↦ rw f (elim (Bool-cases (c == b'\'')) [
      | inl q ↦ rw q (by (in_state single_quote m) 1 (c ∷ s) tt (omega arith) (one c s))
      | inr q ↦ rw q (elim (Bool-cases (c == b'"')) [
        | inl d ↦ rw d (by (in_state double_quote m) 1 (c ∷ s) tt (omega arith) (one c s))
        | inr d ↦ rw d (behind_quotes m c s h)
      ])
    ])
  ])
]
  where
    behind_quotes :
        (m : Scanner) (c : ℕ) (s : Text)
        → m.state ≡ normal
        → IsProgress
            (if c == b'$'
              then elim (dollar_tag_width s) [
                | none ↦ keeping m
                | some n ↦
                    blanking
                      (record m { state = dollar_quote; dollar_delimiter = take n (c ∷ s) })
                      n
              ]
              else keeping m)
            (c ∷ s)
    behind_quotes m c s h =
        let same : IsReady m = rw h tt in
        elim (Bool-cases (c == b'$')) [
          | inr d ↦ rw d (kept m c s same)
          | inl d ↦ rw d (elim (Option-cases (dollar_tag_width s)) [
            | inl n ↦ rw n (kept m c s same)
            | inr (n, e) ↦
                let (low, high) = dollar_tag_width-range s n e in
                rw e (
                  by (record m { state = dollar_quote; dollar_delimiter = take n (c ∷ s) }) n
                    (c ∷ s) (omega (arith, low, high, length-take n (c ∷ s))) low high)
          ])
        ]

line_comment_step-IsProgress :
    (m : Scanner) (c : ℕ) (s : Text)
    → m.state ≡ line_comment
    → IsProgress (line_comment_step m c) (c ∷ s)
unfolding line_comment_step
line_comment_step-IsProgress m c s h = elim (Bool-cases (is_line_end c)) [
  | inl e ↦ rw e (kept (in_state normal m) c s tt)
  | inr e ↦ rw e (by m 1 (c ∷ s) (rw h tt) (omega arith) (one c s))
]

block_comment_step-IsProgress :
    (m : Scanner) (c : ℕ) (s : Text)
    → m.state ≡ block_comment
    → IsReady m
    → IsProgress (block_comment_step m c s) (c ∷ s)
unfolding block_comment_step
block_comment_step-IsProgress m c s h r =
    elim (Bool-cases (starts_with (b'/' ∷ b'*' ∷ []) (c ∷ s))) [
      | inl e ↦ rw e (
          by (record m { block_depth = m.block_depth + 1 }) 2 (c ∷ s) (rw h (omega arith))
            (omega arith) (two b'/' b'*' c s e))
      | inr e ↦ rw e (elim (Bool-cases (starts_with (b'*' ∷ b'/' ∷ []) (c ∷ s))) [
        | inl f ↦ rw f (elim (Bool-cases ((m.block_depth - 1) == 0)) [
          | inl z ↦ rw z (
              by (record m { state = normal; block_depth = m.block_depth - 1 }) 2 (c ∷ s) tt
                (omega arith) (two b'*' b'/' c s f))
          | inr z ↦ rw z (
              by (record m { block_depth = m.block_depth - 1 }) 2 (c ∷ s) (rw h (ground (arith, z)))
                (omega arith) (two b'*' b'/' c s f))
        ])
        | inr f ↦ rw f (by m 1 (c ∷ s) r (omega arith) (one c s))
      ])
    ]

single_quote_step-IsProgress :
    (m : Scanner) (c : ℕ) (s : Text)
    → m.state ≡ single_quote
    → IsProgress (single_quote_step m c s) (c ∷ s)
unfolding single_quote_step
single_quote_step-IsProgress m c s h =
    let r : IsReady m = rw h tt in
    elim (Bool-cases (starts_with (b'\'' ∷ b'\'' ∷ []) (c ∷ s))) [
      | inl e ↦ rw e (by m 2 (c ∷ s) r (omega arith) (two b'\'' b'\'' c s e))
      | inr e ↦ rw e (elim (Bool-cases (if c == b'\\' then has_more s else false)) [
        | inl f ↦ rw f (by m 2 (c ∷ s) r (omega arith) (two_more (c == b'\\') c s f))
        | inr f ↦ rw f (elim (Bool-cases (c == b'\'')) [
          | inl q ↦ rw q (by (in_state normal m) 1 (c ∷ s) tt (omega arith) (one c s))
          | inr q ↦ rw q (by m 1 (c ∷ s) r (omega arith) (one c s))
        ])
      ])
    ]

double_quote_step-IsProgress :
    (m : Scanner) (c : ℕ) (s : Text)
    → m.state ≡ double_quote
    → IsProgress (double_quote_step m c s) (c ∷ s)
unfolding double_quote_step
double_quote_step-IsProgress m c s h =
    let r : IsReady m = rw h tt in
    elim (Bool-cases (starts_with (b'"' ∷ b'"' ∷ []) (c ∷ s))) [
      | inl e ↦ rw e (by m 2 (c ∷ s) r (omega arith) (two b'"' b'"' c s e))
      | inr e ↦ rw e (elim (Bool-cases (c == b'"')) [
        | inl q ↦ rw q (by (in_state normal m) 1 (c ∷ s) tt (omega arith) (one c s))
        | inr q ↦ rw q (by m 1 (c ∷ s) r (omega arith) (one c s))
      ])
    ]

dollar_quote_step-IsProgress :
    (m : Scanner) (c : ℕ) (s : Text)
    → m.state ≡ dollar_quote
    → IsReady m
    → IsProgress (dollar_quote_step m c s) (c ∷ s)
unfolding dollar_quote_step
dollar_quote_step-IsProgress m c s h r =
    elim (Bool-cases (starts_with m.dollar_delimiter (c ∷ s))) [
      | inl e ↦ rw e (
          by (in_state normal m) (length m.dollar_delimiter) (c ∷ s) tt (rw h at r)
            (starts_with-length m.dollar_delimiter (c ∷ s) e))
      | inr e ↦ rw e (by m 1 (c ∷ s) r (omega arith) (one c s))
    ]

-- Every round makes progress.
pub step-IsProgress : (m : Scanner) (c : ℕ) (s : Text) → IsReady m → IsProgress (step m c s) (c ∷ s)
unfolding step step_in
step-IsProgress m c s r = by_state m.state refl
  where
    by_state : (state : ScanState) → m.state ≡ state → IsProgress (step_in m.state m c s) (c ∷ s)
    by_state normal h =
        subst (λ state. IsProgress (step_in state m c s) (c ∷ s)) (sym h)
          (normal_step-IsProgress m c s h)
    by_state line_comment h =
        subst (λ state. IsProgress (step_in state m c s) (c ∷ s)) (sym h)
          (line_comment_step-IsProgress m c s h)
    by_state block_comment h =
        subst (λ state. IsProgress (step_in state m c s) (c ∷ s)) (sym h)
          (block_comment_step-IsProgress m c s h r)
    by_state single_quote h =
        subst (λ state. IsProgress (step_in state m c s) (c ∷ s)) (sym h)
          (single_quote_step-IsProgress m c s h)
    by_state double_quote h =
        subst (λ state. IsProgress (step_in state m c s) (c ∷ s)) (sym h)
          (double_quote_step-IsProgress m c s h)
    by_state dollar_quote h =
        subst (λ state. IsProgress (step_in state m c s) (c ∷ s)) (sym h)
          (dollar_quote_step-IsProgress m c s h r)

pub start-IsReady : IsReady start
start-IsReady = tt
