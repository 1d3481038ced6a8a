-- ===== src/Discovery/Summary/Laws.antt =====
-- A sanitized summary is one tidy line within the audit limit, and sanitizing it again changes
-- nothing.
use mathlib.Core.List.{append_assoc}
use mexican_banking_monitor.Base.{
  ℕ, zero, suc, ◌+◌, ◌≤◌, ◌≡◌, refl, sym, subst, ap, ◌⊎◌, inl, inr, Bool, true, false, Option, none,
  some, List, [], ◌∷◌, ◌++◌, map, arith, Text, codes, ltb, length, take, if◌then◌else◌, All,
  Bool-cases, All-append, length-append, length-take,
}
use mexican_banking_monitor.Discovery.Errors.{ErrorKind, default_summary}
use mexican_banking_monitor.Discovery.Summary.{
  is_control_character, is_space, is_empty, split_from, split, join_rest, join, rstrip,
  blank_control, sanitize_summary, safe_summary,
}

abbrev pub IsPlain : ℕ → Type 0
IsPlain c = (is_space c ≡ false) × (is_control_character c ≡ false)

-- Words of plain characters with one space between them; `true` where a word has begun.
pub data IsTidy : Bool → Text → Type 0 where
  stop : IsTidy true []
  gap : (c : ℕ) (s : Text) → c ≡ 32 → IsTidy false s → IsTidy true (c ∷ s)
  plain : {b : Bool} (c : ℕ) (s : Text) → IsPlain c → IsTidy true s → IsTidy b (c ∷ s)

abbrev pub IsLine : Text → Type 0
IsLine s = (s ≡ []) ⊎ IsTidy false s

cut : Text → List Text → List Text
cut word rest = if is_empty word then rest else word ∷ rest

split_from-space :
    (word : Text) (c : ℕ) (s : Text)
    → is_space c ≡ true
    → split_from word (c ∷ s) ≡ cut word (split_from [] s)
unfolding split_from cut
split_from-space word c s e = rw (e, split_from)

split_from-other :
    (word : Text) (c : ℕ) (s : Text)
    → is_space c ≡ false
    → split_from word (c ∷ s) ≡ split_from (word ++ c ∷ []) s
unfolding split_from
split_from-other word c s e = rw (e, split_from)

append_not_empty : (w : Text) (d : ℕ) → is_empty (w ++ d ∷ []) ≡ false
append_not_empty [] d = refl
append_not_empty (x ∷ w) d = refl

cut-rest :
    (word : Text) (rest : List Text)
    → is_empty word ≡ false
    → join_rest (cut word rest) ≡ 32 ∷ (word ++ join_rest rest)
unfolding cut join_rest
cut-rest [] rest e = cc
cut-rest (w ∷ word) rest e = refl

split-tidy :
    (b : Bool) (word s : Text)
    → IsTidy b s
    → is_empty word ≡ (if b then false else true)
    → join_rest (split_from word s) ≡ 32 ∷ (word ++ s)
unfolding join_rest split_from is_space
split-tidy true word [] stop e = rw e
split-tidy false word [] t e = elim t [ ]
split-tidy b word (c ∷ s) (plain _ _ p t) e =
    rw (split_from-other word c s p.0)
      (rw (split-tidy true (word ++ c ∷ []) s t (append_not_empty word c)) (rw append_assoc))
split-tidy true word (c ∷ s) (gap _ _ p t) e =
    rw (split_from-space word c s (rw p))
      (rw (cut-rest word (split_from [] s) e) (rw (split-tidy false [] s t refl) (rw p)))

join-join_rest : (ws : List Text) (s : Text) → join_rest ws ≡ 32 ∷ s → join ws ≡ s
unfolding join
join-join_rest [] s e = cc
join-join_rest (w ∷ ws) s e = cc

-- Splitting a tidy line and joining its words gives it back.
join-split : (s : Text) → IsLine s → join (split s) ≡ s
unfolding split join
join-split s (inl e) = rw e
join-split s (inr t) = join-join_rest (split_from [] s) s (split-tidy false [] s t refl)

abbrev IsWord : Text → Type 0
IsWord w = (is_empty w ≡ false) × All IsPlain w

cut-words :
    (word : Text) (rest : List Text)
    → All IsPlain word
    → All IsWord rest
    → All IsWord (cut word rest)
unfolding cut
cut-words [] rest h k = k
cut-words (w ∷ word) rest h k = ((refl, h), k)

abbrev HasNoControl : Text → Type 0
HasNoControl = All (λ c. is_control_character c ≡ false)

split_from-words :
    (word s : Text) → All IsPlain word → HasNoControl s → All IsWord (split_from word s)
unfolding split_from
split_from-words [] [] h k = tt
split_from-words (w ∷ word) [] h k = ((refl, h), tt)
split_from-words word (c ∷ s) h k = elim (Bool-cases (is_space c)) [
  | inl e ↦
      subst (All IsWord) (sym (split_from-space word c s e))
        (cut-words word (split_from [] s) h (split_from-words [] s tt k.1))
  | inr e ↦
      subst (All IsWord) (sym (split_from-other word c s e)) (
        split_from-words (word ++ c ∷ []) s (All-append IsPlain word (c ∷ []) h ((e, k.0), tt)) k.1)
]

IsTidy-append :
    (b : Bool) (w s : Text) → is_empty w ≡ false → All IsPlain w → IsTidy true s → IsTidy b (w ++ s)
IsTidy-append b [] s e h t = cc
IsTidy-append b (c ∷ []) s e h t = plain c s h.0 t
IsTidy-append b (c ∷ d ∷ w) s e h t = plain c _ h.0 (IsTidy-append true (d ∷ w) s refl h.1 t)

join_rest-IsTidy : (ws : List Text) → All IsWord ws → IsTidy true (join_rest ws)
unfolding join_rest
join_rest-IsTidy [] h = stop
join_rest-IsTidy (w ∷ ws) h =
    gap 32 _ refl (IsTidy-append false w (join_rest ws) h.0.0 h.0.1 (join_rest-IsTidy ws h.1))

join-IsLine : (ws : List Text) → All IsWord ws → IsLine (join ws)
unfolding join
join-IsLine [] h = inl refl
join-IsLine (w ∷ ws) h =
    inr (IsTidy-append false w (join_rest ws) h.0.0 h.0.1 (join_rest-IsTidy ws h.1))

blank_control-no_control : (c : ℕ) → is_control_character (blank_control c) ≡ false
unfolding blank_control
blank_control-no_control c = ground arith

map-blank_control : (s : Text) → HasNoControl (map blank_control s)
map-blank_control [] = tt
map-blank_control (c ∷ s) = (blank_control-no_control c, map-blank_control s)

rstrip-plain : (c : ℕ) (s : Text) → is_space c ≡ false → rstrip (c ∷ s) ≡ c ∷ rstrip s
unfolding rstrip
rstrip-plain c s e = ground arith

rstrip-gap : (c : ℕ) (s : Text) → rstrip s ≡ [] → c ≡ 32 → rstrip (c ∷ s) ≡ []
unfolding rstrip is_space
rstrip-gap c s e p = rw (e, p)

rstrip-some : (c : ℕ) (s t : Text) → rstrip s ≡ t → IsTidy false t → rstrip (c ∷ s) ≡ c ∷ t
unfolding rstrip
rstrip-some c s [] e t = elim t [ ]
rstrip-some c s (d ∷ u) e t = rw e

-- What is left of a prefix of a tidy line, stripped at its end, is empty or tidy.
rstrip-take :
    (b : Bool) (n : ℕ) (s : Text)
    → IsTidy b s
    → (rstrip (take n s) ≡ []) ⊎ IsTidy b (rstrip (take n s))
rstrip-take b zero s t = inl (unfold rstrip in refl)
rstrip-take b (suc n) [] t = inl (unfold rstrip in refl)
rstrip-take b (suc n) (c ∷ s) (plain _ _ p t) = inr (
    subst (IsTidy b) (sym (rstrip-plain c (take n s) p.0))
      (plain c _ p (rest (rstrip-take true n s t))))
  where
    rest :
        (rstrip (take n s) ≡ []) ⊎ IsTidy true (rstrip (take n s)) → IsTidy true (rstrip (take n s))
    rest (inl e) = subst (IsTidy true) (sym e) stop
    rest (inr u) = u
rstrip-take b (suc n) (c ∷ s) (gap _ _ p t) = elim (rstrip-take false n s t) [
  | inl e ↦ inl (rstrip-gap c (take n s) e p)
  | inr u ↦ inr (subst (IsTidy true) (sym (rstrip-some c (take n s) _ refl u)) (gap c _ p u))
]

dots-IsTidy : (b : Bool) → IsTidy b (codes "...")
unfolding is_space is_control_character
dots-IsTidy b =
    plain b'.' _ (refl, refl) (plain b'.' _ (refl, refl) (plain b'.' _ (refl, refl) stop))

append-dots : (b : Bool) (s : Text) → IsTidy b s → IsTidy b (s ++ codes "...")
append-dots b [] t = dots-IsTidy b
append-dots b (c ∷ s) (plain _ _ p t) = plain c _ p (append-dots true s t)
append-dots true (c ∷ s) (gap _ _ p t) = gap c _ p (append-dots false s t)

truncate-IsLine : (n : ℕ) (s : Text) → IsLine s → IsLine (rstrip (take n s) ++ codes "...")
truncate-IsLine n s h = inr (end (rstrip (take n s)) (line n s h))
  where
    line : (n : ℕ) (s : Text) → IsLine s → IsLine (rstrip (take n s))
    line zero s h = inl (unfold rstrip in refl)
    line (suc n) [] h = inl (unfold rstrip in refl)
    line (suc n) (c ∷ s) (inl e) = cc
    line (suc n) (c ∷ s) (inr t) = rstrip-take false (suc n) (c ∷ s) t

    end : (t : Text) → IsLine t → IsTidy false (t ++ codes "...")
    end t (inl e) = subst (λ u. IsTidy false (u ++ codes "...")) (sym e) (dots-IsTidy false)
    end t (inr u) = append-dots false t u

length-rstrip : (s : Text) → length (rstrip s) ≤ length s
unfolding rstrip
length-rstrip [] = omega arith
length-rstrip (c ∷ s) = ground (arith, length-rstrip s)

-- The single line that the cleaning ends in, before it is cut.
collapsed-IsLine : (v : Text) → IsLine (join (split (map blank_control v)))
unfolding split
collapsed-IsLine v =
    join-IsLine _ (split_from-words [] (map blank_control v) tt (map-blank_control v))

cut_line : Text → Text
cut_line s = if ltb 512 (length s) then rstrip (take 509 s) ++ codes "..." else s

sanitize-cut : (v : Text) → sanitize_summary v ≡ cut_line (join (split (map blank_control v)))
unfolding sanitize_summary cut_line
sanitize-cut v = refl

cut_line-IsLine : (s : Text) → IsLine s → IsLine (cut_line s)
unfolding cut_line
cut_line-IsLine s h =
    elim (ltb 512 (length s))
      as (λ b. IsLine (if b then rstrip (take 509 s) ++ codes "..." else s)) [
        | true ↦ truncate-IsLine 509 s h
        | false ↦ h
      ]

length-truncate : (n : ℕ) (s : Text) → length (rstrip (take n s) ++ codes "...") ≤ n + 3
length-truncate n s = omega (
  arith,
  length-append (rstrip (take n s)) (codes "..."),
  length-rstrip (take n s),
  length-take n s,
)

length-cut_line : (s : Text) → length (cut_line s) ≤ 512
unfolding cut_line
length-cut_line s = elim (Bool-cases (ltb 512 (length s))) [
  | inl e ↦
      subst (λ b. length (if b then rstrip (take 509 s) ++ codes "..." else s) ≤ 512) (sym e)
        (length-truncate 509 s)
  | inr e ↦
      subst (λ b. length (if b then rstrip (take 509 s) ++ codes "..." else s) ≤ 512) (sym e)
        (short (length s) e)
]
  where
    short : (n : ℕ) → ltb 512 n ≡ false → n ≤ 512
    short n e = ground arith

IsTidy-no_control : {b : Bool} (s : Text) → IsTidy b s → HasNoControl s
IsTidy-no_control [] t = tt
IsTidy-no_control (c ∷ s) (plain _ _ p t) = (p.1, IsTidy-no_control s t)
IsTidy-no_control (c ∷ s) (gap _ _ p t) =
    (rw p (unfold is_control_character in refl), IsTidy-no_control s t)

map-blank_control-id : (s : Text) → HasNoControl s → map blank_control s ≡ s
unfolding blank_control
map-blank_control-id [] h = refl
map-blank_control-id (c ∷ s) h = rw h.0 (ap (λ t. c ∷ t) (map-blank_control-id s h.1))

-- A summary that is one tidy line of at most 512 characters is not changed.
sanitize-id : (s : Text) → IsLine s → length s ≤ 512 → sanitize_summary s ≡ s
sanitize-id s h n = rw (sanitize-cut s) (
    rw (map-blank_control-id s (plain_line s h))
      (rw (join-split s h) (unfold cut_line in rw (short (length s) n))))
  where
    plain_line : (s : Text) → IsLine s → HasNoControl s
    plain_line s (inl e) = subst HasNoControl (sym e) tt
    plain_line s (inr t) = IsTidy-no_control s t

    short : (n : ℕ) → n ≤ 512 → ltb 512 n ≡ false
    short n h = ground arith

-- Every sanitized summary is empty or one tidy line, has at most 512 characters, and is not
-- changed when it is sanitized again.
pub sanitize_summary_idem :
    (v : Text)
    → IsLine (sanitize_summary v)
      × (length (sanitize_summary v) ≤ 512)
      × (sanitize_summary (sanitize_summary v) ≡ sanitize_summary v)
sanitize_summary_idem v = (line, bound, sanitize-id (sanitize_summary v) line bound)
  where
    line : IsLine (sanitize_summary v)
    line = rw (sanitize-cut v) (cut_line-IsLine _ (collapsed-IsLine v))

    bound : length (sanitize_summary v) ≤ 512
    bound = rw (sanitize-cut v) (length-cut_line _)

default_summary-not_empty :
    (k : ErrorKind) → is_empty (sanitize_summary (default_summary k)) ≡ false
unfolding sanitize_summary default_summary is_space is_control_character
default_summary-not_empty ErrorKind.discovery_failed = refl
default_summary-not_empty _ = refl

abbrev pub IsAuditSummary : Text → Type 0
IsAuditSummary s = (is_empty s ≡ false) × IsLine s × (length s ≤ 512) × (sanitize_summary s ≡ s)

sanitize_summary-IsAuditSummary :
    (v : Text) → is_empty (sanitize_summary v) ≡ false → IsAuditSummary (sanitize_summary v)
sanitize_summary-IsAuditSummary v e = let (a, b, c) = sanitize_summary_idem v in (e, a, b, c)

-- Whatever summary an exception is given, the one that it carries is not empty, is one tidy line
-- of at most 512 characters, and is not changed by `sanitize_summary`.
pub safe_summary-IsAuditSummary :
    (k : ErrorKind) (summary : Option Text) → IsAuditSummary (safe_summary k summary)
unfolding safe_summary
safe_summary-IsAuditSummary k none =
    sanitize_summary-IsAuditSummary (default_summary k) (default_summary-not_empty k)
safe_summary-IsAuditSummary k (some summary) =
    elim (is_empty (sanitize_summary summary))
        as (λ b.
          is_empty (sanitize_summary summary) ≡ b
          → IsAuditSummary
              (if b then sanitize_summary (default_summary k) else sanitize_summary summary)) [
                | true ↦ λ e.
                    sanitize_summary-IsAuditSummary (default_summary k)
                      (default_summary-not_empty k)
                | false ↦ λ e. sanitize_summary-IsAuditSummary summary e
              ]
      refl
