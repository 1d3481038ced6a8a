-- ===== src/Base/Regex.antt =====
-- `re.fullmatch` for the patterns of the program: character classes, sequences, alternatives
-- and repetition, matched by derivatives.
use Prim.Native.Nat.{ℕ, zero, suc}
use mathlib.Core.Path.{◌≡◌, refl, ap}
use mathlib.Core.Logic.{inl, inr}
use mathlib.Core.Bool.{Bool, true, false, ◌&&◌, ◌||◌}
use mathlib.Core.List.{[], ◌∷◌}
use native.Mathlib.Omega.{arith}
use mexican_banking_monitor.Base.Tests.{if◌then◌else◌, Bool-cases}
use mexican_banking_monitor.Base.Lists.{All, length}
use mexican_banking_monitor.Base.Texts.{Text}

pub data Regex : Type 0 where
  none_of : Regex
  empty : Regex
  class : (ℕ → Bool) → Regex
  seq : Regex → Regex → Regex
  alt : Regex → Regex → Regex
  star : Regex → Regex

-- r+ and r{n}
abbrev pub plus : Regex → Regex
plus r = seq r (star r)

abbrev pub times : ℕ → Regex → Regex
times zero r = empty
times (suc n) r = seq r (times n r)

unfoldable pub nullable : Regex → Bool
nullable none_of = false
nullable empty = true
nullable (class p) = false
nullable (seq r s) = nullable r && nullable s
nullable (alt r s) = nullable r || nullable s
nullable (star r) = true

-- Sequences and alternatives that drop what cannot match.
unfoldable pub seq_of : Regex → Regex → Regex
seq_of none_of s = none_of
seq_of empty s = s
seq_of r s = seq r s

unfoldable pub alt_of : Regex → Regex → Regex
alt_of none_of s = s
alt_of r s = alt r s

-- What must match the rest, once `c` is read.
unfoldable pub deriv : ℕ → Regex → Regex
unfolding nullable seq_of alt_of
deriv c none_of = none_of
deriv c empty = none_of
deriv c (class p) = if p c then empty else none_of
deriv c (seq r s) =
    let first = seq_of (deriv c r) s in
    let second = deriv c s in if nullable r then alt_of first second else first
deriv c (alt r s) = alt_of (deriv c r) (deriv c s)
deriv c (star r) = seq_of (deriv c r) (star r)

-- pattern.fullmatch(text) is not None
unfoldable pub fullmatch : Regex → Text → Bool
unfolding deriv
fullmatch r [] = nullable r
fullmatch r (c ∷ s) = fullmatch (deriv c r) s

-- The pattern reads no character that fails the test `q`.
abbrev pub Reads : (ℕ → Bool) → Regex → Type 0
Reads q none_of = Unit
Reads q empty = Unit
Reads q (class p) = (c : ℕ) → q c ≡ false → p c ≡ false
Reads q (seq r s) = Reads q r × Reads q s
Reads q (alt r s) = Reads q r × Reads q s
Reads q (star r) = Reads q r

deriv-none_of : (q : ℕ → Bool) (c : ℕ) (r : Regex) → Reads q r → q c ≡ false → deriv c r ≡ none_of
unfolding deriv
deriv-none_of q c none_of h e = refl
deriv-none_of q c empty h e = refl
deriv-none_of q c (class p) h e = rw (h c e)
deriv-none_of q c (seq r s) h e =
    ground (arith, deriv-none_of q c r h.0 e, deriv-none_of q c s h.1 e)
deriv-none_of q c (alt r s) h e = rw (deriv-none_of q c r h.0 e, deriv-none_of q c s h.1 e)
deriv-none_of q c (star r) h e = rw (deriv-none_of q c r h e)

seq_of-Reads : (q : ℕ → Bool) (r s : Regex) → Reads q r → Reads q s → Reads q (seq_of r s)
unfolding seq_of
seq_of-Reads q none_of s h k = tt
seq_of-Reads q empty s h k = k
seq_of-Reads q r s h k = (h, k)

alt_of-Reads : (q : ℕ → Bool) (r s : Regex) → Reads q r → Reads q s → Reads q (alt_of r s)
unfolding alt_of
alt_of-Reads q none_of s h k = k
alt_of-Reads q r s h k = (h, k)

if-Reads :
    (q : ℕ → Bool) (b : Bool) (r s : Regex) → Reads q r → Reads q s → Reads q (if b then r else s)
if-Reads q true r s h k = h
if-Reads q false r s h k = k

deriv-Reads : (q : ℕ → Bool) (c : ℕ) (r : Regex) → Reads q r → Reads q (deriv c r)
unfolding deriv
deriv-Reads q c none_of h = tt
deriv-Reads q c empty h = tt
deriv-Reads q c (class p) h = if-Reads q (p c) empty none_of tt tt
deriv-Reads q c (seq r s) h =
    let first = seq_of-Reads q (deriv c r) s (deriv-Reads q c r h.0) h.1 in
    if-Reads q (nullable r) _ _
      (alt_of-Reads q (seq_of (deriv c r) s) (deriv c s) first (deriv-Reads q c s h.1)) first
deriv-Reads q c (alt r s) h =
    alt_of-Reads q (deriv c r) (deriv c s) (deriv-Reads q c r h.0) (deriv-Reads q c s h.1)
deriv-Reads q c (star r) h = seq_of-Reads q (deriv c r) (star r) (deriv-Reads q c r h) h

fullmatch-none_of : (s : Text) → fullmatch none_of s ≡ false
unfolding fullmatch
fullmatch-none_of [] = refl
fullmatch-none_of (c ∷ s) = fullmatch-none_of s

-- A match holds no character that the pattern cannot read.
pub fullmatch-All :
    (q : ℕ → Bool) (r : Regex) (s : Text)
    → Reads q r
    → fullmatch r s ≡ true
    → All (λ c. q c ≡ true) s
unfolding fullmatch
fullmatch-All q r [] h m = tt
fullmatch-All q r (c ∷ s) h m =
    (head (q c) refl, fullmatch-All q (deriv c r) s (deriv-Reads q c r h) m)
  where
    head : (b : Bool) → q c ≡ b → q c ≡ true
    head true e = e
    head false e = cc (m, ap (λ d. fullmatch d s) (deriv-none_of q c r h e), fullmatch-none_of s)

-- A match of `[...]{n}` has n characters.
pub length-times :
    (n : ℕ) (p : ℕ → Bool) (s : Text) → fullmatch (times n (class p)) s ≡ true → length s ≡ n
unfolding fullmatch
length-times zero p [] m = refl
length-times zero p (c ∷ s) m = cc (m, fullmatch-none_of s)
length-times (suc n) p [] m = cc
length-times (suc n) p (c ∷ s) m = elim (Bool-cases (p c)) [
  | inl e ↦ ap suc (length-times n p s (rw e at m))
  | inr e ↦ cc (m, e, fullmatch-none_of s)
]

pub fullmatch-times :
    (p : ℕ → Bool) (s : Text)
    → All (λ c. p c ≡ true) s
    → fullmatch (times (length s) (class p)) s ≡ true
unfolding fullmatch
fullmatch-times p [] h = refl
fullmatch-times p (c ∷ s) h = rw h.0 (fullmatch-times p s h.1)
