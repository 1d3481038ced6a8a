-- ===== src/Config/Ranges.antt =====
-- Ranges of days, both ends included, the end possibly open (`_ranges_overlap` and `ValidityRange`
-- in src/mx_bank_monitor/config/models.py). A date is its proleptic ordinal, which has its order.
use mexican_banking_monitor.Base.{
  ℕ, ◌≤◌, ◌≡◌, refl, Bool, true, ◌&&◌, Option, none, some, arith, leb,
}

pub record ValidityRange : Type 0 where
  pub valid_from : ℕ
  pub valid_to : Option ℕ

-- `end is None or start <= end`
unfoldable pub begins_by : ℕ → Option ℕ → Bool
begins_by start none = true
begins_by start (some end) = leb start end

unfoldable pub ranges_overlap : ℕ → Option ℕ → ℕ → Option ℕ → Bool
unfolding begins_by
ranges_overlap left_start left_end right_start right_end =
    begins_by right_start left_end && begins_by left_start right_end

-- `ordered_validity`
unfoldable pub is_ordered : ValidityRange → Bool
unfolding begins_by
is_ordered self = begins_by self.valid_from self.valid_to

-- The range holds on the day.
abbrev pub EndsBy : ℕ → Option ℕ → Type 0
EndsBy day none = Unit
EndsBy day (some end) = day ≤ end

pub record HoldsOn (range : ValidityRange) (day : ℕ) : Type 0 where
  pub begun : range.valid_from ≤ day
  pub not_ended : EndsBy day range.valid_to

begins_by→ : (start : ℕ) (end : Option ℕ) → begins_by start end ≡ true → EndsBy start end
unfolding begins_by
begins_by→ start none h = tt
begins_by→ start (some end) h = ground (arith, h)

begins_by← :
    (start day : ℕ) (end : Option ℕ) → start ≤ day → EndsBy day end → begins_by start end ≡ true
unfolding begins_by
begins_by← start day none p q = refl
begins_by← start day (some end) p q = ground (arith, p, q)

-- Two ranges with a common day overlap.
pub ranges_overlap-of_day :
    (left right : ValidityRange) (day : ℕ)
    → HoldsOn left day
    → HoldsOn right day
    → ranges_overlap left.valid_from left.valid_to right.valid_from right.valid_to ≡ true
unfolding ranges_overlap
ranges_overlap-of_day left right day l r = rw (
  begins_by← right.valid_from day left.valid_to r.begun l.not_ended,
  begins_by← left.valid_from day right.valid_to l.begun r.not_ended,
)
