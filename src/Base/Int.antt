-- ===== src/Base/Int.antt =====
-- Signed integers over the native numbers, and int64 with its two's complement bit pattern.
use flamedb.Base.{ℕ, suc, ◌+◌, ◌-◌, ◌≤◌, ◌<◌, ◌^◌, ◌≡◌, Bool, arith, ltb, leb, if◌then◌else◌}

-- `negsuc n` is -(n + 1).
pub data ℤ : Type 0 where
  pos : ℕ → ℤ
  negsuc : ℕ → ℤ

abbrev pub pos_part : ℤ → ℕ
pos_part (pos n) = n
pos_part (negsuc n) = 0

abbrev pub neg_part : ℤ → ℕ
neg_part (pos n) = 0
neg_part (negsuc n) = suc n

-- a - b, as an integer.
abbrev pub sub_ℕ : ℕ → ℕ → ℤ
sub_ℕ a b = if leb b a then pos (a - b) else negsuc (b - a - 1)

infixl 65 ◌+ℤ◌ ◌-ℤ◌
unfoldable pub ◌+ℤ◌ : ℤ → ℤ → ℤ
a +ℤ b = sub_ℕ (pos_part a + pos_part b) (neg_part a + neg_part b)

unfoldable pub ◌-ℤ◌ : ℤ → ℤ → ℤ
a -ℤ b = sub_ℕ (pos_part a + neg_part b) (neg_part a + pos_part b)

pub +ℤ_parts :
    (a b : ℤ)
    → pos_part (a +ℤ b) + neg_part a + neg_part b ≡ neg_part (a +ℤ b) + pos_part a + pos_part b
unfolding ◌+ℤ◌
+ℤ_parts a b = ground arith

pub -ℤ_parts :
    (a b : ℤ)
    → pos_part (a -ℤ b) + neg_part a + pos_part b ≡ neg_part (a -ℤ b) + pos_part a + neg_part b
unfolding ◌-ℤ◌
-ℤ_parts a b = ground arith

pub eq_of_parts : (a b : ℤ) → pos_part a + neg_part b ≡ pos_part b + neg_part a → a ≡ b
eq_of_parts a b h = ground arith

pub ruleset int_laws = (arith, +ℤ_parts, -ℤ_parts, eq_of_parts)

abbrev pub ltb_ℤ : ℤ → ℤ → Bool
ltb_ℤ a b = ltb (pos_part a + neg_part b) (pos_part b + neg_part a)

abbrev pub IsInt64 : ℤ → Type 0
IsInt64 i = (pos_part i < 2 ^ 63) × (neg_part i ≤ 2 ^ 63)

-- uint64(i), at an int64
unfoldable pub to_word64 : ℤ → ℕ
to_word64 (pos n) = n
to_word64 (negsuc n) = 2 ^ 64 - 1 - n

-- int64(w), at a uint64
unfoldable pub of_word64 : ℕ → ℤ
of_word64 w = if ltb w (2 ^ 63) then pos w else negsuc (2 ^ 64 - 1 - w)

pub to_word64-lt : (i : ℤ) → IsInt64 i → to_word64 i < 2 ^ 64
unfolding to_word64
to_word64-lt (pos n) h = omega arith
to_word64-lt (negsuc n) h = omega arith

pub of_word64-to_word64 : (i : ℤ) → IsInt64 i → of_word64 (to_word64 i) ≡ i
unfolding to_word64 of_word64
of_word64-to_word64 (pos n) h = ground arith
of_word64-to_word64 (negsuc n) h = ground arith
