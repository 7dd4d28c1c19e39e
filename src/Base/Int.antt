-- ===== src/Base/Int.antt =====
-- C integers that may be negative: the integers over the native numbers, the conversions to
-- `int`, `short` and `unsigned int` (two's complement), and C's `/` and `%`, which round to zero.
use everyday_coding.Base.{
  ℕ, suc, ◌+◌, ◌-◌, ◌*◌, ◌/◌, ◌%◌, ◌^◌, ◌≤◌, ◌<◌, ◌≡◌, Bool, arith, ltb, leb, if◌then◌else◌,
}

-- `negsuc n` is -(n + 1).
pub data ℤ : Type 0 where
  pos : ℕ → ℤ
  negsuc : ℕ → ℤ

abbrev pub pos_part : ℤ → ℕ
pos_part (pos n) = n
pos_part (negsuc n) = 0

abbrev pub neg_part : ℤ → ℕ
neg_part (pos n) = 0
neg_part (negsuc n) = suc n

-- a - b as an integer
abbrev pub sub_ℕ : ℕ → ℕ → ℤ
sub_ℕ a b = if leb b a then pos (a - b) else negsuc (b - a - 1)

infixl 65 ◌+ℤ◌ ◌-ℤ◌
unfoldable pub ◌+ℤ◌ : ℤ → ℤ → ℤ
a +ℤ b = sub_ℕ (pos_part a + pos_part b) (neg_part a + neg_part b)

unfoldable pub ◌-ℤ◌ : ℤ → ℤ → ℤ
a -ℤ b = sub_ℕ (pos_part a + neg_part b) (neg_part a + pos_part b)

abbrev pub ltb_ℤ : ℤ → ℤ → Bool
ltb_ℤ a b = ltb (pos_part a + neg_part b) (pos_part b + neg_part a)

infix 50 ◌≤ℤ◌
abbrev pub ◌≤ℤ◌ : ℤ → ℤ → Type 0
a ≤ℤ b = pos_part a + neg_part b ≤ pos_part b + neg_part a

-- C's `/` and `%` by a positive number
abbrev pub quot_ℤ : ℤ → ℕ → ℤ
quot_ℤ (pos n) d = pos (n / d)
quot_ℤ (negsuc n) d = sub_ℕ 0 (suc n / d)

abbrev pub rem_ℤ : ℤ → ℕ → ℤ
rem_ℤ (pos n) d = pos (n % d)
rem_ℤ (negsuc n) d = sub_ℕ 0 (suc n % d)

-- the bit pattern of a conversion to an unsigned type of modulus `m`
abbrev pub to_unsigned : ℕ → ℤ → ℕ
to_unsigned m (pos n) = n % m
to_unsigned m (negsuc n) = m - 1 - n % m

-- the value of a bit pattern below `2 * h` in the signed type of half range `h`
abbrev pub to_signed : ℕ → ℕ → ℤ
to_signed h w = if ltb w h then pos w else negsuc (2 * h - 1 - w)

abbrev pub to_u32 : ℤ → ℕ
to_u32 = to_unsigned (2 ^ 32)

-- `(int) x`
unfoldable pub to_int : ℤ → ℤ
to_int x = to_signed (2 ^ 31) (to_unsigned (2 ^ 32) x)

-- `(short) x`
unfoldable pub to_short : ℤ → ℤ
to_short x = to_signed (2 ^ 15) (to_unsigned (2 ^ 16) x)

-- A number in the range of `int` is kept.
pub to_int_small : (n : ℕ) → n < 2 ^ 31 → to_int (pos n) ≡ pos n
unfolding to_int
to_int_small n h = ground arith

pub to_short_small : (n : ℕ) → n < 2 ^ 15 → to_short (pos n) ≡ pos n
unfolding to_short
to_short_small n h = ground arith

-- A number that needs the sign bit of a `short` becomes negative.
pub to_short_large : (n : ℕ) → 2 ^ 15 ≤ n → n < 2 ^ 16 → pos_part (to_short (pos n)) ≡ 0
unfolding to_short
to_short_large n over fits = ground arith

-- A small negative number is kept as well.
pub to_int_negative : (n : ℕ) → n < 2 ^ 31 → to_int (negsuc n) ≡ negsuc n
unfolding to_int
to_int_negative n h = ground arith

pub -ℤ-pos : (a b : ℕ) → b ≤ a → pos a -ℤ pos b ≡ pos (a - b)
unfolding ◌-ℤ◌
-ℤ-pos a b h = ground arith

pub -ℤ-negsuc : (a b : ℕ) → a < b → pos a -ℤ pos b ≡ negsuc (b - a - 1)
unfolding ◌-ℤ◌
-ℤ-negsuc a b h = ground arith

pub +ℤ-pos : (a b : ℕ) → pos a +ℤ pos b ≡ pos (a + b)
unfolding ◌+ℤ◌
+ℤ-pos a b = ground arith
