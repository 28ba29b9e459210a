-- ===== src/Prelude/Int.antt =====
-- Signed integers over the native numbers.
use foxrouters.Prelude.Tests.{leb, if◌then◌else◌, nat_beq}
use Prim.Native.Nat.{ℕ, zero, suc, ◌+◌, ◌-◌, ◌%◌, ◌^◌}
use mathlib.Core.Bool.{Bool, true, false}
use foxrouters.Prelude.{◌<◌, ◌≡◌, arith}

-- `negsuc n` is -(n + 1).
pub data ℤ : Type 0 where
  pos : ℕ → ℤ
  negsuc : ℕ → ℤ

-- `z > 0`, `z >= 0`
abbrev pub is_positive : ℤ → Bool
is_positive (pos n) = leb 1 n
is_positive (negsuc n) = false

abbrev pub is_nonneg : ℤ → Bool
is_nonneg (pos n) = true
is_nonneg (negsuc n) = false

-- The value, or 0 for a negative one.
abbrev pub to_nat : ℤ → ℕ
to_nat (pos n) = n
to_nat (negsuc n) = 0

-- `z - 1` of an int64, which wraps at the least one.
abbrev pub sub_one_i64 : ℤ → ℤ
sub_one_i64 (pos zero) = negsuc 0
sub_one_i64 (pos (suc n)) = pos n
sub_one_i64 (negsuc n) = if nat_beq n (2 ^ 63 - 1) then pos (2 ^ 63 - 1) else negsuc (n + 1)

-- -n
abbrev pub neg : ℕ → ℤ
neg zero = pos 0
neg (suc n) = negsuc n

-- Go's `%`: the remainder has the sign of the dividend.
abbrev pub rem : ℤ → ℕ → ℤ
rem (pos n) m = pos (n % m)
rem (negsuc n) m = neg ((n + 1) % m)

-- `if idx < 0 { idx += m }; xs[idx]` at 0 < m, for an `idx` above -m
abbrev pub wrap_index : ℤ → ℕ → ℕ
wrap_index (pos n) m = n
wrap_index (negsuc n) m = m - (n + 1)

-- `a <= b`
abbrev pub leb_int : ℤ → ℤ → Bool
leb_int (pos a) (pos b) = leb a b
leb_int (pos a) (negsuc b) = false
leb_int (negsuc a) (pos b) = true
leb_int (negsuc a) (negsuc b) = leb b a

-- The two's complement of an int64, and the number that a pattern of 64 bits stands for.
abbrev pub word_of : ℤ → ℕ
word_of (pos n) = n % 2 ^ 64
word_of (negsuc n) = 2 ^ 64 - 1 - n % 2 ^ 64

abbrev pub int_of : ℕ → ℤ
int_of w = if leb (2 ^ 63) w then negsuc (2 ^ 64 - 1 - w) else pos w

-- `a + b` on int64, which wraps.
unfoldable pub add_i64 : ℤ → ℤ → ℤ
add_i64 a b = int_of ((word_of a + word_of b) % 2 ^ 64)

pub add_i64_exact : (a b : ℕ) → a + b < 2 ^ 63 → add_i64 (pos a) (pos b) ≡ pos (a + b)
unfolding add_i64
add_i64_exact a b h = ground arith

pub rem-lt : (a n : ℕ) → 0 < n → a % n < n
rem-lt a n h = grind arith

pub wrap_index-lt : (z : ℤ) (n : ℕ) → 0 < n → wrap_index (rem z n) n < n
wrap_index-lt (pos a) n h = rem-lt a n h
wrap_index-lt (negsuc a) n h = neg-lt ((a + 1) % n) (rem-lt (a + 1) n h)
  where
    neg-lt : (k : ℕ) → k < n → wrap_index (neg k) n < n
    neg-lt zero h = h
    neg-lt (suc k) h = omega arith
