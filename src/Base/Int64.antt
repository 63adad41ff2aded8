-- ===== src/Base/Int64.antt =====
-- Go's int64 as its 64-bit pattern, a number below 2 ^ 64: sums wrap, and the sign is the top bit.
use Prim.Native.Nat.{ℕ, ◌+◌, ◌-◌, ◌%◌, ◌^◌, ◌<◌}
use mathlib.Core.Bool.{Bool, true, false}
use mathlib.Core.Path.{◌≡◌}
use native.Mathlib.Omega.{arith}
use burnmon.Base.Tests.{ltb}

abbrev pub word_mod : ℕ
word_mod = 2 ^ 64

abbrev pub sign_bit : ℕ
sign_bit = 2 ^ 63

infixl 65 ◌+64◌
unfoldable pub ◌+64◌ : ℕ → ℕ → ℕ
a +64 b = (a + b) % word_mod

-- `a - b` on int64.
unfoldable pub sub64 : ℕ → ℕ → ℕ
sub64 a b = (a + word_mod - b % word_mod) % word_mod

-- The signed order of two patterns: the sign bit is flipped.
unfoldable pub lt64 : ℕ → ℕ → Bool
lt64 a b = ltb ((a + sign_bit) % word_mod) ((b + sign_bit) % word_mod)

pub +64_comm : (a b : ℕ) → a +64 b ≡ b +64 a
unfolding ◌+64◌
+64_comm a b = omega arith

pub +64_assoc : (a b c : ℕ) → a +64 b +64 c ≡ a +64 (b +64 c)
unfolding ◌+64◌
+64_assoc a b c = omega arith

pub +64_swap : (a b c : ℕ) → a +64 b +64 c ≡ a +64 c +64 b
unfolding ◌+64◌
+64_swap a b c = omega arith

pub +64-lt : (a b : ℕ) → a +64 b < word_mod
unfolding ◌+64◌
+64-lt a b = omega arith

-- On counts that are not negative the order is that of the numbers.
pub lt64_of_nonneg : (a b : ℕ) → a < sign_bit → b < sign_bit → lt64 a b ≡ ltb a b
unfolding lt64
lt64_of_nonneg a b h k = ground arith

pub lt64_irrefl : (a : ℕ) → lt64 a a ≡ false
unfolding lt64
lt64_irrefl a = ground arith

pub lt64_asymm : (a b : ℕ) → lt64 a b ≡ true → lt64 b a ≡ false
unfolding lt64
lt64_asymm a b h = ground arith

-- "Not below" is transitive.
pub lt64_not_trans : (a b c : ℕ) → lt64 a b ≡ false → lt64 b c ≡ false → lt64 a c ≡ false
unfolding lt64
lt64_not_trans a b c h k = ground arith

pub zero_add64 : (n : ℕ) → (0 +64 n) +64 0 ≡ n +64 0
unfolding ◌+64◌
zero_add64 n = omega arith

pub regroup : (a b c : ℕ) → (a +64 b) +64 c ≡ b +64 (a +64 c)
unfolding ◌+64◌
regroup a b c = omega arith

pub regroup_right : (a b c : ℕ) → a +64 (b +64 c) ≡ b +64 (a +64 c)
unfolding ◌+64◌
regroup_right a b c = omega arith

-- Adding 0 changes no pattern of 64 bits.
pub add64-zero : (a : ℕ) → a < word_mod → a +64 0 ≡ a
unfolding ◌+64◌
add64-zero a h = omega arith
