-- ===== src/Prelude/Int.antt =====
-- Go's signed integers over the native numbers: `negsuc n` is -(n + 1).
use Prim.Native.Nat.{ℕ, zero, suc, ◌+◌, ◌-◌, ◌*◌, ◌/◌, ◌%◌, ◌^◌, ◌≤◌, ◌<◌}
use mathlib.Core.Path.{◌≡◌}
use native.Mathlib.Omega.{arith}
use mathlib.Core.Bool.{Bool}
use gitlab_procs_exporter.Prelude.Tests.{ltb, leb, if◌then◌else◌}

pub data ℤ : Type 0 where
  pos : ℕ → ℤ
  negsuc : ℕ → ℤ

abbrev pub pos_part : ℤ → ℕ
pos_part (pos n) = n
pos_part (negsuc n) = 0

abbrev pub neg_part : ℤ → ℕ
neg_part (pos n) = 0
neg_part (negsuc n) = suc n

-- a - b, as an integer.
abbrev pub sub_ℕ : ℕ → ℕ → ℤ
sub_ℕ a b = if leb b a then pos (a - b) else negsuc (b - a - 1)

infix 50 ◌≤ℤ◌ ◌<ℤ◌
abbrev pub ◌≤ℤ◌ : ℤ → ℤ → Type 0
a ≤ℤ b = pos_part a + neg_part b ≤ pos_part b + neg_part a

abbrev pub ◌<ℤ◌ : ℤ → ℤ → Type 0
a <ℤ b = pos_part a + neg_part b < pos_part b + neg_part a

abbrev pub int_leb : ℤ → ℤ → Bool
int_leb a b = leb (pos_part a + neg_part b) (pos_part b + neg_part a)

abbrev pub int_ltb : ℤ → ℤ → Bool
int_ltb a b = ltb (pos_part a + neg_part b) (pos_part b + neg_part a)

-- -n
abbrev pub neg_ℕ : ℕ → ℤ
neg_ℕ zero = pos 0
neg_ℕ (suc n) = negsuc n

-- a - b
abbrev pub int_sub : ℤ → ℤ → ℤ
int_sub a b = sub_ℕ (pos_part a + neg_part b) (pos_part b + neg_part a)

-- a * k
abbrev pub int_scale : ℤ → ℕ → ℤ
int_scale (pos n) k = pos (n * k)
int_scale (negsuc n) k = neg_ℕ (suc n * k)

-- a / k, cut towards 0
abbrev pub int_over : ℤ → ℕ → ℤ
int_over (pos n) k = pos (n / k)
int_over (negsuc n) k = neg_ℕ (suc n / k)

-- The `int64` with the same low 64 bits.
abbrev signed64 : ℕ → ℤ
signed64 r = if ltb r (2 ^ 63) then pos r else negsuc (2 ^ 64 - 1 - r)

unfoldable pub wrap_int64 : ℤ → ℤ
wrap_int64 (pos n) = signed64 (n % 2 ^ 64)
wrap_int64 (negsuc n) = signed64 (2 ^ 64 - 1 - n % 2 ^ 64)

abbrev pub IsInt64 : ℤ → Type 0
IsInt64 (pos n) = n < 2 ^ 63
IsInt64 (negsuc n) = n < 2 ^ 63

-- What fits stays.
pub wrap_int64-IsInt64 : (z : ℤ) → IsInt64 z → wrap_int64 z ≡ z
unfolding wrap_int64
wrap_int64-IsInt64 (pos n) h = ground arith
wrap_int64-IsInt64 (negsuc n) h = ground arith

-- a + n
abbrev pub int_add : ℤ → ℕ → ℤ
int_add (pos a) n = pos (a + n)
int_add (negsuc a) n = sub_ℕ n (suc a)
