-- ===== src/Prelude/Int.antt =====
-- Go's signed integers: values as ℤ, machine words as bit patterns.
use Prim.Native.Nat.{ℕ, suc, ◌+◌, ◌-◌, ◌*◌, ◌%◌, ◌^◌, ◌≤◌, ◌<◌}
use mathlib.Core.Path.{◌≡◌}
use mathlib.Core.Bool.{Bool}
use mathlib.Core.Logic.{◌↔◌}
use native.Mathlib.Omega.{arith}
use la2go.Prelude.Tests.{ltb, leb, ◌==◌, if◌then◌else◌}

-- `negsuc n` is -(n + 1).
pub data ℤ : Type 0 where
  pos : ℕ → ℤ
  negsuc : ℕ → ℤ

abbrev pub pos_part : ℤ → ℕ
pos_part (pos n) = n
pos_part (negsuc n) = 0

abbrev pub neg_part : ℤ → ℕ
neg_part (pos n) = 0
neg_part (negsuc n) = suc n

-- a - b, as an integer.
abbrev pub sub_ℕ : ℕ → ℕ → ℤ
sub_ℕ a b = if leb b a then pos (a - b) else negsuc (b - a - 1)

infixl 65 ◌+ℤ◌ ◌-ℤ◌
infix 50 ◌≤ℤ◌
unfoldable pub ◌+ℤ◌ : ℤ → ℤ → ℤ
a +ℤ b = sub_ℕ (pos_part a + pos_part b) (neg_part a + neg_part b)

unfoldable pub ◌-ℤ◌ : ℤ → ℤ → ℤ
a -ℤ b = sub_ℕ (pos_part a + neg_part b) (neg_part a + pos_part b)

-- The product of an integer and a natural number.
abbrev pub times_ℤ : ℤ → ℕ → ℤ
times_ℤ (pos a) k = pos (a * k)
times_ℤ (negsuc a) k = sub_ℕ 0 (suc a * k)

abbrev pub ◌≤ℤ◌ : ℤ → ℤ → Type 0
a ≤ℤ b = pos_part a + neg_part b ≤ pos_part b + neg_part a

abbrev pub ltb_ℤ : ℤ → ℤ → Bool
ltb_ℤ a b = ltb (pos_part a + neg_part b) (pos_part b + neg_part a)

abbrev pub eq_ℤ : ℤ → ℤ → Bool
eq_ℤ a b = (pos_part a + neg_part b) == (pos_part b + neg_part a)

pub eq_ℤ_iff : (a b : ℤ) → (eq_ℤ a b ≡ Bool.true) ↔ (a ≡ b)
eq_ℤ_iff a b = ground arith

-- The integer that a word of 16, 32 or 64 bits stands for in two's complement.
abbrev pub signed : ℕ → ℕ → ℤ
signed half w = if ltb w half then pos w else negsuc (half + half - w - 1)

abbrev pub int16 : ℕ → ℤ
int16 = signed (2 ^ 15)

abbrev pub int32 : ℕ → ℤ
int32 = signed (2 ^ 31)

abbrev pub int64 : ℕ → ℤ
int64 = signed (2 ^ 63)

-- The bit pattern of an integer modulo `m`, Go's conversion to an unsigned type.
abbrev pub word : ℕ → ℤ → ℕ
word m (pos n) = n % m
word m (negsuc n) = m - 1 - n % m

abbrev pub IsInt : ℕ → ℤ → Type 0
IsInt half z = (negsuc (half - 1) ≤ℤ z) × (z ≤ℤ pos (half - 1))

pub word-int16 : (w : ℕ) → w < 2 ^ 16 → word (2 ^ 16) (int16 w) ≡ w
word-int16 w h = ground arith

pub word-int32 : (w : ℕ) → w < 2 ^ 32 → word (2 ^ 32) (int32 w) ≡ w
word-int32 w h = ground arith

pub int16-word : (z : ℤ) → IsInt (2 ^ 15) z → int16 (word (2 ^ 16) z) ≡ z
int16-word z h = ground arith

pub int32-word : (z : ℤ) → IsInt (2 ^ 31) z → int32 (word (2 ^ 32) z) ≡ z
int32-word z h = ground arith

pub int64-word : (z : ℤ) → IsInt (2 ^ 63) z → int64 (word (2 ^ 64) z) ≡ z
int64-word z h = ground arith
