-- ===== src/Prelude/Bits.antt =====
-- Laws of `bit_xor` and `bit_and`, from the binary digits that the native operations stand for.
use Prim.Native.Nat.{ℕ, zero, suc, ◌+◌, ◌*◌, ◌/◌, ◌%◌, ◌^◌, ◌≤◌, ◌<◌, min, bit_xor, bit_and}
use Prim.Native.Nat.{digits, differ, bit_xor-bitwise, bit_and-bitwise}
use mathlib.Core.Path.{◌≡◌, refl, ap, ◌∙◌}
use native.Mathlib.Nat.{pow-suc, div-add-mod, mod-lt, mod-eq_of_lt, mul-add-mod_self_left}
use native.Mathlib.Omega.{arith}

-- Digits with fuel: what exceeds the first operand changes nothing.
module _ (z : ℕ → ℕ) (f : ℕ → ℕ → ℕ) where
  enough_digits : (n m a b : ℕ) → a ≤ n → a ≤ m → digits z f n a b ≡ digits z f m a b
  enough_digits zero zero a b p q = refl
  enough_digits zero (suc m) a b p q = let e : a ≡ 0 = omega arith in rw e
  enough_digits (suc n) zero a b p q = let e : a ≡ 0 = omega arith in rw e
  enough_digits (suc n) (suc m) zero b p q = refl
  enough_digits (suc n) (suc m) (suc a) b p q =
      let high = enough_digits n m (suc a / 2) (b / 2) (omega arith) (omega arith) in rw high

zero-bit_xor : (b : ℕ) → bit_xor 0 b ≡ b
zero-bit_xor b = bit_xor-bitwise 0 b

-- One binary digit at a time.
bit_xor_step : (a b : ℕ) → bit_xor a b ≡ bit_xor (a / 2) (b / 2) * 2 + differ (a % 2) (b % 2)
bit_xor_step zero b = omega (arith, zero-bit_xor b, zero-bit_xor (b / 2))
bit_xor_step (suc a) b = omega (
  arith,
  bit_xor-bitwise (suc a) b,
  bit_xor-bitwise (suc a / 2) (b / 2),
  enough_digits (λ y. y) differ a (suc a / 2) (suc a / 2) (b / 2) (omega arith) (omega arith),
)

differ-lt : (x y : ℕ) → x < 2 → y < 2 → differ x y < 2
differ-lt zero y p q = q
differ-lt (suc x) zero p q = p
differ-lt (suc x) (suc y) p q = differ-lt x y (omega arith) (omega arith)

differ_cancel : (x y : ℕ) → x < 2 → y < 2 → differ (differ x y) y ≡ x
differ_cancel zero zero p q = refl
differ_cancel zero (suc zero) p q = refl
differ_cancel zero (suc (suc y)) p q = absurd (omega arith)
differ_cancel (suc zero) zero p q = refl
differ_cancel (suc zero) (suc zero) p q = refl
differ_cancel (suc zero) (suc (suc y)) p q = absurd (omega arith)
differ_cancel (suc (suc x)) y p q = absurd (omega arith)

differ_self : (x : ℕ) → differ x x ≡ 0
differ_self zero = refl
differ_self (suc x) = differ_self x

-- The exclusive or of two words is a word.
pub bit_xor-lt : (k a b : ℕ) → a < 2 ^ k → b < 2 ^ k → bit_xor a b < 2 ^ k
bit_xor-lt zero a b p q =
    let ea : a ≡ 0 = omega arith in let eb : b ≡ 0 = omega arith in rw (ea, eb) (omega arith)
bit_xor-lt (suc k) a b p q = omega (
  arith,
  pow-suc 2 k,
  bit_xor_step a b,
  differ-lt (a % 2) (b % 2) (omega arith) (omega arith),
  bit_xor-lt k (a / 2) (b / 2) (omega (arith, pow-suc 2 k)) (omega (arith, pow-suc 2 k)),
)

-- The two halves of an exclusive or.
bit_xor_parts :
    (a b : ℕ)
    → (bit_xor a b / 2 ≡ bit_xor (a / 2) (b / 2)) × (bit_xor a b % 2 ≡ differ (a % 2) (b % 2))
bit_xor_parts a b =
    omega (arith, bit_xor_step a b, differ-lt (a % 2) (b % 2) (omega arith) (omega arith))

-- What is mixed in twice drops out.
pub bit_xor_cancel : (k a b : ℕ) → a < 2 ^ k → b < 2 ^ k → bit_xor (bit_xor a b) b ≡ a
bit_xor_cancel zero a b p q =
    let ea : a ≡ 0 = omega arith in let eb : b ≡ 0 = omega arith in rw (ea, eb)
bit_xor_cancel (suc k) a b p q =
    let (high, low) = bit_xor_parts a b in
    bit_xor_step (bit_xor a b) b
    ∙ rw (high, low)
        (omega (
          arith,
          differ_cancel (a % 2) (b % 2) (omega arith) (omega arith),
          bit_xor_cancel k (a / 2) (b / 2) (omega (arith, pow-suc 2 k))
              (omega (arith, pow-suc 2 k)),
        ))

pub bit_xor_self : (k a : ℕ) → a < 2 ^ k → bit_xor a a ≡ 0
bit_xor_self zero a p = let e : a ≡ 0 = omega arith in rw e
bit_xor_self (suc k) a p = omega (
  arith,
  bit_xor_step a a,
  differ_self (a % 2),
  bit_xor_self k (a / 2) (omega (arith, pow-suc 2 k)),
)

bit_and_step : (a b : ℕ) → bit_and a b ≡ bit_and (a / 2) (b / 2) * 2 + min (a % 2) (b % 2)
bit_and_step zero b = omega (arith, bit_and-bitwise 0 b, bit_and-bitwise 0 (b / 2))
bit_and_step (suc a) b = omega (
  arith,
  bit_and-bitwise (suc a) b,
  bit_and-bitwise (suc a / 2) (b / 2),
  enough_digits (λ y. 0) min a (suc a / 2) (suc a / 2) (b / 2) (omega arith) (omega arith),
)

bit_and-zero : (k a : ℕ) → a ≤ k → bit_and a 0 ≡ 0
bit_and-zero zero a h = let e : a ≡ 0 = omega arith in rw e
bit_and-zero (suc k) zero h = refl
bit_and-zero (suc k) (suc a) h =
    omega (arith, bit_and_step (suc a) 0, bit_and-zero k (suc a / 2) (omega arith))

-- A mask of ones one digit longer.
mask_digit :
    (m q a : ℕ) → 0 < q → bit_and (a / 2) m ≡ a / 2 % q → bit_and a (2 * m + 1) ≡ a % (2 * q)
mask_digit m q a h e =
    let high : (2 * m + 1) / 2 ≡ m = omega arith in
    let low : (2 * m + 1) % 2 ≡ 1 = omega arith in
    let r = 2 * (a / 2 % q) + a % 2 in
    let split : a ≡ 2 * q * (a / 2 / q) + r = omega (arith, div-add-mod (a / 2) q) in
    let small : r < 2 * q = omega (arith, mod-lt (a / 2) h) in
    let rest : a % (2 * q) ≡ r =
      ap (λ (t : ℕ). t % (2 * q)) split ∙ mul-add-mod_self_left (2 * q) _ r ∙ mod-eq_of_lt small in
    bit_and_step a (2 * m + 1) ∙ rw (high, low, e, rest) (omega arith)

-- A mask of `k` ones takes the remainder by the power of two.
abbrev mask : ℕ → ℕ
mask zero = 0
mask (suc k) = 2 * mask k + 1

abbrev double : ℕ → ℕ
double zero = 1
double (suc k) = 2 * double k

double-pos : (k : ℕ) → 0 < double k
double-pos zero = omega arith
double-pos (suc k) = omega (arith, double-pos k)

bit_and-mask : (k a : ℕ) → bit_and a (mask k) ≡ a % double k
bit_and-mask zero a = omega (arith, bit_and-zero a a (omega arith))
bit_and-mask (suc k) a = mask_digit (mask k) (double k) a (double-pos k) (bit_and-mask k (a / 2))

-- The ten low bits.
pub bit_and_low10 : (a : ℕ) → bit_and a 0x3ff ≡ a % 2 ^ 10
bit_and_low10 a = bit_and-mask 10 a
