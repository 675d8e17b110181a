-- ===== src/Crypto/Rsa/Modular.antt =====
-- Congruence of natural numbers.
use native.Mathlib.Nat.{
  div-add-mod', mul_assoc, mul_right_comm, div-lt_iff_lt-mul, pow-zero, pow-suc, div-add-mod,
  mod-eq_of_lt, add-mul-mod_self_right, mod-lt,
}
use la2go.Prelude.{ℕ, zero, suc, ◌+◌, ◌*◌, ◌/◌, ◌%◌, ◌^◌, ◌≤◌, ◌<◌, ◌≡◌, refl, sym, ap, ◌∙◌, arith}

-- The two numbers differ by a multiple of the third.
pub record Cong (p a b : ℕ) : Type 0 where
  pub left : ℕ
  pub right : ℕ
  pub equal : a + left * p ≡ b + right * p

module _ {p : ℕ} where
  pub Cong-refl : (a : ℕ) → Cong p a a
  Cong-refl a = record { left = 0; right = 0; equal = refl }

  pub Cong-sym : {a b : ℕ} → Cong p a b → Cong p b a
  Cong-sym h = record { left = h.right; right = h.left; equal = sym h.equal }

  pub Cong-trans : {a b c : ℕ} → Cong p a b → Cong p b c → Cong p a c
  Cong-trans {a} {b} {c} h g =
      let e = h.equal in
      let e' = g.equal in
      record { left = h.left + g.left; right = h.right + g.right; equal = grind arith }

  pub Cong-add : {a b c d : ℕ} → Cong p a b → Cong p c d → Cong p (a + c) (b + d)
  Cong-add h g =
      let e = h.equal in
      let e' = g.equal in
      record { left = h.left + g.left; right = h.right + g.right; equal = grind arith }

  pub Cong-mul : {a b c d : ℕ} → Cong p a b → Cong p c d → Cong p (a * c) (b * d)
  Cong-mul {a} {b} {c} {d} h g =
      let e = h.equal in
      let e' = g.equal in
      let product : (a + h.left * p) * (c + g.left * p) ≡ (b + h.right * p) * (d + g.right * p) =
        rw (e, e') refl in
      record {
        left = a * g.left + h.left * c + h.left * g.left * p;
        right = b * g.right + h.right * d + h.right * g.right * p;
        equal = grind arith;
      }

  pub Cong-pow : {a b : ℕ} (n : ℕ) → Cong p a b → Cong p (a ^ n) (b ^ n)
  Cong-pow {a} {b} zero h = rw (pow-zero a, pow-zero b) (Cong-refl 1)
  Cong-pow {a} {b} (suc n) h = rw (pow-suc a n, pow-suc b n) (Cong-mul (Cong-pow n h) h)

  pub Cong-cancel : {a b : ℕ} (c : ℕ) → Cong p (a + c) (b + c) → Cong p a b
  Cong-cancel c h =
      let e = h.equal in record { left = h.left; right = h.right; equal = omega arith }

  pub Cong-mod : (a : ℕ) → Cong p (a % p) a
  Cong-mod a = record { left = a / p; right = 0; equal = (let e = div-add-mod a p in grind arith) }

  -- Below the modulus, congruent numbers are equal.
  pub Cong-unique : {a b : ℕ} → a < p → b < p → Cong p a b → a ≡ b
  Cong-unique {a} {b} h g c =
      sym (mod-eq_of_lt h)
      ∙ (sym (add-mul-mod_self_right a c.left p)
          ∙ (ap (λ (n : ℕ). n % p) c.equal ∙ (add-mul-mod_self_right b c.right p ∙ mod-eq_of_lt g)))

pub pow_add : (a n m : ℕ) → a ^ (n + m) ≡ a ^ n * a ^ m
pow_add a n zero = let e : n + 0 ≡ n = omega arith in rw (e, pow-zero a) (omega arith)
pow_add a n (suc m) =
    let e : n + suc m ≡ suc (n + m) = omega arith in
    let ih = pow_add a n m in rw (e, pow-suc a (n + m), pow-suc a m, ih) (grind arith)

pub pow_mul : (a n m : ℕ) → a ^ (n * m) ≡ (a ^ n) ^ m
pow_mul a n zero = let e : n * 0 ≡ 0 = omega arith in rw (e, pow-zero a, pow-zero (a ^ n)) refl
pow_mul a n (suc m) =
    let e : n * suc m ≡ n * m + n = grind arith in
    rw (e, pow_add a (n * m) n, pow_mul a n m, pow-suc (a ^ n) m) refl

-- A remainder by a multiple of the modulus.
pub Cong-mod_multiple : (p q a : ℕ) → Cong p (a % (p * q)) a
Cong-mod_multiple p q a = record {
  left = a / (p * q) * q;
  right = 0;
  equal = (let e = div-add-mod a (p * q) in grind arith);
}

pub Cong-multiple : {q : ℕ} (a b : ℕ) → Cong q (a * q + b) b
Cong-multiple a b = record { left = 0; right = a; equal = grind arith }

pub positive : (p q : ℕ) → 1 ≤ p → 1 ≤ q → 0 < p * q
positive p q h g = grind arith

-- Multiplying by a number and its inverse.
pub unit : (p q u m : ℕ) → Cong p (u * q) 1 → Cong p (m * u * q) m
unit p q u m h =
    let e : m * 1 ≡ m = omega arith in
    rw (mul_assoc m u q) (Cong-trans (Cong-mul (Cong-refl m) h) (rw e (Cong-refl m)))

-- Below a product, numbers that are congruent modulo both factors are equal, where the second factor
-- has an inverse modulo the first.
pub Cong-product :
    (p q u : ℕ) {a b : ℕ}
    → 1 ≤ p
    → 1 ≤ q
    → Cong p (u * q) 1
    → a < p * q
    → b < p * q
    → Cong p a b
    → Cong q a b
    → a ≡ b
Cong-product p q u {a} {b} big_p big_q inverse small_a small_b by_p by_q =
    let r = a % q in
    let rest : a % q ≡ b % q =
      Cong-unique (mod-lt a big_q) (mod-lt b big_q)
        (Cong-trans (Cong-mod a) (Cong-trans by_q (Cong-sym (Cong-mod b)))) in
    let split_a : a / q * q + r ≡ a = div-add-mod' a q in
    let split_b : b / q * q + r ≡ b = rw rest (div-add-mod' b q) in
    let same : Cong p (a / q * q + r) (b / q * q + r) = rw (split_a, split_b) by_p in
    let scaled : Cong p (a / q * q * u) (b / q * q * u) =
      Cong-mul (Cong-cancel r same) (Cong-refl u) in
    let back : (x : ℕ) → Cong p (x * q * u) x =
      λ x. rw (mul_right_comm x q u) (unit p q u x inverse) in
    let quotients : a / q ≡ b / q =
      Cong-unique ((div-lt_iff_lt-mul big_q).1 small_a) ((div-lt_iff_lt-mul big_q).1 small_b)
        (Cong-trans (Cong-sym (back (a / q))) (Cong-trans scaled (back (b / q)))) in
    sym split_a ∙ (ap (λ (t : ℕ). t * q + r) quotients ∙ split_b)
