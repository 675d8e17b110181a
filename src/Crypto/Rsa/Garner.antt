-- ===== src/Crypto/Rsa/Garner.antt =====
-- The private operation by the Chinese remainder theorem is the power modulo the product.
use native.Mathlib.Nat.{mul-le-mul_right, pow-suc, div-add-mod, mod-lt, mul_comm, add-mul}
use la2go.Prelude.{
  ℕ, zero, suc, ◌+◌, ◌-◌, ◌*◌, ◌/◌, ◌%◌, ◌^◌, ◌≤◌, ◌<◌, ◌≡◌, refl, ap, ◌∙◌, inl, inr, leb,
  Bool-cases, List, [], ◌∷◌, some, none, arith, if◌then◌else◌,
}
use la2go.Prelude.Int.{ℤ, pos, negsuc, sub_ℕ, times_ℤ, word}
use la2go.Crypto.Rsa.{
  rsa_decrypt_no_padding, set_bytes, Precomputed, PrivateKey, garner, private_power,
}
use la2go.Crypto.Rsa.Modular.{
  Cong, Cong-refl, Cong-sym, Cong-trans, Cong-add, Cong-mul, Cong-mod, Cong-mod_multiple,
  Cong-multiple, Cong-product, unit, positive, pow_add,
}

-- Every number is its own p-th power modulo p, as for a prime p.
abbrev pub Fermat : ℕ → Type 0
Fermat p = (c : ℕ) → Cong p (c ^ p) c

-- Exponents that differ by a multiple of p - 1 give the same power.
pub Fermat-power : (p c e k : ℕ) → Fermat p → 1 ≤ p → 1 ≤ e → Cong p (c ^ (e + k * (p - 1))) (c ^ e)
Fermat-power p c e zero f h g =
    let same : e + 0 * (p - 1) ≡ e = omega arith in rw same (Cong-refl _)
Fermat-power p c e (suc k) f h g =
    let a = e + k * (p - 1) - 1 in
    let split : e + suc k * (p - 1) ≡ a + p = grind arith in
    let back : suc a ≡ e + k * (p - 1) = omega arith in
    let power : c ^ (a + p) ≡ c ^ a * c ^ p = pow_add c a p in
    rw (split, power)
      (Cong-trans (Cong-mul (Cong-refl (c ^ a)) (f c))
        (rw (← pow-suc c a, back) (Fermat-power p c e k f h g)))

Cong-behind : {p : ℕ} (a b c : ℕ) → Cong p (a + b) 0 → Cong p (a + (b + c)) c
Cong-behind a b c h =
    let e = h.equal in record { left = h.left; right = h.right; equal = omega arith }

word-lt : (p : ℕ) (z : ℤ) → 1 ≤ p → word p z < p
word-lt p (pos n) h = mod-lt n h
word-lt p (negsuc n) h = omega arith

word_negative : (p x : ℕ) → 1 ≤ p → Cong p (word p (sub_ℕ 0 x) + x) 0
word_negative p zero h = record { left = 0; right = 0; equal = ground arith }
word_negative p (suc y) h =
    let e = div-add-mod y p in
    let small = mod-lt y {m = p} h in
    let value : word p (sub_ℕ 0 (suc y)) ≡ p - 1 - y % p = ground arith in
    record { left = 0; right = 1 + y / p; equal = rw value (grind arith) }

-- What Garner's formula takes as the quotient.
word-times_ℤ :
    (p m1 m2 qinv : ℕ)
    → 1 ≤ p
    → Cong p (word p (times_ℤ (sub_ℕ m1 m2) qinv) + m2 * qinv) (m1 * qinv)
word-times_ℤ p m1 m2 qinv h = elim (Bool-cases (leb m2 m1)) [
  | inl e ↦
      (let d = m1 - m2 in
        let split : m1 ≡ d + m2 = ground arith in
        let spread : m1 * qinv ≡ d * qinv + m2 * qinv = grind arith in
        rw (e, spread) (Cong-add (Cong-mod (d * qinv)) (Cong-refl (m2 * qinv))))
  | inr e ↦
      (let d = m2 - m1 - 1 in
        let split : m2 ≡ suc d + m1 = ground arith in
        let spread : m2 * qinv ≡ suc d * qinv + m1 * qinv =
          ap (λ (t : ℕ). t * qinv) split ∙ add-mul (suc d) m1 qinv in
        rw (e, if◌then◌else◌, spread)
          (Cong-behind _ _ (m1 * qinv) (word_negative p (suc d * qinv) h)))
]

product_bound : {p q a b : ℕ} → a < p → b < q → a * q + b < p * q
product_bound {p} {q} {a} {b} h g =
    let step : suc a * q ≤ p * q = mul-le-mul_right q h in grind arith

-- The documented properties of a key: two primes, whose product is the modulus, exponents that are
-- the private exponent less multiples of p - 1 and q - 1, and the inverse of q modulo p.
pub record IsPrecomputed (key : PrivateKey) (pre : Precomputed) (p q : ℕ) : Type 0 where
  pub primes : key.primes ≡ (p ∷ q ∷ [])
  pub product : key.n ≡ p * q
  pub big_p : 1 ≤ p
  pub big_q : 1 ≤ q
  pub prime_p : Fermat p
  pub prime_q : Fermat q
  pub dp_pos : 1 ≤ pre.dp
  pub dq_pos : 1 ≤ pre.dq
  pub kp : ℕ
  pub kq : ℕ
  pub dp_d : key.d ≡ pre.dp + kp * (p - 1)
  pub dq_d : key.d ≡ pre.dq + kq * (q - 1)
  pub inverse : Cong p (pre.qinv * q) 1

module _ (key : PrivateKey) (pre : Precomputed) (p q c : ℕ) (k : IsPrecomputed key pre p q) where
  quotient : ℕ
  quotient = word p (times_ℤ (sub_ℕ (c ^ pre.dp % p) (c ^ pre.dq % q)) pre.qinv)

  quotient-lt : quotient < p
  unfolding quotient
  quotient-lt = word-lt p _ k.big_p

  -- Modulo q the power is what the formula adds.
  remainder-Cong : Cong q (c ^ key.d % (p * q)) (c ^ pre.dq % q)
  remainder-Cong =
      let whole : Cong q (c ^ key.d % (p * q)) (c ^ key.d) =
        rw (mul_comm p q) (Cong-mod_multiple q p (c ^ key.d)) in
      let short : Cong q (c ^ key.d) (c ^ pre.dq) =
        rw k.dq_d (Fermat-power q c pre.dq k.kq k.prime_q k.big_q k.dq_pos) in
      Cong-trans whole (Cong-trans short (Cong-sym (Cong-mod _)))

  -- Modulo p both sides are the power by the first exponent.
  quotient-Cong : Cong p (quotient * q + c ^ pre.dq % q) (c ^ key.d)
  unfolding quotient
  quotient-Cong =
      let m1 = c ^ pre.dp % p in
      let m2 = c ^ pre.dq % q in
      let scaled = Cong-mul (word-times_ℤ p m1 m2 pre.qinv k.big_p) (Cong-refl q) in
      let short : Cong p (c ^ pre.dp) (c ^ key.d) =
        rw k.dp_d (Cong-sym (Fermat-power p c pre.dp k.kp k.prime_p k.big_p k.dp_pos)) in
      let left : Cong p (quotient * q + m2) (quotient * q + m2 * pre.qinv * q) =
        Cong-add (Cong-refl (quotient * q)) (Cong-sym (unit p q pre.qinv m2 k.inverse)) in
      let middle : Cong p (quotient * q + m2 * pre.qinv * q) (m1 * pre.qinv * q) =
        rw (← add-mul quotient (m2 * pre.qinv) q) scaled in
      Cong-trans left (
        Cong-trans middle
          (Cong-trans (unit p q pre.qinv m1 k.inverse) (Cong-trans (Cong-mod _) short)))

  -- Garner's formula gives the power by the private exponent, modulo the modulus.
  garner_lem : garner p q pre.qinv (c ^ pre.dp % p) (c ^ pre.dq % q) ≡ c ^ key.d % key.n
  unfolding garner quotient
  garner_lem =
      let m2 = c ^ pre.dq % q in
      let by_q : Cong q (quotient * q + m2) (c ^ key.d % (p * q)) =
        Cong-trans (Cong-multiple quotient m2) (Cong-sym remainder-Cong) in
      let by_p : Cong p (quotient * q + m2) (c ^ key.d % (p * q)) =
        Cong-trans quotient-Cong (Cong-sym (Cong-mod_multiple p q _)) in
      let below : quotient * q + m2 < p * q =
        (let room = quotient-lt in
          let small = mod-lt (c ^ pre.dq) k.big_q in product_bound room small) in
      rw k.product (
        Cong-product p q pre.qinv k.big_p k.big_q k.inverse below
          (mod-lt (c ^ key.d) (positive p q k.big_p k.big_q)) by_p by_q)

-- The private operation gives the same with the values that were precomputed as without them: the
-- power by the private exponent, modulo the modulus.
pub private_power_lem :
    (key : PrivateKey) (pre : Precomputed) (p q c : ℕ)
    → IsPrecomputed key pre p q
    → private_power (record key { precomputed = some pre }) c ≡ c ^ key.d % key.n
unfolding private_power
private_power_lem key pre p q c k = rw (k.primes, garner_lem key pre p q c k) refl

-- Decryption by Garner's formula and by the plain power give the same result, the error for a block
-- of the wrong size included, for a key whose precomputed values are those of two primes (for which
-- Fermat's little theorem is assumed) whose product is the modulus.
pub rsa_decrypt_precomputed :
    (key : PrivateKey) (pre : Precomputed) (p q : ℕ) (ciphertext : List ℕ)
    → IsPrecomputed key pre p q
    → rsa_decrypt_no_padding (record key { precomputed = some pre }) ciphertext
      ≡ rsa_decrypt_no_padding (record key { precomputed = none }) ciphertext
unfolding rsa_decrypt_no_padding
rsa_decrypt_precomputed key pre p q ciphertext k =
    rw (private_power_lem key pre p q (set_bytes ciphertext) k) (unfold private_power in refl)
