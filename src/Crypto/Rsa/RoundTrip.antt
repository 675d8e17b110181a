-- ===== src/Crypto/Rsa/RoundTrip.antt =====
-- A block that a client encrypts is decrypted by the key pair.
use native.Mathlib.Nat.{mod-lt, mul_comm, pow-zero, pow-suc}
use la2go.Prelude.{
  ℕ, ◌+◌, ◌-◌, ◌*◌, ◌/◌, ◌%◌, ◌^◌, ◌≤◌, ◌<◌, ◌≡◌, sym, ◌∙◌, List, length, ok, some, arith,
}
use la2go.Bytes.{IsBytes}
use la2go.Crypto.Rsa.{
  PrivateKey, Precomputed, bit_len, set_bytes, big_bytes, pad_front, rsa_decrypt_no_padding,
  rsa_block,
}
use la2go.Crypto.Rsa.Numbers.{
  set_bytes-big_bytes, length-big_bytes, big_bytes-IsBytes, set_bytes-ext,
}
use la2go.Crypto.Rsa.Modular.{
  Cong, Cong-refl, Cong-trans, Cong-pow, Cong-mod_multiple, Cong-product, positive, pow_mul,
}
use la2go.Crypto.Rsa.Garner.{Fermat, Fermat-power, IsPrecomputed, private_power_lem}

-- The public exponent 65537 and the private one are inverse for both primes.
pub record IsPair (key : PrivateKey) (p q : ℕ) : Type 0 where
  pub jp : ℕ
  pub jq : ℕ
  pub inverse_p : 65537 * key.d ≡ 1 + jp * (p - 1)
  pub inverse_q : 65537 * key.d ≡ 1 + jq * (q - 1)

module _ (key : PrivateKey) (pre : Precomputed) (p q : ℕ) (k : IsPrecomputed key pre p q)
    (pair : IsPair key p q) where
  power_back :
      (r m j : ℕ)
      → Fermat r
      → 1 ≤ r
      → 65537 * key.d ≡ 1 + j * (r - 1)
      → Cong r (m ^ (65537 * key.d)) m
  power_back r m j f h e =
      let one : m ^ 1 ≡ m = pow-suc m 0 ∙ (let z = pow-zero m in grind arith) in
      rw e (Cong-trans (Fermat-power r m 1 j f h (omega arith)) (rw one (Cong-refl m)))

  -- A number below the modulus comes back.
  numbers_back : (m : ℕ) → m < p * q → (m ^ 65537 % (p * q)) ^ key.d % (p * q) ≡ m
  numbers_back m h =
      let room = positive p q k.big_p k.big_q in
      let by : (r : ℕ)
          → ((a : ℕ) → Cong r (a % (p * q)) a)
          → Cong r (m ^ (65537 * key.d)) m
          → Cong r ((m ^ 65537 % (p * q)) ^ key.d % (p * q)) m =
        λ r reduce back.
          Cong-trans (reduce _) (
            Cong-trans (Cong-pow key.d (reduce (m ^ 65537))) (rw (← pow_mul m 65537 key.d) back)) in
      Cong-product p q pre.qinv k.big_p k.big_q k.inverse (mod-lt _ room) h
        (by p (Cong-mod_multiple p q) (power_back p m pair.jp k.prime_p k.big_p pair.inverse_p))
        (by q (λ a. rw (mul_comm p q) (Cong-mod_multiple q p a))
          (power_back q m pair.jq k.prime_q k.big_q pair.inverse_q))

-- A block that is encrypted under the public exponent 65537 and the modulus of a key is decrypted to
-- the same bytes by the private key with its precomputed values, for a plaintext of the key's size in
-- whole bytes that is below the modulus, a modulus that fits this size, two primes (for which Fermat's
-- little theorem is assumed) whose product is the modulus, and a private exponent that is the inverse
-- of 65537 for both.
pub rsa_decrypt-rsa_block :
    (key : PrivateKey) (pre : Precomputed) (p q : ℕ) (modulus plaintext : List ℕ)
    → IsPrecomputed key pre p q
    → IsPair key p q
    → IsBytes plaintext
    → length plaintext ≡ bit_len key.n / 8
    → key.n ≤ 256 ^ (bit_len key.n / 8)
    → set_bytes modulus ≡ key.n
    → set_bytes plaintext < key.n
    → rsa_decrypt_no_padding
        (record key { precomputed = some pre })
        (rsa_block (bit_len key.n / 8) modulus plaintext)
      ≡ ok plaintext
unfolding rsa_decrypt_no_padding rsa_block
rsa_decrypt-rsa_block key pre p q modulus plaintext k pair isb len room same below =
    let size = bit_len key.n / 8 in
    let c = set_bytes plaintext ^ 65537 % key.n in
    let small : c < key.n = mod-lt _ (omega arith) in
    let fits : length (pad_front size (big_bytes c)) ≡ size =
      length-big_bytes size c (omega arith) in
    let back : c ^ key.d % key.n ≡ set_bytes plaintext =
      let m = set_bytes plaintext in
      rw k.product (numbers_back key pre p q k pair m (rw (← k.product) below)) in
    let again : pad_front size (big_bytes (set_bytes plaintext)) ≡ plaintext =
      set_bytes-ext _ plaintext (big_bytes-IsBytes size (set_bytes plaintext)) isb
        (length-big_bytes size (set_bytes plaintext) (omega arith) ∙ sym len)
        (set_bytes-big_bytes size (set_bytes plaintext)) in
    rw (same, fits, set_bytes-big_bytes size c, private_power_lem key pre p q c k, back, again)
      (ground arith)
