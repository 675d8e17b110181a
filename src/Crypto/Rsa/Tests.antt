-- ===== src/Crypto/Rsa/Tests.antt =====
-- Runs of the key operations, and an instance of each law.
use mathlib.Core.Path.{subst}
use native.Mathlib.Nat.{mod-lt}
use la2go.Prelude.{
  ℕ, zero, suc, ◌/◌, ◌%◌, ◌^◌, ◌≤◌, ◌<◌, ◌≡◌, refl, [], ◌∷◌, some, none, ok, arith, replicate, true,
  ◌>>=◌, inl, inr, Bool, ◌&&◌, Bool-cases, ◌==◌,
}
use la2go.Bytes.{IsBytes}
use la2go.Crypto.Rsa.{
  PrivateKey, Precomputed, bit_len, set_bytes, rsa_decrypt_no_padding, rsa_block, bits,
  private_power, garner, pad_front, big_bytes, low_bytes, scramble_modulus, unscramble_modulus,
}
use la2go.Crypto.Rsa.Scrambling.{unscramble-scramble_modulus}
use la2go.Crypto.Rsa.Modular.{Cong, Cong-trans, Cong-sym, Cong-pow, Cong-mod}
use la2go.Crypto.Rsa.Garner.{Fermat, IsPrecomputed, rsa_decrypt_precomputed}
use la2go.Crypto.Rsa.RoundTrip.{IsPair, rsa_decrypt-rsa_block}

-- The power of every remainder below `k` is the remainder.
abbrev powers_below : ℕ → ℕ → Bool
powers_below p zero = true
powers_below p (suc k) = (k ^ p % p == k) && powers_below p k

below_one : (p : ℕ) (k r : ℕ) → powers_below p k ≡ true → r < k → r ^ p % p ≡ r
below_one p zero r h g = absurd (omega arith)
below_one p (suc k) r h g = elim (Bool-cases (r == k)) [
  | inl e ↦
      (let same : r ≡ k = ground arith in
        let now : (k ^ p % p == k) ≡ true = ground arith in
        let value : k ^ p % p ≡ k = ground arith in rw same value)
  | inr e ↦
      (let rest : powers_below p k ≡ true = ground arith in below_one p k r rest (ground arith))
]

Fermat-small : (p : ℕ) → 1 ≤ p → powers_below p p ≡ true → Fermat p
Fermat-small p h all c =
    let reduced : Cong p ((c % p) ^ p) (c ^ p) = Cong-pow p (Cong-mod c) in
    let once : Cong p (c % p) ((c % p) ^ p) =
      subst (λ (r : ℕ). Cong p r ((c % p) ^ p)) (below_one p p (c % p) all (mod-lt c h))
        (Cong-mod ((c % p) ^ p)) in
    Cong-trans (Cong-sym reduced) (Cong-trans (Cong-sym once) (Cong-mod c))

Fermat-13 : Fermat 13
Fermat-13 = Fermat-small 13 (omega arith) refl

Fermat-17 : Fermat 17
Fermat-17 = Fermat-small 17 (omega arith) refl

same-IsBytes : (n : ℕ) → IsBytes (replicate n 0xA7)
same-IsBytes zero = tt
same-IsBytes (suc n) = (omega arith, same-IsBytes n)

abbrev small_pre : Precomputed
small_pre = record { dp = 5; dq = 1; qinv = 10 }

abbrev small_key : PrivateKey
small_key = record { n = 221; d = 17; primes = 13 ∷ 17 ∷ []; precomputed = none }

small_key-IsPrecomputed : IsPrecomputed small_key small_pre 13 17
small_key-IsPrecomputed = record {
  primes = refl;
  product = refl;
  big_p = omega arith;
  big_q = omega arith;
  prime_p = Fermat-13;
  prime_q = Fermat-17;
  dp_pos = omega arith;
  dq_pos = omega arith;
  kp = 1;
  kq = 1;
  dp_d = refl;
  dq_d = refl;
  inverse = record { left = 0; right = 13; equal = refl };
}

small_key-IsPair : IsPair small_key 13 17
small_key-IsPair = record { jp = 92844; jq = 69633; inverse_p = refl; inverse_q = refl }

rsa_decrypt_precomputed_example :
    rsa_decrypt_no_padding (record small_key { precomputed = some small_pre }) (200 ∷ [])
    ≡ rsa_decrypt_no_padding (record small_key { precomputed = none }) (200 ∷ [])
rsa_decrypt_precomputed_example =
    rsa_decrypt_precomputed small_key small_pre 13 17 (200 ∷ []) small_key-IsPrecomputed

bit_len_221 : bit_len 221 ≡ 8
unfolding bit_len bits
bit_len_221 = refl

decrypt_200 :
    rsa_decrypt_no_padding (record small_key { precomputed = some small_pre }) (200 ∷ [])
    ≡ ok (200 ^ 17 % 221 ∷ [])
unfolding rsa_decrypt_no_padding bit_len bits private_power garner pad_front big_bytes low_bytes
    set_bytes
decrypt_200 = refl

rsa_decrypt-rsa_block_example :
    rsa_decrypt_no_padding
      (record small_key { precomputed = some small_pre })
      (rsa_block (bit_len 221 / 8) (221 ∷ []) (42 ∷ []))
    ≡ ok (42 ∷ [])
rsa_decrypt-rsa_block_example =
    rsa_decrypt-rsa_block small_key small_pre 13 17 (221 ∷ []) (42 ∷ []) small_key-IsPrecomputed
      small_key-IsPair (omega arith, tt) (rw bit_len_221 refl) (rw bit_len_221 (omega arith))
      (unfold set_bytes in refl) (unfold set_bytes in omega arith)

unscramble-scramble_modulus_example :
    ((scramble_modulus (replicate 128 0xA7) >>= unscramble_modulus) ≡ ok (replicate 128 0xA7))
    × ((unscramble_modulus (replicate 128 0xA7) >>= scramble_modulus) ≡ ok (replicate 128 0xA7))
unscramble-scramble_modulus_example =
    unscramble-scramble_modulus (replicate 128 0xA7) (same-IsBytes 128) refl
