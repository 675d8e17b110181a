-- ===== src/Crypto/Rsa/Scrambling.antt =====
-- Scrambling and unscrambling undo each other: each step is its own inverse.
use la2go.Prelude.{
  ℕ, ◌+◌, ◌≤◌, ◌==◌, ◌≡◌, refl, ◌∙◌, inl, inr, List, true, length, ok, arith, ◌>>=◌,
}
use la2go.Bytes.{IsBytes}
use la2go.Crypto.Rsa.{xor_loop, swap_loop, scramble_modulus, unscramble_modulus}
use la2go.Crypto.Rsa.Loops.{
  Apart, length-xor_loop, length-swap_loop, xor_loop_twice, swap_loop_twice, xor_loop-IsBytes,
  swap_loop-IsBytes,
}

abbrev Modulus : List ℕ → Type 0
Modulus m = IsBytes m × (length m ≡ 128)

module _ (m : List ℕ) (h : Modulus m) where
  xor-Modulus : (n to from : ℕ) → Modulus (xor_loop n to from m)
  xor-Modulus n to from = (xor_loop-IsBytes n to from m h.0, length-xor_loop n to from m ∙ h.1)

  swap-Modulus : (n j k : ℕ) → Modulus (swap_loop n j k m)
  swap-Modulus n j k = (swap_loop-IsBytes n j k m h.0, length-swap_loop n j k m ∙ h.1)

  xor_twice :
      (n to from : ℕ)
      → Apart n to from
      → to + n ≤ 128
      → xor_loop n to from (xor_loop n to from m) ≡ m
  xor_twice n to from apart room = xor_loop_twice n to from m h.0 apart (omega (arith, h.1))

  swap_twice : swap_loop 4 0 77 (swap_loop 4 0 77 m) ≡ m
  swap_twice =
      swap_loop_twice 4 0 77 m (inl (omega arith)) (omega (arith, h.1)) (omega (arith, h.1))

  scramble_ok :
      scramble_modulus m
      ≡ ok (xor_loop 64 64 0 (xor_loop 4 13 52 (xor_loop 64 0 64 (swap_loop 4 0 77 m))))
  unfolding scramble_modulus
  scramble_ok = let e : (length m == 128) ≡ true = ground (arith, h.1) in rw e refl

  unscramble_ok :
      unscramble_modulus m
      ≡ ok (swap_loop 4 0 77 (xor_loop 64 0 64 (xor_loop 4 13 52 (xor_loop 64 64 0 m))))
  unfolding unscramble_modulus
  unscramble_ok = let e : (length m == 128) ≡ true = ground (arith, h.1) in rw e refl

-- For 128 bytes, unscrambling restores a modulus that was scrambled, and scrambling restores bytes
-- that were unscrambled; neither panics.
pub unscramble-scramble_modulus :
    (m : List ℕ)
    → IsBytes m
    → length m ≡ 128
    → ((scramble_modulus m >>= unscramble_modulus) ≡ ok m)
      × ((unscramble_modulus m >>= scramble_modulus) ≡ ok m)
unscramble-scramble_modulus m isb size =
    let h : Modulus m = (isb, size) in
    let a = swap_loop 4 0 77 m in
    let ha = swap-Modulus m h 4 0 77 in
    let b = xor_loop 64 0 64 a in
    let hb = xor-Modulus a ha 64 0 64 in
    let c = xor_loop 4 13 52 b in
    let hc = xor-Modulus b hb 4 13 52 in
    let hd = xor-Modulus c hc 64 64 0 in
    let r = xor_loop 64 64 0 m in
    let hr = xor-Modulus m h 64 64 0 in
    let s = xor_loop 4 13 52 r in
    let hs = xor-Modulus r hr 4 13 52 in
    let t = xor_loop 64 0 64 s in
    let ht = xor-Modulus s hs 64 0 64 in
    let hu = swap-Modulus t ht 4 0 77 in
    (
      rw
          (
            scramble_ok m h,
            unscramble_ok _ hd,
            xor_twice c hc 64 64 0 (inr (omega arith)) (omega arith),
            xor_twice b hb 4 13 52 (inl (omega arith)) (omega arith),
            xor_twice a ha 64 0 64 (inl (omega arith)) (omega arith),
            swap_twice m h,
          )
          refl,
      rw
          (
            unscramble_ok m h,
            scramble_ok _ hu,
            swap_twice t ht,
            xor_twice s hs 64 0 64 (inl (omega arith)) (omega arith),
            xor_twice r hr 4 13 52 (inl (omega arith)) (omega arith),
            xor_twice m h 64 64 0 (inr (omega arith)) (omega arith),
          )
          refl,
    )
