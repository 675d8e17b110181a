-- ===== src/Crypto/Rsa/Numbers.antt =====
-- Numbers and their bytes, the highest first.
use mathlib.Core.List.{reverse, reverse-append, reverse-reverse, reverse-cons}
use mathlib.Core.Path.{subst}
use native.Mathlib.Nat.{pow-zero, pow-suc}
use la2go.Prelude.{
  ℕ, zero, suc, ◌-◌, ◌/◌, ◌^◌, ◌≤◌, ◌<◌, ◌==◌, ◌≡◌, refl, sym, ap, ◌∙◌, inl, inr, List, [], ◌∷◌,
  ◌++◌, ltb, true, Bool-cases, length, length-append, length-replicate, replicate, arith,
}
use la2go.Bytes.{IsBytes, of_le}
use la2go.Bytes.Words.{le_bytes-of_le, of_le-lt}
use la2go.Crypto.Rsa.{low_bytes, big_bytes, set_bytes, pad_front}

of_le-append_zero : (xs ys : List ℕ) → of_le ys ≡ 0 → of_le (xs ++ ys) ≡ of_le xs
of_le-append_zero [] ys h = h
of_le-append_zero (x ∷ xs) ys h = rw (of_le-append_zero xs ys h) refl

of_le-reverse-replicate : (n : ℕ) → of_le (reverse (replicate n 0)) ≡ 0
of_le-reverse-replicate zero = refl
of_le-reverse-replicate (suc n) =
    rw (reverse-cons {A = ℕ} 0 (replicate n 0))
      (of_le-append_zero (reverse (replicate n 0)) (0 ∷ []) refl ∙ of_le-reverse-replicate n)

-- Zeros in front do not change the number.
set_bytes-pad_front :
    (size : ℕ) (bytes : List ℕ) → set_bytes (pad_front size bytes) ≡ set_bytes bytes
unfolding set_bytes pad_front
set_bytes-pad_front size bytes = elim (Bool-cases (ltb (length bytes) size)) [
  | inl e ↦
      rw (e, reverse-append (replicate (size - length bytes) 0) bytes)
        (of_le-append_zero (reverse bytes) _ (of_le-reverse-replicate (size - length bytes)))
  | inr e ↦ rw e refl
]

length-pad_front :
    (size : ℕ) (bytes : List ℕ) → length bytes ≤ size → length (pad_front size bytes) ≡ size
unfolding pad_front
length-pad_front size bytes h = elim (Bool-cases (ltb (length bytes) size)) [
  | inl e ↦ rw e (
      length-append (replicate (size - length bytes) 0) bytes
      ∙ ground (arith, length-replicate {A = ℕ} (size - length bytes) 0))
  | inr e ↦ rw e (ground arith)
]

of_le-low_bytes : (fuel n : ℕ) → n ≤ fuel → of_le (low_bytes fuel n) ≡ n
unfolding low_bytes
of_le-low_bytes zero n h = omega arith
of_le-low_bytes (suc fuel) n h = elim (Bool-cases (n == 0)) [
  | inl e ↦ rw e (ground arith)
  | inr e ↦ rw e (let ih = of_le-low_bytes fuel (n / 256) (ground arith) in rw ih (omega arith))
]

length-low_bytes : (fuel n k : ℕ) → n < 256 ^ k → length (low_bytes fuel n) ≤ k
unfolding low_bytes
length-low_bytes zero n k h = omega arith
length-low_bytes (suc fuel) n zero h =
    let e : (n == 0) ≡ true = (let one = pow-zero 256 in ground arith) in rw e (omega arith)
length-low_bytes (suc fuel) n (suc k) h = elim (Bool-cases (n == 0)) [
  | inl e ↦ rw e (omega arith)
  | inr e ↦
      rw e
        (let ih = length-low_bytes fuel (n / 256) k (omega (arith, pow-suc 256 k)) in omega arith)
]

low_bytes-IsBytes : (fuel n : ℕ) → IsBytes (low_bytes fuel n)
unfolding low_bytes
low_bytes-IsBytes zero n = tt
low_bytes-IsBytes (suc fuel) n = elim (Bool-cases (n == 0)) [
  | inl e ↦ rw e tt
  | inr e ↦ rw e (omega arith, low_bytes-IsBytes fuel (n / 256))
]

length-reverse : (xs : List ℕ) → length (reverse xs) ≡ length xs
length-reverse [] = refl
length-reverse (x ∷ xs) =
    ap length (reverse-cons x xs)
    ∙ (length-append (reverse xs) (x ∷ []) ∙ (let ih = length-reverse xs in omega arith))

append-IsBytes : (xs ys : List ℕ) → IsBytes xs → IsBytes ys → IsBytes (xs ++ ys)
append-IsBytes [] ys h g = g
append-IsBytes (x ∷ xs) ys (b, h) g = (b, append-IsBytes xs ys h g)

reverse-IsBytes : (xs : List ℕ) → IsBytes xs → IsBytes (reverse xs)
reverse-IsBytes [] h = h
reverse-IsBytes (x ∷ xs) (b, h) =
    rw (reverse-cons x xs) (append-IsBytes (reverse xs) (x ∷ []) (reverse-IsBytes xs h) (b, tt))

zeros-IsBytes : (n : ℕ) → IsBytes (replicate n 0)
zeros-IsBytes zero = tt
zeros-IsBytes (suc n) = (omega arith, zeros-IsBytes n)

-- A number as `size` bytes.
module _ (size n : ℕ) where
  pub set_bytes-big_bytes : set_bytes (pad_front size (big_bytes n)) ≡ n
  set_bytes-big_bytes =
      set_bytes-pad_front size (big_bytes n)
      ∙ unfold set_bytes big_bytes in
        (ap of_le (reverse-reverse (low_bytes n n)) ∙ of_le-low_bytes n n (omega arith))

  pub length-big_bytes : n < 256 ^ size → length (pad_front size (big_bytes n)) ≡ size
  unfolding big_bytes
  length-big_bytes h = length-pad_front size _ (
      let e = length-reverse (low_bytes n n) in
      let short = length-low_bytes n n size h in omega arith)

  pub big_bytes-IsBytes : IsBytes (pad_front size (big_bytes n))
  unfolding big_bytes pad_front
  big_bytes-IsBytes =
      let bytes = reverse (low_bytes n n) in
      let isb = reverse-IsBytes (low_bytes n n) (low_bytes-IsBytes n n) in
      elim (Bool-cases (ltb (length bytes) size)) [
        | inl e ↦ rw e (append-IsBytes _ bytes (zeros-IsBytes (size - length bytes)) isb)
        | inr e ↦ rw e isb
      ]

pub set_bytes-lt : (bytes : List ℕ) → IsBytes bytes → set_bytes bytes < 256 ^ length bytes
unfolding set_bytes
set_bytes-lt bytes h =
    let e = length-reverse bytes in
    subst (λ (k : ℕ). of_le (reverse bytes) < 256 ^ k) e
      (of_le-lt (reverse bytes) (reverse-IsBytes bytes h))

-- Bytes are determined by their length and their number.
pub set_bytes-ext :
    (xs ys : List ℕ)
    → IsBytes xs
    → IsBytes ys
    → length xs ≡ length ys
    → set_bytes xs ≡ set_bytes ys
    → xs ≡ ys
unfolding set_bytes
set_bytes-ext xs ys hx hy size same =
    let lx = le_bytes-of_le (reverse xs) (reverse-IsBytes xs hx) in
    let ly = le_bytes-of_le (reverse ys) (reverse-IsBytes ys hy) in
    let sizes : length (reverse xs) ≡ length (reverse ys) =
      length-reverse xs ∙ (size ∙ sym (length-reverse ys)) in
    let turned : reverse xs ≡ reverse ys = sym lx ∙ (rw (sizes, same) refl ∙ ly) in
    sym (reverse-reverse xs) ∙ (ap reverse turned ∙ reverse-reverse ys)
