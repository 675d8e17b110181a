-- ===== src/Crypto/Rsa/Loops.antt =====
-- The two loops of scrambling over the bytes of a buffer, each its own inverse.
use la2go.Prelude.{
  ℕ, zero, suc, ◌+◌, ◌-◌, ◌^◌, ◌≤◌, ◌<◌, ◌==◌, ◌≡◌, ◌⊎◌, refl, ap, ◌∙◌, inl, inr, bit_xor, List, [],
  ◌∷◌, Bool, false, ltb, leb, ◌&&◌, if◌then◌else◌, Bool-cases, length, arith,
}
use la2go.Prelude.Bits.{bit_xor-lt, bit_xor_cancel}
use la2go.Bytes.{IsByte, IsBytes}
use la2go.Crypto.Rsa.{byte_of, set_byte, xor_loop, swap_loop}

byte_of-set_byte :
    (i j v : ℕ) (bytes : List ℕ)
    → i < length bytes
    → byte_of j (set_byte i v bytes) ≡ (if i == j then v else byte_of j bytes)
unfolding byte_of set_byte
byte_of-set_byte i j v [] h = absurd (omega arith)
byte_of-set_byte zero zero v (b ∷ bytes) h = ground arith
byte_of-set_byte zero (suc j) v (b ∷ bytes) h = ground arith
byte_of-set_byte (suc i) zero v (b ∷ bytes) h = ground arith
byte_of-set_byte (suc i) (suc j) v (b ∷ bytes) h =
    ground (arith, byte_of-set_byte i j v bytes (omega arith))

length-set_byte : (i v : ℕ) (bytes : List ℕ) → length (set_byte i v bytes) ≡ length bytes
unfolding set_byte
length-set_byte i v [] = refl
length-set_byte zero v (b ∷ bytes) = refl
length-set_byte (suc i) v (b ∷ bytes) = ap suc (length-set_byte i v bytes)

-- Bytes of one length that agree everywhere are the same.
byte_of-ext :
    (xs ys : List ℕ)
    → length xs ≡ length ys
    → ((i : ℕ) → i < length xs → byte_of i xs ≡ byte_of i ys)
    → xs ≡ ys
unfolding byte_of
byte_of-ext [] [] e h = refl
byte_of-ext [] (y ∷ ys) e h = absurd (omega arith)
byte_of-ext (x ∷ xs) [] e h = absurd (omega arith)
byte_of-ext (x ∷ xs) (y ∷ ys) e h =
    let first : x ≡ y = h 0 (omega arith) in
    let rest = byte_of-ext xs ys (omega arith) (λ i below. h (suc i) (omega arith)) in cc

byte_of-lt : (i : ℕ) (bytes : List ℕ) → IsBytes bytes → byte_of i bytes < 2 ^ 8
unfolding byte_of
byte_of-lt i [] b = omega arith
byte_of-lt zero (x ∷ bytes) (b, bs) = b
byte_of-lt (suc i) (x ∷ bytes) (b, bs) = byte_of-lt i bytes bs

pub length-xor_loop :
    (n to from : ℕ) (bytes : List ℕ) → length (xor_loop n to from bytes) ≡ length bytes
unfolding xor_loop
length-xor_loop zero to from bytes = refl
length-xor_loop (suc n) to from bytes =
    length-xor_loop n (suc to) (suc from) _ ∙ length-set_byte to _ bytes

pub length-swap_loop : (n j k : ℕ) (bytes : List ℕ) → length (swap_loop n j k bytes) ≡ length bytes
unfolding swap_loop
length-swap_loop zero j k bytes = refl
length-swap_loop (suc n) j k bytes =
    length-swap_loop n (suc j) (suc k) _ ∙ (length-set_byte k _ _ ∙ length-set_byte j _ bytes)

-- The index is from `i` on, below `i + n`.
abbrev inside : ℕ → ℕ → ℕ → Bool
inside n i j = leb i j && ltb j (i + n)

abbrev pub Apart : ℕ → ℕ → ℕ → Type 0
Apart n i j = (i + n ≤ j) ⊎ (j + n ≤ i)

byte_of-xor_loop :
    (n to from j : ℕ) (bytes : List ℕ)
    → Apart n to from
    → to + n ≤ length bytes
    → byte_of j (xor_loop n to from bytes) ≡ (
        if inside n to j
        then bit_xor (byte_of j bytes) (byte_of (from + (j - to)) bytes)
        else byte_of j bytes)
unfolding xor_loop
byte_of-xor_loop zero to from j bytes apart room = ground arith
byte_of-xor_loop (suc n) to from j bytes apart room =
    let v = bit_xor (byte_of to bytes) (byte_of from bytes) in
    let bytes' = set_byte to v bytes in
    let ih =
      byte_of-xor_loop n (suc to) (suc from) j bytes' (ground arith)
        (omega (arith, length-set_byte to v bytes)) in
    let here = byte_of-set_byte to j v bytes (omega arith) in
    ih ∙ elim (Bool-cases (to == j)) [
      | inl e ↦
          (let same : to ≡ j = ground arith in
            let index : from + (j - to) ≡ from = omega arith in
            rw (here, index, ← same) (ground arith))
      | inr e ↦ elim (Bool-cases (inside n (suc to) j)) [
        | inl i ↦
            (let index : suc from + (j - suc to) ≡ from + (j - to) = ground arith in
              let there = byte_of-set_byte to (from + (j - to)) v bytes (omega arith) in
              rw (i, here, index, there) (ground arith))
        | inr i ↦ rw (i, here) (ground arith)
      ]
    ]

-- Mixing the same bytes in twice changes nothing.
pub xor_loop_twice :
    (n to from : ℕ) (bytes : List ℕ)
    → IsBytes bytes
    → Apart n to from
    → to + n ≤ length bytes
    → xor_loop n to from (xor_loop n to from bytes) ≡ bytes
xor_loop_twice n to from bytes isb apart room =
    let once = xor_loop n to from bytes in
    let size = length-xor_loop n to from bytes in
    byte_of-ext _ bytes (length-xor_loop n to from once ∙ size) λ j below.
      byte_of-xor_loop n to from j once apart (omega arith) ∙ elim (Bool-cases (inside n to j)) [
        | inl i ↦
            (let first = byte_of-xor_loop n to from j bytes apart room in
              let other = byte_of-xor_loop n to from (from + (j - to)) bytes apart room in
              let out : inside n to (from + (j - to)) ≡ false = ground arith in
              rw (i, first, other, i, out)
                (bit_xor_cancel 8 _ _ (byte_of-lt _ _ isb) (byte_of-lt _ _ isb)))
        | inr i ↦ rw (i, byte_of-xor_loop n to from j bytes apart room, i) refl
      ]

-- The two first indexes, and those outside.
swap_ends :
    (n j k i : ℕ) (bytes : List ℕ)
    → Apart (suc n) j k
    → inside n (suc j) i ≡ false
    → inside n (suc k) i ≡ false
    → (if k == i then byte_of j bytes else if j == i then byte_of k bytes else byte_of i bytes) ≡ (
        if inside (suc n) j i
        then byte_of (k + (i - j)) bytes
        else if inside (suc n) k i
        then byte_of (j + (i - k)) bytes
        else byte_of i bytes)
swap_ends n j k i bytes apart a b = elim (Bool-cases (j == i)) [
  | inl e ↦
      (let same : j ≡ i = ground arith in
        let index : k + (i - j) ≡ k = omega arith in rw (index, e) (ground arith))
  | inr e ↦ elim (Bool-cases (k == i)) [
    | inl e' ↦
        (let same : k ≡ i = ground arith in
          let index : j + (i - k) ≡ j = omega arith in rw (index, e') (ground arith))
    | inr e' ↦ ground arith
  ]
]

byte_of-swap_loop :
    (n j k i : ℕ) (bytes : List ℕ)
    → Apart n j k
    → j + n ≤ length bytes
    → k + n ≤ length bytes
    → byte_of i (swap_loop n j k bytes) ≡ (
        if inside n j i
        then byte_of (k + (i - j)) bytes
        else if inside n k i
        then byte_of (j + (i - k)) bytes
        else byte_of i bytes)
unfolding swap_loop
byte_of-swap_loop zero j k i bytes apart room room' = ground arith
byte_of-swap_loop (suc n) j k i bytes apart room room' =
    let half = set_byte j (byte_of k bytes) bytes in
    let swapped = set_byte k (byte_of j bytes) half in
    let size : length swapped ≡ length bytes =
      length-set_byte k _ half ∙ length-set_byte j _ bytes in
    let ih =
      byte_of-swap_loop n (suc j) (suc k) i swapped (ground arith) (omega arith) (omega arith) in
    let at : (x : ℕ)
        → byte_of x swapped ≡ (
            if k == x
            then byte_of j bytes
            else if j == x
            then byte_of k bytes
            else byte_of x bytes) =
      λ x.
        byte_of-set_byte k x _ half (omega (arith, length-set_byte j (byte_of k bytes) bytes))
        ∙ ap (λ (t : ℕ). if k == x then byte_of j bytes else t)
            (byte_of-set_byte j x _ bytes (omega arith)) in
    ih ∙ elim (Bool-cases (inside n (suc j) i)) [
      | inl a ↦
          (let index : suc k + (i - suc j) ≡ k + (i - j) = ground arith in
            rw (a, index, at (k + (i - j))) (ground arith))
      | inr a ↦ elim (Bool-cases (inside n (suc k) i)) [
        | inl b ↦
            (let index : suc j + (i - suc k) ≡ j + (i - k) = ground arith in
              rw (a, b, index, at (j + (i - k))) (ground arith))
        | inr b ↦ rw (a, b, at i) (swap_ends n j k i bytes apart a b)
      ]
    ]

pub swap_loop_twice :
    (n j k : ℕ) (bytes : List ℕ)
    → Apart n j k
    → j + n ≤ length bytes
    → k + n ≤ length bytes
    → swap_loop n j k (swap_loop n j k bytes) ≡ bytes
swap_loop_twice n j k bytes apart room room' =
    let once = swap_loop n j k bytes in
    let size = length-swap_loop n j k bytes in
    let at = λ (x : ℕ). byte_of-swap_loop n j k x bytes apart room room' in
    byte_of-ext _ bytes (length-swap_loop n j k once ∙ size) λ i below.
      byte_of-swap_loop n j k i once apart (omega arith) (omega arith)
      ∙ elim (Bool-cases (inside n j i)) [
        | inl a ↦
            (let index : j + (k + (i - j) - k) ≡ i = ground arith in
              rw (a, at (k + (i - j)), index) (ground arith))
        | inr a ↦ elim (Bool-cases (inside n k i)) [
          | inl b ↦
              (let index : k + (j + (i - k) - j) ≡ i = ground arith in
                rw (a, b, at (j + (i - k)), index) (ground arith))
          | inr b ↦ rw (a, b, at i) (ground arith)
        ]
      ]

set_byte-IsBytes :
    (i v : ℕ) (bytes : List ℕ) → IsByte v → IsBytes bytes → IsBytes (set_byte i v bytes)
unfolding set_byte
set_byte-IsBytes i v [] h isb = isb
set_byte-IsBytes zero v (b ∷ bytes) h (ib, isb) = (h, isb)
set_byte-IsBytes (suc i) v (b ∷ bytes) h (ib, isb) = (ib, set_byte-IsBytes i v bytes h isb)

pub xor_loop-IsBytes :
    (n to from : ℕ) (bytes : List ℕ) → IsBytes bytes → IsBytes (xor_loop n to from bytes)
unfolding xor_loop
xor_loop-IsBytes zero to from bytes isb = isb
xor_loop-IsBytes (suc n) to from bytes isb = xor_loop-IsBytes n (suc to) (suc from) _ (
    set_byte-IsBytes to _ bytes
      (bit_xor-lt 8 _ _ (byte_of-lt to bytes isb) (byte_of-lt from bytes isb)) isb)

pub swap_loop-IsBytes :
    (n j k : ℕ) (bytes : List ℕ) → IsBytes bytes → IsBytes (swap_loop n j k bytes)
unfolding swap_loop
swap_loop-IsBytes zero j k bytes isb = isb
swap_loop-IsBytes (suc n) j k bytes isb = swap_loop-IsBytes n (suc j) (suc k) _ (
    set_byte-IsBytes k _ _ (byte_of-lt j bytes isb)
      (set_byte-IsBytes j _ bytes (byte_of-lt k bytes isb) isb))
