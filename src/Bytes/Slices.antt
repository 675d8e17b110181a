-- ===== src/Bytes/Slices.antt =====
-- Slices of a buffer before and after a write into it.

use la2go.Prelude.{
  ℕ, zero, suc, ◌+◌, ◌≤◌, ◌≡◌, refl, ap, List, [], ◌∷◌, ◌++◌, arith, length, take, drop,
  length-append, length-take, length-drop, take-length-append, drop-length-append, take-append-drop,
}
use la2go.Bytes.{IsBytes, slice, overwrite}

pub length-slice : (i k : ℕ) (bytes : List ℕ) → i + k ≤ length bytes → length (slice i k bytes) ≡ k
unfolding slice
length-slice i k bytes h = omega (arith, length-take k (drop i bytes), length-drop i bytes)

pub length-overwrite :
    (i : ℕ) (bs bytes : List ℕ)
    → i + length bs ≤ length bytes
    → length (overwrite i bs bytes) ≡ length bytes
unfolding overwrite
length-overwrite zero bs bytes h =
    omega (arith, length-append bs (drop (length bs) bytes), length-drop (length bs) bytes)
length-overwrite (suc i) bs [] h = refl
length-overwrite (suc i) bs (x ∷ bytes) h = ap suc (length-overwrite i bs bytes (omega arith))

-- The bytes written are the bytes read back.
pub slice-overwrite :
    (i : ℕ) (bs bytes : List ℕ)
    → i + length bs ≤ length bytes
    → slice i (length bs) (overwrite i bs bytes) ≡ bs
unfolding slice overwrite
slice-overwrite zero bs bytes h = take-length-append bs (drop (length bs) bytes)
slice-overwrite (suc i) bs [] h = absurd (omega arith)
slice-overwrite (suc i) bs (x ∷ bytes) h = slice-overwrite i bs bytes (omega arith)

-- A write in front of a slice.
drop-overwrite_front :
    (j : ℕ) (bs bytes : List ℕ)
    → length bs ≤ j
    → length bs ≤ length bytes
    → drop j (bs ++ drop (length bs) bytes) ≡ drop j bytes
drop-overwrite_front j [] bytes h g = refl
drop-overwrite_front zero (b ∷ bs) bytes h g = absurd (omega arith)
drop-overwrite_front (suc j) (b ∷ bs) [] h g = absurd (omega arith)
drop-overwrite_front (suc j) (b ∷ bs) (x ∷ bytes) h g =
    drop-overwrite_front j bs bytes (omega arith) (omega arith)

pub slice-overwrite_after :
    (j k i : ℕ) (bs bytes : List ℕ)
    → i + length bs ≤ length bytes
    → i + length bs ≤ j
    → slice j k (overwrite i bs bytes) ≡ slice j k bytes
unfolding slice overwrite
slice-overwrite_after j k zero bs bytes h g =
    ap (take k) (drop-overwrite_front j bs bytes (omega arith) (omega arith))
slice-overwrite_after zero k (suc i) bs bytes h g = absurd (omega arith)
slice-overwrite_after (suc j) k (suc i) bs [] h g = refl
slice-overwrite_after (suc j) k (suc i) bs (x ∷ bytes) h g =
    slice-overwrite_after j k i bs bytes (omega arith) (omega arith)

pub slice-overwrite_before :
    (j k i : ℕ) (bs bytes : List ℕ) → j + k ≤ i → slice j k (overwrite i bs bytes) ≡ slice j k bytes
unfolding slice overwrite
slice-overwrite_before zero zero i bs bytes g = refl
slice-overwrite_before zero (suc k) zero bs bytes g = absurd (omega arith)
slice-overwrite_before zero (suc k) (suc i) bs [] g = refl
slice-overwrite_before zero (suc k) (suc i) bs (x ∷ bytes) g =
    ap (◌∷◌ x) (slice-overwrite_before zero k i bs bytes (omega arith))
slice-overwrite_before (suc j) k zero bs bytes g = absurd (omega arith)
slice-overwrite_before (suc j) k (suc i) bs [] g = refl
slice-overwrite_before (suc j) k (suc i) bs (x ∷ bytes) g =
    slice-overwrite_before j k i bs bytes (omega arith)

-- Writing back what was there changes nothing.
pub overwrite-slice :
    (i k : ℕ) (bytes : List ℕ) → i + k ≤ length bytes → overwrite i (slice i k bytes) bytes ≡ bytes
unfolding slice overwrite
overwrite-slice zero k bytes h =
    let e : length (take k bytes) ≡ k = omega (arith, length-take k bytes) in
    rw e (take-append-drop k bytes)
overwrite-slice (suc i) k [] h = absurd (omega arith)
overwrite-slice (suc i) k (x ∷ bytes) h = ap (◌∷◌ x) (overwrite-slice i k bytes (omega arith))

-- The later of two writes to one place wins.
pub overwrite-overwrite :
    (i : ℕ) (bs cs bytes : List ℕ)
    → length bs ≡ length cs
    → i + length cs ≤ length bytes
    → overwrite i bs (overwrite i cs bytes) ≡ overwrite i bs bytes
unfolding overwrite
overwrite-overwrite zero bs cs bytes e h =
    rw e (ap (◌++◌ bs) (drop-length-append cs (drop (length cs) bytes)))
overwrite-overwrite (suc i) bs cs [] e h = refl
overwrite-overwrite (suc i) bs cs (x ∷ bytes) e h =
    ap (◌∷◌ x) (overwrite-overwrite i bs cs bytes e (omega arith))

-- Writes to disjoint places commute.
pub overwrite_comm :
    (i j : ℕ) (bs cs bytes : List ℕ)
    → i + length bs ≤ j
    → j + length cs ≤ length bytes
    → overwrite j cs (overwrite i bs bytes) ≡ overwrite i bs (overwrite j cs bytes)
unfolding overwrite
overwrite_comm zero j [] cs bytes g h = refl
overwrite_comm zero zero (b ∷ bs) cs bytes g h = absurd (omega arith)
overwrite_comm zero (suc j) (b ∷ bs) cs [] g h = absurd (omega arith)
overwrite_comm zero (suc j) (b ∷ bs) cs (x ∷ bytes) g h =
    ap (◌∷◌ b) (overwrite_comm zero j bs cs bytes (omega arith) (omega arith))
overwrite_comm (suc i) zero bs cs bytes g h = absurd (omega arith)
overwrite_comm (suc i) (suc j) bs cs [] g h = refl
overwrite_comm (suc i) (suc j) bs cs (x ∷ bytes) g h =
    ap (◌∷◌ x) (overwrite_comm i j bs cs bytes (omega arith) (omega arith))

take-nil : (k : ℕ) → take {A = ℕ} k [] ≡ []
take-nil zero = refl
take-nil (suc k) = refl

drop-nil : (k : ℕ) → drop {A = ℕ} k [] ≡ []
drop-nil zero = refl
drop-nil (suc k) = refl

pub overwrite-IsBytes :
    (i : ℕ) (bs bytes : List ℕ) → IsBytes bs → IsBytes bytes → IsBytes (overwrite i bs bytes)
unfolding overwrite
overwrite-IsBytes zero [] bytes hb h = h
overwrite-IsBytes zero (b ∷ bs) [] hb h =
    (hb.0, rw (← drop-nil (length bs)) (overwrite-IsBytes zero bs [] hb.1 tt))
overwrite-IsBytes zero (b ∷ bs) (x ∷ bytes) hb h = (hb.0, overwrite-IsBytes zero bs bytes hb.1 h.1)
overwrite-IsBytes (suc i) bs [] hb h = tt
overwrite-IsBytes (suc i) bs (x ∷ bytes) hb h = (h.0, overwrite-IsBytes i bs bytes hb h.1)

pub slice-IsBytes : (i k : ℕ) (bytes : List ℕ) → IsBytes bytes → IsBytes (slice i k bytes)
unfolding slice
slice-IsBytes zero zero bytes h = tt
slice-IsBytes zero (suc k) [] h = tt
slice-IsBytes zero (suc k) (x ∷ bytes) h = (h.0, slice-IsBytes zero k bytes h.1)
slice-IsBytes (suc i) k [] h = rw (take-nil k) tt
slice-IsBytes (suc i) k (x ∷ bytes) h = slice-IsBytes i k bytes h.1

pub slice-append :
    (pre bs rest : List ℕ) → slice (length pre) (length bs) (pre ++ (bs ++ rest)) ≡ bs
unfolding slice
slice-append pre bs rest = rw (drop-length-append pre (bs ++ rest)) (take-length-append bs rest)
