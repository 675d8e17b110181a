-- ===== src/Bytes/Windows.antt =====
-- A window of a buffer: reading and writing inside it is reading and writing in the buffer.
use la2go.Prelude.{
  ℕ, zero, suc, ◌+◌, ◌≤◌, ◌≡◌, refl, ap, ◌∙◌, List, [], ◌∷◌, ◌++◌, arith, length, take, drop,
}
use la2go.Bytes.{slice, overwrite, word_at, of_le}

take-drop-take :
    {A : Type 0} (i j k : ℕ) (xs : List A)
    → i + j ≤ k
    → take j (drop i (take k xs)) ≡ take j (drop i xs)
take-drop-take zero zero k xs h = refl
take-drop-take zero (suc j) zero xs h = absurd (omega arith)
take-drop-take zero (suc j) (suc k) [] h = refl
take-drop-take zero (suc j) (suc k) (x ∷ xs) h =
    ap (◌∷◌ x) (take-drop-take zero j k xs (omega arith))
take-drop-take (suc i) j zero xs h = absurd (omega arith)
take-drop-take (suc i) j (suc k) [] h = refl
take-drop-take (suc i) j (suc k) (x ∷ xs) h = take-drop-take i j k xs (omega arith)

drop-nil : {A : Type 0} (i : ℕ) → drop {A = A} i [] ≡ []
drop-nil zero = refl
drop-nil (suc i) = refl

drop-drop : {A : Type 0} (i o p : ℕ) (xs : List A) → p ≡ o + i → drop i (drop o xs) ≡ drop p xs
drop-drop i zero p xs e = let same : p ≡ i = omega arith in rw same refl
drop-drop i (suc o) p [] e = rw (drop-nil i, drop-nil p) refl
drop-drop i (suc o) p (x ∷ xs) e =
    let more : p ≡ suc (o + i) = omega arith in rw more (drop-drop i o (o + i) xs refl)

pub slice-slice :
    (o k i j : ℕ) (bytes : List ℕ) → i + j ≤ k → slice i j (slice o k bytes) ≡ slice (o + i) j bytes
unfolding slice
slice-slice o k i j bytes h =
    take-drop-take i j k (drop o bytes) h ∙ ap (take j) (drop-drop i o (o + i) bytes refl)

take-write :
    (k : ℕ) (bs bytes : List ℕ)
    → length bs ≤ k
    → length bs ≤ length bytes
    → take k (bs ++ drop (length bs) bytes) ≡ bs ++ drop (length bs) (take k bytes)
take-write k [] bytes h g = refl
take-write zero (b ∷ bs) bytes h g = absurd (omega arith)
take-write (suc k) (b ∷ bs) [] h g = absurd (omega arith)
take-write (suc k) (b ∷ bs) (x ∷ bytes) h g =
    ap (◌∷◌ b) (take-write k bs bytes (omega arith) (omega arith))

take-overwrite :
    (k i : ℕ) (bs bytes : List ℕ)
    → i + length bs ≤ k
    → k ≤ length bytes
    → take k (overwrite i bs bytes) ≡ overwrite i bs (take k bytes)
unfolding overwrite
take-overwrite k zero bs bytes h g = take-write k bs bytes (omega arith) (omega arith)
take-overwrite zero (suc i) bs bytes h g = absurd (omega arith)
take-overwrite (suc k) (suc i) bs [] h g = refl
take-overwrite (suc k) (suc i) bs (x ∷ bytes) h g =
    ap (◌∷◌ x) (take-overwrite k i bs bytes (omega arith) (omega arith))

overwrite_inside :
    (o k i p : ℕ) (bs bytes : List ℕ)
    → p ≡ o + i
    → i + length bs ≤ k
    → o + k ≤ length bytes
    → take k (drop o (overwrite p bs bytes)) ≡ overwrite i bs (take k (drop o bytes))
unfolding overwrite
overwrite_inside zero k i p bs bytes e h g =
    let same : p ≡ i = omega arith in rw same (take-overwrite k i bs bytes h (omega arith))
overwrite_inside (suc o) k i p bs [] e h g = absurd (omega arith)
overwrite_inside (suc o) k i p bs (x ∷ bytes) e h g =
    let more : p ≡ suc (o + i) = omega arith in
    rw more (overwrite_inside o k i (o + i) bs bytes refl h (omega arith))

pub slice-overwrite_inside :
    (o k i : ℕ) (bs bytes : List ℕ)
    → i + length bs ≤ k
    → o + k ≤ length bytes
    → slice o k (overwrite (o + i) bs bytes) ≡ overwrite i bs (slice o k bytes)
unfolding slice
slice-overwrite_inside o k i bs bytes h g = overwrite_inside o k i (o + i) bs bytes refl h g

pub word_at-slice :
    (o k i : ℕ) (bytes : List ℕ) → i + 4 ≤ k → word_at (slice o k bytes) i ≡ word_at bytes (o + i)
unfolding word_at
word_at-slice o k i bytes h = ap of_le (slice-slice o k i 4 bytes h)
