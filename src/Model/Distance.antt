-- ===== src/Model/Distance.antt =====
-- internal/model/location.go: the square of a distance, in int64 of differences in int32.
use native.Mathlib.Nat.{mul-le-mul_right}
use la2go.Prelude.{ℕ, zero, suc, ◌+◌, ◌*◌, ◌^◌, ◌≤◌, ◌≡◌, ◌↔◌, refl, arith}
use la2go.Prelude.Int.{ℤ, pos, negsuc, ◌-ℤ◌, IsInt}
use la2go.Ai.TickManager.{wrap_int32}
use la2go.World.Objects.{Location}
use la2go.Model.Player.{wrap_int64}

unfoldable pub with_heading : ℕ → Location → Location
with_heading heading l = record l { heading = heading }

unfoldable pub with_coordinates : ℤ → ℤ → ℤ → Location → Location
with_coordinates x y z l = record l { x = x; y = y; z = z }

abbrev pub magnitude : ℤ → ℕ
magnitude (pos n) = n
magnitude (negsuc n) = suc n

-- The product of an integer with itself.
abbrev pub square : ℤ → ℕ
square z = magnitude z * magnitude z

unfoldable pub distance_squared : Location → Location → ℤ
unfolding ◌-ℤ◌
distance_squared l other =
    let dx = square (wrap_int32 (l.x -ℤ other.x)) in
    let dy = square (wrap_int32 (l.y -ℤ other.y)) in
    let dz = square (wrap_int32 (l.z -ℤ other.z)) in wrap_int64 (pos (dx + dy + dz))

-- The coordinates are int32 numbers.
abbrev pub IsPlace : Location → Type 0
IsPlace l = IsInt (2 ^ 31) l.x × IsInt (2 ^ 31) l.y × IsInt (2 ^ 31) l.z

magnitude_flip :
    (a b : ℤ)
    → IsInt (2 ^ 31) a
    → IsInt (2 ^ 31) b
    → magnitude (wrap_int32 (a -ℤ b)) ≡ magnitude (wrap_int32 (b -ℤ a))
unfolding ◌-ℤ◌
magnitude_flip a b h g = ground arith

magnitude_wrap : (z : ℤ) → magnitude (wrap_int32 z) ≤ 2 ^ 31
magnitude_wrap z = ground arith

magnitude_zero :
    (a b : ℤ) → IsInt (2 ^ 31) a → IsInt (2 ^ 31) b → magnitude (wrap_int32 (a -ℤ b)) ≡ 0 → a ≡ b
unfolding ◌-ℤ◌
magnitude_zero a b h g e = ground arith

magnitude_same : (a : ℤ) → magnitude (wrap_int32 (a -ℤ a)) ≡ 0
unfolding ◌-ℤ◌
magnitude_same a = ground arith

square-le : (n : ℕ) → n ≤ 2 ^ 31 → n * n ≤ 2 ^ 62
square-le n h = let wide : n * n ≤ 2 ^ 31 * n = mul-le-mul_right n h in omega arith

square_zero : (n : ℕ) → n * n ≡ 0 → n ≡ 0
square_zero zero h = refl
square_zero (suc n) h = absurd (grind arith)

-- The sum of three squares of int32 numbers does not reach 2^64.
sum_zero :
    (a b c : ℕ)
    → a ≤ 2 ^ 62
    → b ≤ 2 ^ 62
    → c ≤ 2 ^ 62
    → wrap_int64 (pos (a + b + c)) ≡ pos 0
    → (a ≡ 0) × (b ≡ 0) × (c ≡ 0)
sum_zero a b c h g k e = ground arith

-- For int32 coordinates the distance is the same in both directions, although the differences wrap around.
distance_squared-flip :
    (l other : Location)
    → IsPlace l
    → IsPlace other
    → distance_squared l other ≡ distance_squared other l
unfolding distance_squared
distance_squared-flip l other (lx, ly, lz) (ox, oy, oz) =
    rw
      (
        magnitude_flip l.x other.x lx ox,
        magnitude_flip l.y other.y ly oy,
        magnitude_flip l.z other.z lz oz,
      )
      refl

-- For int32 coordinates the square of the distance is 0 for the same coordinates only, although the
-- differences and the sum of their squares may wrap around.
distance_squared-zero :
    (l other : Location)
    → IsPlace l
    → IsPlace other
    → (distance_squared l other ≡ pos 0) ↔ ((l.x ≡ other.x) × (l.y ≡ other.y) × (l.z ≡ other.z))
unfolding distance_squared
distance_squared-zero l other (lx, ly, lz) (ox, oy, oz) =
    let dx = magnitude (wrap_int32 (l.x -ℤ other.x)) in
    let dy = magnitude (wrap_int32 (l.y -ℤ other.y)) in
    let dz = magnitude (wrap_int32 (l.z -ℤ other.z)) in
    (
      λ e.
          (let (ex, ey, ez) =
              sum_zero (dx * dx) (dy * dy) (dz * dz)
                (square-le dx (magnitude_wrap (l.x -ℤ other.x)))
                (square-le dy (magnitude_wrap (l.y -ℤ other.y)))
                (square-le dz (magnitude_wrap (l.z -ℤ other.z))) e in
            (
              magnitude_zero l.x other.x lx ox (square_zero dx ex),
              magnitude_zero l.y other.y ly oy (square_zero dy ey),
              magnitude_zero l.z other.z lz oz (square_zero dz ez),
            )),
      λ (ex, ey, ez).
          rw (ex, ey, ez, magnitude_same other.x, magnitude_same other.y, magnitude_same other.z)
            refl,
    )
