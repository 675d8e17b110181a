-- ===== src/Spawn/Respawn/Delays.antt =====
-- The delay of a respawn lies between its bounds.
use la2go.Prelude.{
  ℕ, ◌+◌, ◌-◌, ◌^◌, ◌≤◌, ◌<◌, ◌≡◌, refl, true, false, inl, inr, Bool-cases, arith, ok, panic,
}
use la2go.Prelude.Int.{ℤ, pos, ◌+ℤ◌, ◌-ℤ◌, ltb_ℤ, eq_ℤ}
use la2go.Ai.TickManager.{wrap_int32}
use la2go.Spawn.Respawn.{calculate_respawn_delay}

-- Bounds below 2^31 and not the whole range of an int32 apart, of which the first is the least, give
-- a delay from the first to the second, for a random number from 0 to below the bound it is drawn
-- for.
calculate_respawn_delay-range :
    (random : ℤ → ℤ) (draw : ℕ → ℕ) (least most : ℕ)
    → ((n : ℕ) → random (pos n) ≡ pos (draw n))
    → ((n : ℕ) → 1 ≤ n → draw n < n)
    → least ≤ most
    → most < 2 ^ 31
    → most - least < 2 ^ 31 - 1
    → (delay : ℕ) × (calculate_respawn_delay random (pos least) (pos most) ≡ ok (pos delay))
      × (least ≤ delay)
      × (delay ≤ most)
unfolding calculate_respawn_delay ◌+ℤ◌ ◌-ℤ◌
calculate_respawn_delay-range random draw least most drawn below order top apart =
    elim (Bool-cases (eq_ℤ (pos least) (pos most))) [
      | inl e ↦ (least, rw (calculate_respawn_delay, e) refl, omega arith, order)
      | inr e ↦
          (let n = most - least + 1 in
            let bound : wrap_int32 (wrap_int32 (pos most -ℤ pos least) +ℤ pos 1) ≡ pos n =
              ground arith in
            let small = below n (omega arith) in
            let sum : wrap_int32 (pos least +ℤ pos (draw n)) ≡ pos (least + draw n) =
              ground arith in
            let positive : ltb_ℤ (pos 0) (pos n) ≡ true = ground arith in
            (
              least + draw n,
              rw (calculate_respawn_delay, e, bound, positive, drawn n, sum) refl,
              omega arith,
              omega arith,
            ))
    ]

-- Bounds in the wrong order give no delay but a panic.
calculate_respawn_delay-panics :
    (random : ℤ → ℤ) (least most : ℕ)
    → most < least
    → least < 2 ^ 31
    → calculate_respawn_delay random (pos least) (pos most) ≡ panic
unfolding calculate_respawn_delay ◌+ℤ◌ ◌-ℤ◌
calculate_respawn_delay-panics random least most order top =
    let e : eq_ℤ (pos least) (pos most) ≡ false = ground arith in
    let bound : ltb_ℤ (pos 0) (wrap_int32 (wrap_int32 (pos most -ℤ pos least) +ℤ pos 1)) ≡ false =
      ground arith in
    rw (calculate_respawn_delay, e, bound) refl
