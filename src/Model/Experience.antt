-- ===== src/Model/Experience.antt =====
-- What AddExperience adds.
use la2go.Prelude.{ℕ, ◌+◌, ◌^◌, ◌<◌, ◌≡◌, if◌then◌else◌, ltb, Bool-cases, inl, inr, arith}
use la2go.Prelude.Int.{ℤ, pos, negsuc, ◌+ℤ◌, ltb_ℤ, IsInt}
use la2go.Model.Character.{at_least}
use la2go.Model.Player.{Player, add_experience, wrap_int64}

experience_sum :
    (e : ℕ) (exp : ℤ)
    → e < 2 ^ 63
    → IsInt (2 ^ 63) exp
    → at_least (pos 0) (wrap_int64 (pos e +ℤ exp))
      ≡ (if ltb_ℤ (pos e +ℤ exp) (pos (2 ^ 63)) then at_least (pos 0) (pos e +ℤ exp) else pos 0)
unfolding ◌+ℤ◌
experience_sum e (pos n) h int = elim (Bool-cases (ltb (e + n) (2 ^ 63))) [
  | inl small ↦ ground arith
  | inr big ↦ ground arith
]
experience_sum e (negsuc n) h int = ground arith

-- An int64 that is added to the experience of a player, which is not negative, gives the sum, or 0
-- where the sum is negative; a sum above the largest int64 gives 0 as well, so that a gain can lose
-- all experience.
pub add_experience_lem :
    (exp : ℤ) (p : Player) (e : ℕ)
    → p.experience ≡ pos e
    → e < 2 ^ 63
    → IsInt (2 ^ 63) exp
    → (add_experience exp p).experience ≡ (
        if ltb_ℤ (p.experience +ℤ exp) (pos (2 ^ 63))
        then at_least (pos 0) (p.experience +ℤ exp)
        else pos 0)
unfolding add_experience
add_experience_lem exp p e same h int = rw same (experience_sum e exp h int)
