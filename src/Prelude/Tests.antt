-- ===== src/Prelude/Tests.antt =====
-- Boolean tests on the native numbers, the conditional, and Go's results.
use Prim.Native.Nat.{ℕ, compare, Ordering}
use mathlib.Core.Path.{◌≡◌, refl}
use mathlib.Core.Logic.{◌↔◌, ◌⊎◌, inl, inr}
use mathlib.Core.Bool.{Bool, true, false}
use mathlib.Core.Option.{Option, none, some}
use native.Mathlib.Omega.{arith}

abbrev pub ltb : ℕ → ℕ → Bool
ltb a b = elim (compare a b) [ Ordering.lt ↦ true | _ ↦ false ]

abbrev pub leb : ℕ → ℕ → Bool
leb a b = elim (compare a b) [ Ordering.gt ↦ false | _ ↦ true ]

infix 50 ◌==◌
abbrev pub ◌==◌ : ℕ → ℕ → Bool
a == b = elim (compare a b) [ Ordering.eq ↦ true | _ ↦ false ]

infix 1 if◌then◌else◌
abbrev pub if◌then◌else◌ {ℓ} : {A : Type ℓ} → Bool → A → A → A
if true then x else y = x
if false then x else y = y

pub ==_iff : (a b : ℕ) → ((a == b) ≡ true) ↔ (a ≡ b)
==_iff a b = ground arith

pub Bool-cases : (b : Bool) → (b ≡ true) ⊎ (b ≡ false)
Bool-cases true = inl refl
Bool-cases false = inr refl

pub Option-cases {ℓ} : {A : Type ℓ} (o : Option A) → (o ≡ none) ⊎ ((a : A) × (o ≡ some a))
Option-cases none = inl refl
Option-cases (some a) = inr (a, refl)

-- What the program's `fmt.Errorf` calls stand for, one constructor for each kind of failure.
pub data Error : Type 0 where
  not_enough_data negative_count invalid_count packet_too_short empty_packet : Error
  bad_block_size exceeds_data buffer_too_small bad_cipher_key : Error
  invalid_length packet_too_large bad_checksum read_failed generation_failed : Error
  invalid_opcode invalid_state invalid_revision invalid_session rsa_failed : Error
  not_authenticated invalid_coordinates spawn_full no_template : Error
  invalid_name invalid_level invalid_item_count negative_enchant request_refused : Error

-- A Go call: a value, an error, or a run-time panic (an index or a slice out of range).
pub data Result {ℓ} (A : Type ℓ) : Type ℓ where
  ok : A → Result A
  err : Error → Result A
  panic : Result A

pub ok-injective {ℓ} : {A : Type ℓ} (a b : A) → ok a ≡ ok b → a ≡ b
ok-injective a b h = cc

-- `if !test { return err }`
abbrev pub guard : Bool → Error → Result (Unit {0})
guard true failure = ok tt
guard false failure = err failure

-- An access that panics where the test fails.
abbrev pub check : Bool → Result (Unit {0})
check true = ok tt
check false = panic

infixl 5 ◌>>=◌
abbrev pub ◌>>=◌ {ℓ κ} : {A : Type ℓ} {B : Type κ} → Result A → (A → Result B) → Result B
panic >>= next = panic
err failure >>= next = err failure
ok a >>= next = next a

pub >>=-eq-ok {ℓ κ} :
    {A : Type ℓ} {B : Type κ} (first : Result A) (next : A → Result B) {last : B}
    → (first >>= next) ≡ ok last
    → (a : A) × (first ≡ ok a) × (next a ≡ ok last)
>>=-eq-ok panic next h = cc
>>=-eq-ok (err failure) next h = cc
>>=-eq-ok (ok a) next h = (a, refl, h)

-- A step whose value is not used.
infixl 5 ◌>>◌
abbrev pub ◌>>◌ {ℓ} : {B : Type ℓ} → Result (Unit {0}) → Result B → Result B
first >> next = first >>= λ done. next

-- A continuation moves under the first step of a chain.
pub bind_step {ℓ} :
    {A B C : Type ℓ} (m : Result A) (f : A → Result B) (f' : A → Result C) (k : B → Result C)
    → ((a : A) → f' a ≡ (f a >>= k))
    → (m >>= f') ≡ ((m >>= f) >>= k)
bind_step (ok a) f f' k h = h a
bind_step (err e) f f' k h = refl
bind_step panic f f' k h = refl

pub Result-cases {ℓ} :
    {A : Type ℓ} (r : Result A)
    → ((a : A) × (r ≡ ok a)) ⊎ (((e : Error) × (r ≡ err e)) ⊎ (r ≡ panic))
Result-cases (ok a) = inl (a, refl)
Result-cases (err e) = inr (inl (e, refl))
Result-cases panic = inr (inr refl)

pub guard-eq-ok {ℓ} :
    {A : Type ℓ} (b : Bool) (failure : Error) (next : Result A) {last : A}
    → (guard b failure >> next) ≡ ok last
    → (b ≡ true) × (next ≡ ok last)
guard-eq-ok true failure next h = (refl, h)
guard-eq-ok false failure next h = cc
