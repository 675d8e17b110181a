-- ===== src/Spawn/Filling.antt =====
-- The count of a spawn, its list of NPCs and its maximum.
use la2go.Prelude.{
  ℕ, suc, ◌-◌, ◌^◌, ◌<◌, ◌==◌, ◌≡◌, refl, sym, ap, ◌∙◌, inl, inr, List, [], ◌∷◌, ◌++◌, Bool, true,
  false, ◌||◌, Bool-cases, Result-cases, length, length-append, some, arith,
}
use la2go.Prelude.Int.{ℤ, pos, ◌+ℤ◌, ◌-ℤ◌, ◌≤ℤ◌, ltb_ℤ}
use la2go.World.Objects.{Address, add_object}
use la2go.Ai.TickManager.{wrap_int32}
use la2go.Spawn.Manager.{
  Spawn, Manager, increase_count, decrease_count, add_npc, without, remove_npc, assign, allocate,
  roll_back, do_spawn, despawn_npc,
}

-- The count is the number of NPCs listed, not above the maximum, which is an int32.
pub record IsFilled (spawn : Spawn) : Type 0 where
  pub counted : spawn.current_count ≡ pos (length spawn.npc_list)
  pub room : pos (length spawn.npc_list) ≤ℤ spawn.maximum_count
  pub small : spawn.maximum_count ≤ℤ pos (2 ^ 31 - 1)

abbrev pub listed : Address → List Address → Bool
listed a [] = false
listed a (b ∷ npcs) = (b == a) || listed a npcs

pub listed-append : (a : Address) (npcs : List Address) → listed a (npcs ++ (a ∷ [])) ≡ true
listed-append a [] = ground arith
listed-append a (b ∷ npcs) = ground (arith, listed-append a npcs)

pub length-without :
    (a : Address) (npcs : List Address)
    → listed a npcs ≡ true
    → suc (length (without a npcs)) ≡ length npcs
unfolding without
length-without a [] h = ground arith
length-without a (b ∷ npcs) h = elim (Bool-cases (b == a)) [
  | inl e ↦ rw e refl
  | inr e ↦ rw e (ap suc (length-without a npcs (ground arith)))
]

increase_wrap : (n : ℕ) → n < 2 ^ 31 - 1 → wrap_int32 (pos n +ℤ pos 1) ≡ pos (suc n)
unfolding ◌+ℤ◌
increase_wrap n h = ground arith

decrease_wrap : (n : ℕ) → suc n < 2 ^ 31 → wrap_int32 (pos (suc n) -ℤ pos 1) ≡ pos n
unfolding ◌-ℤ◌
decrease_wrap n h = ground arith

grown-IsFilled :
    (a : Address) (spawn : Spawn)
    → ltb_ℤ spawn.current_count spawn.maximum_count ≡ true
    → IsFilled spawn
    → IsFilled (add_npc a (increase_count spawn))
unfolding add_npc increase_count
grown-IsFilled a spawn more k =
    let n = length spawn.npc_list in
    let more' : ltb_ℤ (pos n) spawn.maximum_count ≡ true =
      ap (λ (c : ℤ). ltb_ℤ c spawn.maximum_count) (sym k.counted) ∙ more in
    let longer : length (spawn.npc_list ++ (a ∷ [])) ≡ suc n =
      length-append spawn.npc_list (a ∷ []) ∙ ground arith in
    let small = k.small in
    record {
      counted = rw (k.counted, longer) (increase_wrap n (ground arith));
      room = rw longer (ground arith);
      small = small;
    }

shrunk-IsFilled :
    (a : Address) (spawn : Spawn)
    → listed a spawn.npc_list ≡ true
    → IsFilled spawn
    → IsFilled (decrease_count (remove_npc a spawn))
unfolding remove_npc decrease_count
shrunk-IsFilled a spawn h k =
    let n = length (without a spawn.npc_list) in
    let shorter : suc n ≡ length spawn.npc_list = length-without a spawn.npc_list h in
    let room = k.room in
    let small = k.small in
    let below : suc n < 2 ^ 31 = ground arith in
    record {
      counted = rw (k.counted, sym shorter) (decrease_wrap n below);
      room = ground arith;
      small = small;
    }

assign-all :
    (P : Spawn → Type 0) (p : ℕ) (v : Spawn) (f : ℕ → Spawn)
    → ((q : ℕ) → P (f q))
    → P v
    → (q : ℕ) → P (assign p v f q)
assign-all P p v f all h q = elim (Bool-cases (p == q)) [ inl e ↦ rw e h | inr e ↦ rw e (all q) ]

abbrev pub AllFilled : Manager → Type 0
AllFilled m = (q : ℕ) → IsFilled (m.spawns q)

allocate-AllFilled :
    (p : ℕ) (m : Manager)
    → ltb_ℤ (m.spawns p).current_count (m.spawns p).maximum_count ≡ true
    → AllFilled m
    → AllFilled (allocate p m)
unfolding allocate
allocate-AllFilled p m more k =
    assign-all IsFilled p _ m.spawns k (grown-IsFilled m.next_address (m.spawns p) more (k p))

grown_back-IsFilled :
    (a : Address) (spawn : Spawn)
    → ltb_ℤ spawn.current_count spawn.maximum_count ≡ true
    → IsFilled spawn
    → IsFilled (remove_npc a (decrease_count (add_npc a (increase_count spawn))))
unfolding remove_npc decrease_count
grown_back-IsFilled a spawn more k =
    shrunk-IsFilled a (add_npc a (increase_count spawn))
      (unfold add_npc increase_count in listed-append a spawn.npc_list)
      (grown-IsFilled a spawn more k)

roll_back-AllFilled :
    (p : ℕ) (m : Manager)
    → ltb_ℤ (m.spawns p).current_count (m.spawns p).maximum_count ≡ true
    → AllFilled m
    → AllFilled (roll_back p m.next_address (allocate p m))
unfolding roll_back allocate
roll_back-AllFilled p m more k =
    let a = m.next_address in
    let grown = add_npc a (increase_count (m.spawns p)) in
    let here : assign p grown m.spawns p ≡ grown =
      (let e : (p == p) ≡ true = ground arith in rw e refl) in
    assign-all IsFilled p _ _ (allocate-AllFilled p m more k)
      (rw here (grown_back-IsFilled a (m.spawns p) more (k p)))

-- Whether an NPC is spawned or not, the count of every spawn stays the number of its NPCs and does
-- not go above its maximum.
pub do_spawn-AllFilled :
    (has_template : ℤ → Bool) (p : ℕ) (m : Manager)
    → AllFilled m
    → AllFilled (do_spawn has_template p m).1
unfolding do_spawn
do_spawn-AllFilled has_template p m k =
    let spawn = m.spawns p in
    let m' = allocate p m in
    elim (Bool-cases (ltb_ℤ spawn.current_count spawn.maximum_count)) [
      | inl more ↦ elim (Bool-cases (has_template spawn.template_id)) [
        | inl known ↦ elim (Result-cases (add_object m.next_address m'.world)) [
          | inl (w, e) ↦ rw (do_spawn, more, known, e) (allocate-AllFilled p m more k)
          | inr (inl (failure, e)) ↦ rw (do_spawn, more, known, e) (roll_back-AllFilled p m more k)
          | inr (inr e) ↦ rw (do_spawn, more, known, e) (allocate-AllFilled p m more k)
        ]
        | inr unknown ↦ rw (do_spawn, more, unknown) k
      ]
      | inr full ↦ rw (do_spawn, full) k
    ]

-- Despawning an NPC that its spawn lists keeps the counts of all spawns.
despawn_npc-AllFilled :
    (a : Address) (p : ℕ) (m : Manager)
    → m.npc_spawn a ≡ some p
    → listed a (m.spawns p).npc_list ≡ true
    → AllFilled m
    → AllFilled (despawn_npc a m)
unfolding despawn_npc
despawn_npc-AllFilled a p m e h k =
    rw (e, despawn_npc)
      (assign-all IsFilled p _ m.spawns k (shrunk-IsFilled a (m.spawns p) h (k p)))
