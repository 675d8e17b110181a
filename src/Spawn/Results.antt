-- ===== src/Spawn/Results.antt =====
-- What spawning and despawning leave behind, by the result.
use la2go.Prelude.{
  ℕ, ◌+◌, ◌%◌, ◌^◌, ◌<◌, ◌==◌, ◌≡◌, refl, ap, ◌∙◌, inl, inr, List, [], ◌∷◌, Bool, true, false,
  Bool-cases, Option-cases, Result, length, some, ok, err, panic, arith,
}
use la2go.Prelude.Int.{ℤ, pos, ◌-ℤ◌, ltb_ℤ}
use la2go.Prelude.Assoc.{lookup-insert}
use la2go.World.Grid.{Index}
use la2go.World.Objects.{WorldObject, Address, get_object, region_of}
use la2go.World.Reachable.{added, add_object-none, add_object-some}
use la2go.Ai.TickManager.{wrap_int32}
use la2go.Spawn.Manager.{
  Manager, decrease_count, without, remove_npc, assign, allocate, roll_back, do_spawn, despawn_npc,
}
use la2go.Spawn.Filling.{IsFilled, listed}

-- The world and the controllers after a spawn, by its result.
abbrev pub AfterSpawn : (ℤ → Bool) → ℕ → Manager → Result Address × Manager → Type 0
AfterSpawn has_template p m (ok a, m') =
    let spawn = m.spawns p in
    (a ≡ m.next_address)
    × (ltb_ℤ spawn.current_count spawn.maximum_count ≡ true)
    × (has_template spawn.template_id ≡ true)
    × (get_object ((m.object_id_counter + 1) % 2 ^ 32) m'.world ≡ some a)
    × (m'.npc_spawn a ≡ some p)
AfterSpawn has_template p m (err e, m') =
    (m'.world.objects ≡ m.world.objects)
    × (m'.world.regions ≡ m.world.regions)
    × (m'.ai_manager ≡ m.ai_manager)
AfterSpawn has_template p m (panic, m') = ⊥

pub assign-same : {A : Type 0} (k : ℕ) (v : A) (f : ℕ → A) → assign k v f k ≡ v
assign-same k v f = let e : (k == k) ≡ true = ground arith in rw e refl

rolled_back :
    (p : ℕ) (m : Manager)
    → let m' = roll_back p m.next_address (allocate p m) in
      (m'.world.objects ≡ m.world.objects)
      × (m'.world.regions ≡ m.world.regions)
      × (m'.ai_manager ≡ m.ai_manager)
unfolding roll_back allocate
rolled_back p m = (refl, refl, refl)

allocated-stored :
    (p : ℕ) (m : Manager) (i : Index)
    → get_object ((m.object_id_counter + 1) % 2 ^ 32) (added (allocate p m).world m.next_address i)
      ≡ some m.next_address
unfolding get_object allocate
allocated-stored p m i =
    let a = m.next_address in
    let id = (m.object_id_counter + 1) % 2 ^ 32 in
    let named : (assign a (record { object_id = id; location = (m.spawns p).location }) m.world.heap
          a).object_id
        ≡ id =
      ap (λ (o : WorldObject). o.object_id) (assign-same a _ m.world.heap) in
    lookup-insert _ id a m.world.objects
    ∙ (let e : (id == id) ≡ true = ground arith in rw (named, e) refl)

allocated-npc_spawn : (p : ℕ) (m : Manager) → (allocate p m).npc_spawn m.next_address ≡ some p
unfolding allocate
allocated-npc_spawn p m = assign-same m.next_address (some p) m.npc_spawn

-- A spawn that succeeds had room and a template, and its NPC, which refers to it, is an object of the
-- world under the next id; one that fails leaves the objects, the regions and the controllers as they
-- were; none panics.
pub do_spawn-AfterSpawn :
    (has_template : ℤ → Bool) (p : ℕ) (m : Manager)
    → AfterSpawn has_template p m (do_spawn has_template p m)
unfolding do_spawn
do_spawn-AfterSpawn has_template p m =
    let spawn = m.spawns p in
    let m' = allocate p m in
    let a = m.next_address in
    elim (Bool-cases (ltb_ℤ spawn.current_count spawn.maximum_count)) [
      | inl more ↦ elim (Bool-cases (has_template spawn.template_id)) [
        | inl known ↦ elim (Option-cases (region_of m'.world.heap a)) [
          | inl out ↦ rw (do_spawn, more, known, add_object-none m'.world a out) (rolled_back p m)
          | inr (i, at) ↦
              rw (do_spawn, more, known, add_object-some m'.world a i at)
                (refl, more, known, allocated-stored p m i, allocated-npc_spawn p m)
        ]
        | inr unknown ↦ rw (do_spawn, more, unknown) (refl, refl, refl)
      ]
      | inr full ↦ rw (do_spawn, full) (refl, refl, refl)
    ]

without-unlisted :
    (a : Address) (npcs : List Address) → listed a npcs ≡ false → without a npcs ≡ npcs
unfolding without
without-unlisted a [] h = refl
without-unlisted a (b ∷ npcs) h = elim (Bool-cases (b == a)) [
  | inl e ↦ absurd (ground arith)
  | inr e ↦ rw e (ap (◌∷◌ b) (without-unlisted a npcs (ground arith)))
]

below_wrap : (n : ℕ) → n < 2 ^ 31 → wrap_int32 (pos n -ℤ pos 1) ≡ pos n -ℤ pos 1
unfolding ◌-ℤ◌
below_wrap n h = ground arith

-- Despawning an NPC that its spawn lists no more, as when it is despawned for a second time, takes
-- one from the count all the same, so that it is below the number of NPCs.
pub despawn_npc-again :
    (a : Address) (p : ℕ) (m : Manager)
    → m.npc_spawn a ≡ some p
    → listed a (m.spawns p).npc_list ≡ false
    → IsFilled (m.spawns p)
    → let after = (despawn_npc a m).spawns p in
      (after.npc_list ≡ (m.spawns p).npc_list)
      × (after.current_count ≡ pos (length after.npc_list) -ℤ pos 1)
unfolding despawn_npc remove_npc decrease_count
despawn_npc-again a p m e h k =
    let spawn = m.spawns p in
    let n = length spawn.npc_list in
    let room = k.room in
    let small = k.small in
    let below : n < 2 ^ 31 = ground arith in
    let there : ((despawn_npc a m).spawns p) ≡ decrease_count (remove_npc a spawn) =
      rw (e, despawn_npc) (assign-same p _ m.spawns) in
    let same = without-unlisted a spawn.npc_list h in
    rw (there, same) (refl, rw k.counted (below_wrap n below))
