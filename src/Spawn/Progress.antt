-- ===== src/Spawn/Progress.antt =====
-- A spawn point that has room, a template and a place in the world gets one more NPC.
use mathlib.Core.Path.{subst}
use la2go.Prelude.{
  ℕ, suc, ◌+◌, ◌%◌, ◌^◌, ◌≤◌, ◌==◌, ◌≡◌, ◌≢◌, refl, ap, ◌∙◌, [], ◌∷◌, ◌++◌, Bool, true, false, some,
  ok, panic, Result, length, length-append, arith, inl, inr, Bool-cases, Option-cases,
}
use la2go.Prelude.Int.{ℤ, ltb_ℤ}
use la2go.World.Grid.{Index}
use la2go.World.Objects.{Address, WorldObject, get_region, region_of}
use la2go.World.Reachable.{add_object-none, add_object-some}
use la2go.Spawn.Manager.{
  Spawn, Manager, increase_count, decrease_count, add_npc, remove_npc, assign, allocate, roll_back,
  do_spawn,
}
use la2go.Spawn.Filling.{AllFilled, length-without, listed-append, do_spawn-AllFilled}
use la2go.Spawn.Results.{AfterSpawn, assign-same, do_spawn-AfterSpawn}

-- The number of NPCs of a spawn.
abbrev pub npc_count : ℕ → Manager → ℕ
npc_count p m = length (m.spawns p).npc_list

-- The repository has the template of the spawn, and its location lies in the grid.
pub record CanSpawn (has_template : ℤ → Bool) (spawn : Spawn) : Type 0 where
  pub known : has_template spawn.template_id ≡ true
  pub region : Index
  pub at : get_region spawn.location.x spawn.location.y ≡ some region

pub grown-CanSpawn :
    (has_template : ℤ → Bool) (a : Address) (spawn : Spawn)
    → CanSpawn has_template spawn
    → CanSpawn has_template (add_npc a (increase_count spawn))
unfolding add_npc increase_count
grown-CanSpawn has_template a spawn k = record { known = k.known; region = k.region; at = k.at }

pub length-grown :
    (a : Address) (spawn : Spawn)
    → length (add_npc a (increase_count spawn)).npc_list ≡ suc (length spawn.npc_list)
unfolding add_npc increase_count
length-grown a spawn = length-append spawn.npc_list (a ∷ []) ∙ ground arith

-- A spawn that succeeded, and changed nothing of the other spawn points.
pub record Grown (has_template : ℤ → Bool) (p : ℕ) (m m' : Manager) : Type 0 where
  pub done : do_spawn has_template p m ≡ (ok m.next_address, m')
  pub here : m'.spawns p ≡ add_npc m.next_address (increase_count (m.spawns p))
  pub others : (q : ℕ) → (p == q) ≡ false → m'.spawns q ≡ m.spawns q
  pub filled : AllFilled m'

allocate-region :
    (has_template : ℤ → Bool) (p : ℕ) (m : Manager) (k : CanSpawn has_template (m.spawns p))
    → region_of (allocate p m).world.heap m.next_address ≡ some k.region
unfolding allocate
allocate-region has_template p m k =
    let placed =
      ap (λ (o : WorldObject). o.location)
        (assign-same m.next_address
          (record {
            object_id = (m.object_id_counter + 1) % 2 ^ 32;
            location = (m.spawns p).location;
          })
          m.world.heap) in
    rw placed k.at

pub do_spawn-Grown :
    (has_template : ℤ → Bool) (p : ℕ) (m : Manager)
    → AllFilled m
    → CanSpawn has_template (m.spawns p)
    → ltb_ℤ (m.spawns p).current_count (m.spawns p).maximum_count ≡ true
    → Grown has_template p m (do_spawn has_template p m).1
unfolding do_spawn allocate
do_spawn-Grown has_template p m filled k more =
    let m' = (do_spawn has_template p m).1 in
    let e =
      add_object-some (allocate p m).world m.next_address k.region
        (allocate-region has_template p m k) in
    let result : (do_spawn has_template p m).0 ≡ ok m.next_address =
      rw (do_spawn, more, k.known, e) refl in
    let same : m'.spawns ≡ (allocate p m).spawns = rw (do_spawn, more, k.known, e) refl in
    record {
      done = ap (λ (r : Result Address). (r, m')) result;
      here = rw same (assign-same p _ m.spawns);
      others = λ q apart. rw (same, apart) refl;
      filled = do_spawn-AllFilled has_template p m filled;
    }

-- A spawn point that is the same but for its NPCs, of which there are not fewer.
pub record Kept (spawn later : Spawn) : Type 0 where
  pub template : later.template_id ≡ spawn.template_id
  pub location : later.location ≡ spawn.location
  pub maximum : later.maximum_count ≡ spawn.maximum_count
  pub more : length spawn.npc_list ≤ length later.npc_list

pub Kept-refl : (spawn : Spawn) → Kept spawn spawn
Kept-refl spawn = record { template = refl; location = refl; maximum = refl; more = omega arith }

pub Kept-trans : {r s t : Spawn} → Kept r s → Kept s t → Kept r t
Kept-trans h g =
    let first = h.more in
    let second = g.more in
    record {
      template = g.template ∙ h.template;
      location = g.location ∙ h.location;
      maximum = g.maximum ∙ h.maximum;
      more = omega arith;
    }

pub Kept-CanSpawn :
    (has_template : ℤ → Bool) {s t : Spawn}
    → Kept s t
    → CanSpawn has_template s
    → CanSpawn has_template t
Kept-CanSpawn has_template h k = record {
  known = rw h.template k.known;
  region = k.region;
  at = rw h.location k.at;
}

grown-Kept : (a : Address) (spawn : Spawn) → Kept spawn (add_npc a (increase_count spawn))
grown-Kept a spawn =
    let longer = length-grown a spawn in
    unfold add_npc increase_count in
    record { template = refl; location = refl; maximum = refl; more = omega arith }

grown_back-Kept :
    (a : Address) (spawn : Spawn)
    → Kept spawn (remove_npc a (decrease_count (add_npc a (increase_count spawn))))
grown_back-Kept a spawn =
    let longer = length-append spawn.npc_list (a ∷ []) in
    let shorter = length-without a (spawn.npc_list ++ (a ∷ [])) (listed-append a spawn.npc_list) in
    unfold remove_npc decrease_count add_npc increase_count in
    record { template = refl; location = refl; maximum = refl; more = omega arith }

Kept-assign :
    (p : ℕ) (s : Spawn) (f : ℕ → Spawn) → Kept (f p) s → (q : ℕ) → Kept (f q) (assign p s f q)
Kept-assign p s f h q = elim (Bool-cases (p == q)) [
  | inl e ↦ (let same : p ≡ q = ground arith in rw (e, ← same) h)
  | inr e ↦ rw e (Kept-refl (f q))
]

rolled_back-Kept :
    (p : ℕ) (m : Manager) (q : ℕ)
    → Kept (m.spawns q) ((roll_back p m.next_address (allocate p m)).spawns q)
unfolding roll_back allocate
rolled_back-Kept p m q =
    let a = m.next_address in
    let grown = add_npc a (increase_count (m.spawns p)) in
    let here = assign-same p grown m.spawns in
    elim (Bool-cases (p == q)) [
      | inl e ↦
          (let same : p ≡ q = ground arith in rw (e, here, ← same) (grown_back-Kept a (m.spawns p)))
      | inr e ↦ rw e (Kept-refl (m.spawns q))
    ]

-- Whatever a spawn results in, no spawn point has fewer NPCs after it.
pub do_spawn-Kept :
    (has_template : ℤ → Bool) (p : ℕ) (m : Manager) (q : ℕ)
    → Kept (m.spawns q) ((do_spawn has_template p m).1.spawns q)
unfolding do_spawn allocate
do_spawn-Kept has_template p m q =
    let spawn = m.spawns p in
    let a = m.next_address in
    let m' = allocate p m in
    let grown = Kept-assign p _ m.spawns (grown-Kept a spawn) q in
    elim (Bool-cases (ltb_ℤ spawn.current_count spawn.maximum_count)) [
      | inl more ↦ elim (Bool-cases (has_template spawn.template_id)) [
        | inl known ↦ elim (Option-cases (region_of m'.world.heap a)) [
          | inl out ↦
              rw (do_spawn, more, known, add_object-none m'.world a out) (rolled_back-Kept p m q)
          | inr (i, at) ↦ rw (do_spawn, more, known, add_object-some m'.world a i at) grown
        ]
        | inr unknown ↦ rw (do_spawn, more, unknown) (Kept-refl (m.spawns q))
      ]
      | inr full ↦ rw (do_spawn, full) (Kept-refl (m.spawns q))
    ]

-- A spawn does not panic.
pub do_spawn-done :
    (has_template : ℤ → Bool) (p : ℕ) (m : Manager) → (do_spawn has_template p m).0 ≢ panic
do_spawn-done has_template p m e =
    subst (λ (r : Result Address). AfterSpawn has_template p m (r, (do_spawn has_template p m).1)) e
      (do_spawn-AfterSpawn has_template p m)
