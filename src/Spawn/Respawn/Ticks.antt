-- ===== src/Spawn/Respawn/Ticks.antt =====
-- A tick of the respawn tasks: what it takes out of the map, and that it respawns.
use la2go.Prelude.{
  ℕ, suc, ◌≤◌, ◌<◌, ◌==◌, ◌≡◌, refl, sym, ◌∙◌, ◌⊎◌, inl, inr, List, [], ◌∷◌, Bool, true, false,
  Bool-cases, Result-cases, none, some, ok, ltb, arith,
}
use la2go.Prelude.Int.{ℤ, pos_part, ltb_ℤ}
use la2go.Prelude.Assoc.{lookup, IsOnce}
use la2go.Spawn.Manager.{Manager, do_spawn}
use la2go.Spawn.Filling.{AllFilled, do_spawn-AllFilled}
use la2go.Spawn.Progress.{
  npc_count, CanSpawn, Kept, Kept-refl, Kept-trans, Kept-CanSpawn, do_spawn-Grown, do_spawn-Kept,
  do_spawn-done, length-grown,
}
use la2go.Spawn.Respawn.{RespawnTask, Tasks, is_due, process_tasks, execute_tasks, respawn_tick}

abbrev Among : RespawnTask → List RespawnTask → Type 0
Among task [] = ⊥
Among task (t ∷ ts) = (t ≡ task) ⊎ Among task ts

process_tasks-absent :
    (now : ℤ) (id : ℕ) (tasks : Tasks)
    → lookup id tasks ≡ none
    → lookup id (process_tasks now tasks).1 ≡ none
unfolding process_tasks lookup
process_tasks-absent now id [] h = refl
process_tasks-absent now id ((j, t) ∷ tasks) h = elim (Bool-cases (is_due now t)) [
  | inl e ↦ rw e (process_tasks-absent now id tasks (ground arith))
  | inr e ↦ rw e (ground (arith, process_tasks-absent now id tasks))
]

-- A task whose time has come is taken out of the map and is among those that are due.
process_tasks-due :
    (now : ℤ) (id : ℕ) (task : RespawnTask) (tasks : Tasks)
    → IsOnce tasks
    → lookup id tasks ≡ some task
    → is_due now task ≡ true
    → Among task (process_tasks now tasks).0 × (lookup id (process_tasks now tasks).1 ≡ none)
unfolding process_tasks lookup
process_tasks-due now id task [] once h g = absurd (ground arith)
process_tasks-due now id task ((j, t) ∷ tasks) (free, once) h g = elim (Bool-cases (j == id)) [
  | inl e ↦
      (let head : some t ≡ some task = rw (lookup, e) at h in
        let same : t ≡ task = cc in
        let due : is_due now t ≡ true = rw same g in
        let key : j ≡ id = ground arith in
        let gone : lookup id tasks ≡ none = rw (← key) free in
        rw due (inl same, process_tasks-absent now id tasks gone))
  | inr e ↦
      (let there : lookup id tasks ≡ some task = rw (lookup, e) at h in
        let (among, gone) = process_tasks-due now id task tasks once there g in
        elim (Bool-cases (is_due now t)) [
          | inl d ↦ rw d (inr among, gone)
          | inr d ↦ rw d (among, rw e gone)
        ])
]

-- The tasks that a goroutine runs do not panic, and no spawn point loses an NPC.
record Executed (has_template : ℤ → Bool) (due : List RespawnTask) (m : Manager) : Type 0 where
  after : Manager
  done : execute_tasks has_template due m ≡ ok after
  filled : AllFilled after
  kept : (q : ℕ) → Kept (m.spawns q) (after.spawns q)

module _ (has_template : ℤ → Bool) (t : RespawnTask) (due : List RespawnTask) (m : Manager) where
  -- A spawn point that is full is left alone.
  execute_skip :
      ltb_ℤ (m.spawns t.spawn).current_count (m.spawns t.spawn).maximum_count ≡ false
      → execute_tasks has_template (t ∷ due) m ≡ execute_tasks has_template due m
  unfolding execute_tasks
  execute_skip full = rw (execute_tasks, full) refl

  -- Any other has a spawn, whatever it results in.
  execute_next :
      ltb_ℤ (m.spawns t.spawn).current_count (m.spawns t.spawn).maximum_count ≡ true
      → execute_tasks has_template (t ∷ due) m
        ≡ execute_tasks has_template due (do_spawn has_template t.spawn m).1
  unfolding execute_tasks
  execute_next more = elim (Result-cases (do_spawn has_template t.spawn m).0) [
    | inl (a, e) ↦ rw (execute_tasks, more, e) refl
    | inr (inl (failure, e)) ↦ rw (execute_tasks, more, e) refl
    | inr (inr e) ↦ absurd (do_spawn-done has_template t.spawn m e)
  ]

executed :
    (has_template : ℤ → Bool) (due : List RespawnTask) (m : Manager)
    → AllFilled m
    → Executed has_template due m
executed has_template [] m filled = record {
  after = m;
  done = unfold execute_tasks in refl;
  filled = filled;
  kept = λ q. Kept-refl (m.spawns q);
}
executed has_template (t ∷ due) m filled =
    let spawn = m.spawns t.spawn in
    let skipped = executed has_template due m filled in
    let later =
      executed has_template due (do_spawn has_template t.spawn m).1
        (do_spawn-AllFilled has_template t.spawn m filled) in
    elim (Bool-cases (ltb_ℤ spawn.current_count spawn.maximum_count)) [
      | inl more ↦ record {
        after = later.after;
        done = execute_next has_template t due m more ∙ later.done;
        filled = later.filled;
        kept = λ q. Kept-trans (do_spawn-Kept has_template t.spawn m q) (later.kept q);
      }
      | inr full ↦ record {
        after = skipped.after;
        done = execute_skip has_template t due m full ∙ skipped.done;
        filled = skipped.filled;
        kept = skipped.kept;
      }
    ]

-- There are fewer NPCs at the spawn point `p` than its maximum.
abbrev pub HasRoom : ℕ → Manager → Type 0
HasRoom p m = npc_count p m < pos_part (m.spawns p).maximum_count

room_ltb :
    (p : ℕ) (m : Manager)
    → AllFilled m
    → HasRoom p m
    → ltb_ℤ (m.spawns p).current_count (m.spawns p).maximum_count ≡ true
room_ltb p m filled h = (let k = filled p in let room = k.room in rw (k.counted) (ground arith))

execute-Kept :
    (has_template : ℤ → Bool) (due : List RespawnTask) (m m' : Manager)
    → AllFilled m
    → execute_tasks has_template due m ≡ ok m'
    → (q : ℕ) → Kept (m.spawns q) (m'.spawns q)
execute-Kept has_template due m m' filled e q =
    let x = executed has_template due m filled in
    let same : x.after ≡ m' = (let d = x.done in cc) in rw (← same) (x.kept q)

-- The first task finds room.
respawned_first :
    (has_template : ℤ → Bool) (task : RespawnTask) (due : List RespawnTask) (m m' : Manager)
    → AllFilled m
    → CanSpawn has_template (m.spawns task.spawn)
    → HasRoom task.spawn m
    → execute_tasks has_template (task ∷ due) m ≡ ok m'
    → npc_count task.spawn m < npc_count task.spawn m'
respawned_first has_template task due m m' filled can room e =
    let p = task.spawn in
    let more = room_ltb p m filled room in
    let g = do_spawn-Grown has_template p m filled can more in
    let longer : npc_count p (do_spawn has_template p m).1 ≡ suc (npc_count p m) =
      rw g.here (length-grown m.next_address (m.spawns p)) in
    let kept =
      (execute-Kept has_template due _ m' g.filled
        (sym (execute_next has_template task due m more) ∙ e) p).more in
    omega arith

-- Some task finds room, or another task has used it for the same spawn point.
respawned :
    (has_template : ℤ → Bool) (task : RespawnTask) (due : List RespawnTask) (m m' : Manager)
    → AllFilled m
    → CanSpawn has_template (m.spawns task.spawn)
    → HasRoom task.spawn m
    → Among task due
    → execute_tasks has_template due m ≡ ok m'
    → npc_count task.spawn m < npc_count task.spawn m'
respawned has_template task [] m m' filled can room among e = absurd among
respawned has_template task (t ∷ due) m m' filled can room (inl same) e =
    respawned_first has_template task due m m' filled can room (rw same at e)
respawned has_template task (t ∷ due) m m' filled can room (inr among) e =
    let p = task.spawn in
    let m1 = (do_spawn has_template t.spawn m).1 in
    let now = do_spawn-Kept has_template t.spawn m p in
    let filled1 = do_spawn-AllFilled has_template t.spawn m filled in
    elim (Bool-cases (ltb_ℤ (m.spawns t.spawn).current_count (m.spawns t.spawn).maximum_count)) [
      | inr full ↦
          respawned has_template task due m m' filled can room among
            (sym (execute_skip has_template t due m full) ∙ e)
      | inl more ↦
          (let rest = sym (execute_next has_template t due m more) ∙ e in
            let not_fewer = now.more in
            elim (Bool-cases (ltb (npc_count p m) (npc_count p m1))) [
              | inl grown ↦
                  (let later = (execute-Kept has_template due m1 m' filled1 rest p).more in
                    ground arith)
              | inr still ↦
                  (let room1 : HasRoom p m1 = rw now.maximum (ground arith) in
                    let later =
                      respawned has_template task due m1 m' filled1
                        (Kept-CanSpawn has_template now can) room1 among rest in
                    ground arith)
            ])
    ]

-- At a tick, a task whose time has come leaves the map, and its spawn point has more NPCs than
-- before, where it has fewer than its maximum, the repository has its template and its location lies
-- in the grid; the counts of all spawn points are those of their NPCs before, and the map has no key
-- twice. The tick does not panic, and no spawn point has fewer NPCs after it.
pub respawn_tick-respawns :
    (has_template : ℤ → Bool) (now : ℤ) (id : ℕ) (task : RespawnTask) (tasks : Tasks) (m : Manager)
    → IsOnce tasks
    → lookup id tasks ≡ some task
    → is_due now task ≡ true
    → AllFilled m
    → CanSpawn has_template (m.spawns task.spawn)
    → HasRoom task.spawn m
    → (rest : Tasks) × (m' : Manager) × (respawn_tick has_template now (tasks, m) ≡ ok (rest, m'))
      × (lookup id rest ≡ none)
      × (npc_count task.spawn m < npc_count task.spawn m')
      × ((q : ℕ) → npc_count q m ≤ npc_count q m')
respawn_tick-respawns has_template now id task tasks m once there due filled can room =
    let (among, gone) = process_tasks-due now id task tasks once there due in
    let x = executed has_template (process_tasks now tasks).0 m filled in
    (
      (process_tasks now tasks).1,
      x.after,
      unfold respawn_tick in rw (x.done) refl,
      gone,
      respawned has_template task _ m x.after filled can room among x.done,
      λ q. (x.kept q).more,
    )
