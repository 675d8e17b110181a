-- ===== src/Spawn/Loading/Full.antt =====
-- SpawnAll fills every spawn point that has been loaded.
use la2go.Prelude.{
  ℕ, zero, suc, ◌+◌, ◌<◌, ◌==◌, ◌≡◌, refl, ap, ◌∙◌, List, [], ◌∷◌, Bool, true, false, none, Result,
  ok, All, length, arith,
}
use la2go.Prelude.Int.{ℤ, pos, pos_part, ltb_ℤ}
use la2go.Spawn.Manager.{Spawn, Manager, increase_count, add_npc, do_spawn}
use la2go.Spawn.Filling.{IsFilled, AllFilled}
use la2go.Spawn.Progress.{npc_count, CanSpawn, grown-CanSpawn, length-grown, Grown, do_spawn-Grown}
use la2go.Spawn.Loading.{Loaded, Run, spawn_times, spawn_each, spawn_all}

-- As many NPCs are counted and listed as the maximum.
abbrev pub IsFull : Spawn → Type 0
IsFull spawn =
    (spawn.current_count ≡ spawn.maximum_count)
    × (pos (length spawn.npc_list) ≡ spawn.maximum_count)

maximum-pos :
    (spawn : Spawn) → IsFilled spawn → spawn.maximum_count ≡ pos (pos_part spawn.maximum_count)
maximum-pos spawn k = let room = k.room in ground arith

has_room :
    (spawn : Spawn) (k : ℕ)
    → IsFilled spawn
    → spawn.maximum_count ≡ pos k
    → length spawn.npc_list < k
    → ltb_ℤ spawn.current_count spawn.maximum_count ≡ true
has_room spawn k filled top below = rw (filled.counted, top) (ground arith)

grown-maximum :
    (a : ℕ) (spawn : Spawn) → (add_npc a (increase_count spawn)).maximum_count ≡ spawn.maximum_count
unfolding add_npc increase_count
grown-maximum a spawn = refl

-- A run of the loop over the spawn `p` that fills it to `k` NPCs.
record Filling (has_template : ℤ → Bool) (n p k : ℕ) (run : Run) : Type 0 where
  after : Run
  done : spawn_times has_template n p run ≡ ok after
  no_error : after.first_error ≡ run.first_error
  filled : AllFilled after.manager
  count : npc_count p after.manager ≡ k
  maximum : (after.manager.spawns p).maximum_count ≡ pos k
  others : (q : ℕ) → (p == q) ≡ false → after.manager.spawns q ≡ run.manager.spawns q

Filling-step :
    (has_template : ℤ → Bool) (n p k : ℕ) (run : Run)
    → Grown has_template p run.manager (do_spawn has_template p run.manager).1
    → Filling has_template n p k (record run {
      manager = (do_spawn has_template p run.manager).1;
      spawned = suc run.spawned;
    })
    → Filling has_template (suc n) p k run
unfolding spawn_times
Filling-step has_template n p k run g f = record {
  after = f.after;
  done = rw (spawn_times, ap (λ (r : Result ℕ × Manager). r.0) g.done) f.done;
  no_error = f.no_error;
  filled = f.filled;
  count = f.count;
  maximum = f.maximum;
  others = λ q apart. f.others q apart ∙ g.others q apart;
}

spawn_times-Filling :
    (has_template : ℤ → Bool) (n p k : ℕ) (run : Run)
    → AllFilled run.manager
    → CanSpawn has_template (run.manager.spawns p)
    → (run.manager.spawns p).maximum_count ≡ pos k
    → npc_count p run.manager + n ≡ k
    → Filling has_template n p k run
unfolding spawn_times
spawn_times-Filling has_template zero p k run filled can top sum = record {
  after = run;
  done = refl;
  no_error = refl;
  filled = filled;
  count = omega arith;
  maximum = top;
  others = λ q apart. refl;
}
spawn_times-Filling has_template (suc n) p k run filled can top sum =
    let m = run.manager in
    let g =
      do_spawn-Grown has_template p m filled can
        (has_room (m.spawns p) k (filled p) top (omega arith)) in
    let longer = length-grown m.next_address (m.spawns p) in
    let counted : npc_count p (do_spawn has_template p m).1 ≡ suc (npc_count p m) =
      rw g.here longer in
    Filling-step has_template n p k run g (
      spawn_times-Filling has_template n p k _ g.filled
        (rw g.here (grown-CanSpawn has_template m.next_address (m.spawns p) can))
        (rw g.here (grown-maximum m.next_address (m.spawns p) ∙ top)) (omega arith))

-- The spawns are different pointers.
abbrev pub Distinct : List (ℕ × ℕ) → Type 0
Distinct [] = Unit {0}
Distinct ((id, p) ∷ rest) = All (λ (e : ℕ × ℕ). (p == e.1) ≡ false) rest × Distinct rest

-- A spawn point with no NPC yet that can have some.
abbrev pub IsReady : (ℤ → Bool) → Manager → ℕ × ℕ → Type 0
IsReady has_template m (id, p) = CanSpawn has_template (m.spawns p) × (npc_count p m ≡ 0)

abbrev pub Ready : (ℤ → Bool) → Manager → List (ℕ × ℕ) → Type 0
Ready has_template m = All (IsReady has_template m)

Ready-kept :
    (has_template : ℤ → Bool) (m m' : Manager) (p : ℕ) (rest : List (ℕ × ℕ))
    → ((q : ℕ) → (p == q) ≡ false → m'.spawns q ≡ m.spawns q)
    → All (λ (e : ℕ × ℕ). (p == e.1) ≡ false) rest
    → Ready has_template m rest
    → Ready has_template m' rest
Ready-kept has_template m m' p [] others apart ready = tt
Ready-kept has_template m m' p ((id, q) ∷ rest) others (apart, more) ((can, none_yet), ready) = (
  (rw (others q apart) can, rw (others q apart) none_yet),
  Ready-kept has_template m m' p rest others more ready,
)

-- A run over the list that fills all its spawns.
record Filled (has_template : ℤ → Bool) (list : List (ℕ × ℕ)) (run : Run) : Type 0 where
  after : Run
  done : spawn_each has_template list run ≡ ok after
  no_error : after.first_error ≡ run.first_error
  filled : AllFilled after.manager
  full : All (λ (e : ℕ × ℕ). IsFull (after.manager.spawns e.1)) list
  others :
      (q : ℕ)
      → All (λ (e : ℕ × ℕ). (e.1 == q) ≡ false) list
      → after.manager.spawns q ≡ run.manager.spawns q

flip_apart :
    (p : ℕ) (rest : List (ℕ × ℕ))
    → All (λ (e : ℕ × ℕ). (p == e.1) ≡ false) rest
    → All (λ (e : ℕ × ℕ). (e.1 == p) ≡ false) rest
flip_apart p [] h = tt
flip_apart p ((id, q) ∷ rest) (apart, h) = (ground arith, flip_apart p rest h)

spawn_each-Filled :
    (has_template : ℤ → Bool) (list : List (ℕ × ℕ)) (run : Run)
    → AllFilled run.manager
    → Distinct list
    → Ready has_template run.manager list
    → Filled has_template list run
unfolding spawn_each
spawn_each-Filled has_template [] run filled apart ready = record {
  after = run;
  done = refl;
  no_error = refl;
  filled = filled;
  full = tt;
  others = λ q away. refl;
}
spawn_each-Filled has_template ((id, p) ∷ rest) run filled (apart, distinct)
      ((can, none_yet), ready) =
    let k = pos_part (run.manager.spawns p).maximum_count in
    let top = maximum-pos (run.manager.spawns p) (filled p) in
    let f = spawn_times-Filling has_template k p k run filled can top (omega arith) in
    let m = f.after.manager in
    let g =
      spawn_each-Filled has_template rest f.after f.filled distinct
        (Ready-kept has_template run.manager m p rest f.others apart ready) in
    let here = g.others p (flip_apart p rest apart) in
    let counted = (f.filled p).counted in
    record {
      after = g.after;
      done = rw (f.done) g.done;
      no_error = g.no_error ∙ f.no_error;
      filled = g.filled;
      full = (rw here (rw (counted, f.count, f.maximum) (refl, refl)), g.full);
      others = λ q (away, more). g.others q more ∙ f.others q away;
    }

-- SpawnAll ends without an error, and leaves as many NPCs at every loaded spawn point as its maximum,
-- where the spawn points are different and have none yet, the counts of all spawn points are those of
-- their NPCs, the repository has their templates and their locations lie in the grid.
pub spawn_all-IsFull :
    (has_template : ℤ → Bool) (l : Loaded)
    → AllFilled l.manager
    → Distinct l.loaded
    → Ready has_template l.manager l.loaded
    → (l' : Loaded) × (spawn_all has_template l ≡ ok (none, l'))
      × All (λ (e : ℕ × ℕ). IsFull (l'.manager.spawns e.1)) l'.loaded
unfolding spawn_all
spawn_all-IsFull has_template l filled distinct ready =
    let run : Run = record { manager = l.manager; spawned = 0; first_error = none } in
    let f = spawn_each-Filled has_template l.loaded run filled distinct ready in
    (record l { manager = f.after.manager }, rw (f.done, f.no_error) refl, f.full)
