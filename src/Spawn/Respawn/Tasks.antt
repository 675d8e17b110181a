-- ===== src/Spawn/Respawn/Tasks.antt =====
-- The map of scheduled tasks: one task for a spawn point.
use la2go.Prelude.{ℕ, ◌^◌, ◌==◌, ◌≡◌, refl, ◌∙◌, true, arith}
use la2go.Prelude.Int.{ℤ, word}
use la2go.Prelude.Assoc.{insert, erase, lookup-erase, erase-absent}
use la2go.Spawn.Respawn.{Tasks, schedule_respawn, cancel_respawn}

erase-again : (k : ℕ) (tasks : Tasks) → erase k (erase k tasks) ≡ erase k tasks
erase-again k tasks =
    erase-absent k (erase k tasks)
      (lookup-erase k k tasks ∙ (let e : (k == k) ≡ true = ground arith in rw e refl))

-- A second respawn that is scheduled for a spawn point takes the place of the first, as if the first
-- had never been scheduled, and cancelling after a schedule leaves the tasks as cancelling alone does.
schedule_respawn-again :
    (id : ℤ) (p : ℕ) (delay now delay' now' : ℤ) (tasks : Tasks)
    → (schedule_respawn id p delay' now' (schedule_respawn id p delay now tasks)
        ≡ schedule_respawn id p delay' now' tasks)
      × (cancel_respawn id (schedule_respawn id p delay now tasks) ≡ cancel_respawn id tasks)
unfolding schedule_respawn cancel_respawn insert erase
schedule_respawn-again id p delay now delay' now' tasks =
    let k = word (2 ^ 64) id in
    let same : (k == k) ≡ true = ground arith in
    (rw (same, erase-again k tasks) refl, rw (same, erase-again k tasks) refl)
