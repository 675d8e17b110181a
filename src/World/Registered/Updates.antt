-- ===== src/World/Registered/Updates.antt =====
-- What a batch of updates does to every player.
use la2go.Prelude.{
  ℕ, suc, ◌+◌, ◌==◌, ◌≡◌, refl, ap, ◌∙◌, [], ◌∷◌, Bool, true, if◌then◌else◌, Bool-cases, inl, inr,
  Option-cases, none, some, length, arith,
}
use la2go.Prelude.Int.{ℤ, pos, ◌≤ℤ◌}
use la2go.Prelude.Assoc.{lookup, erase, lookup-erase, IsOnce, insert-IsOnce, erase-IsOnce}
use la2go.World.Grid.{coord_to_region_index}
use la2go.World.Objects.{World}
use la2go.World.Visibility.{Player, update_player_cache, is_current}
use la2go.World.Visibility.Players.{update_player_cache_lem}
use la2go.World.Registered.{
  Players, VisibilityManager, Batch, new_visibility_manager, register_player, unregister_player,
  update_each, update_all, player_count, store_player, invalidate_visibility_cache,
}

module _ (w : World) (max_age : ℤ) (checked now : ℕ → ℤ) where
  abbrev updated_player : ℕ → Player → Bool × Player
  updated_player p player = update_player_cache w max_age (checked p) (now p) player

  -- The batch after the first player.
  abbrev next_batch : ℕ → Batch → Batch
  next_batch p b =
      let (updated, player) = updated_player p (b.heap p) in
      let counted =
        if updated
        then record b { updated = suc b.updated }
        else record b { skipped = suc b.skipped } in
      record counted { heap = store_player p player b.heap }

  next_batch-sum :
      (p : ℕ) (b : Batch)
      → (next_batch p b).updated + (next_batch p b).skipped ≡ suc (b.updated + b.skipped)
  next_batch-sum p b = elim (Bool-cases (updated_player p (b.heap p)).0) [
    | inl e ↦ rw e (omega arith)
    | inr e ↦ rw e (omega arith)
  ]

  update_each-sum :
      (players : Players) (b : Batch)
      → let after = update_each w max_age checked now players b in
        after.updated + after.skipped ≡ b.updated + b.skipped + length players
  unfolding update_each
  update_each-sum [] b = omega arith
  update_each-sum ((p, u) ∷ players) b =
      let rest = update_each-sum players (next_batch p b) in
      let step = next_batch-sum p b in omega arith

  update_each-absent :
      (q : ℕ) (players : Players) (b : Batch)
      → lookup q players ≡ none
      → (update_each w max_age checked now players b).heap q ≡ b.heap q
  unfolding update_each lookup
  update_each-absent q [] b h = refl
  update_each-absent q ((p, u) ∷ players) b h = elim (Bool-cases (p == q)) [
    | inl e ↦ absurd (ground arith)
    | inr e ↦
        (let there : lookup q players ≡ none = rw (lookup, e) at h in
          update_each-absent q players (next_batch p b) there ∙ rw e refl)
  ]

  update_each-present :
      (q : ℕ) (players : Players) (b : Batch)
      → IsOnce players
      → lookup q players ≡ some tt
      → (update_each w max_age checked now players b).heap q ≡ (updated_player q (b.heap q)).1
  unfolding update_each lookup
  update_each-present q [] b once h = absurd (ground arith)
  update_each-present q ((p, u) ∷ players) b (free, once) h = elim (Bool-cases (p == q)) [
    | inl e ↦
        (let same : p ≡ q = ground arith in
          let gone : lookup q players ≡ none = rw (← same) free in
          update_each-absent q players (next_batch p b) gone ∙ rw (e, same) refl)
    | inr e ↦
        (let there : lookup q players ≡ some tt = rw (lookup, e) at h in
          update_each-present q players (next_batch p b) once there ∙ rw e refl)
  ]

-- A manager after any registrations, removals, batches, and other changes of the players.
pub data ReachableManager : VisibilityManager → Type 0 where
  starts :
      (max_age : ℤ) (heap : ℕ → Player) → ReachableManager (new_visibility_manager max_age heap)
  registers :
      (p : ℕ) {vm : VisibilityManager}
      → ReachableManager vm
      → ReachableManager (register_player p vm)
  unregisters :
      (p : ℕ) {vm : VisibilityManager}
      → ReachableManager vm
      → ReachableManager (unregister_player p vm)
  changes :
      (heap : ℕ → Player) {vm : VisibilityManager}
      → ReachableManager vm
      → ReachableManager (record vm { heap = heap })

ReachableManager-IsOnce : {vm : VisibilityManager} → ReachableManager vm → IsOnce vm.players
unfolding new_visibility_manager register_player unregister_player
ReachableManager-IsOnce (starts max_age heap) = tt
ReachableManager-IsOnce (registers p {vm} r) =
    insert-IsOnce p tt vm.players (ReachableManager-IsOnce r)
ReachableManager-IsOnce (unregisters p {vm} r) =
    erase-IsOnce p vm.players (ReachableManager-IsOnce r)
ReachableManager-IsOnce (changes heap r) = ReachableManager-IsOnce r

-- A player who is registered has a cache for its region that is not too old; any other is as before.
abbrev pub AfterUpdate : (ℕ → ℤ) → VisibilityManager → Batch → ℕ → Type 0
AfterUpdate checked vm after q = elim (lookup q vm.players) [
  | none ↦ after.heap q ≡ vm.heap q
  | some u ↦
      (let player = after.heap q in
        is_current (checked q) vm.max_age
          (coord_to_region_index player.location.x player.location.y) player.visibility_cache
        ≡ true)
]

updated-AfterUpdate :
    (w : World) (max_age checked now : ℤ) (player : Player)
    → pos 0 ≤ℤ max_age
    → checked ≤ℤ now
    → let after = (update_player_cache w max_age checked now player).1 in
      is_current checked max_age
        (coord_to_region_index after.location.x after.location.y)
        after.visibility_cache
      ≡ true
updated-AfterUpdate w max_age checked now player h order =
    let (current, cases) = update_player_cache_lem w max_age checked now player h order in
    let here = (update_player_cache w max_age checked now player).1 in
    let place : here.location ≡ player.location = elim cases [
      | inl (stays, same) ↦ ap (λ (p : Player). p.location) same
      | inr (made, old, kept) ↦ kept
    ] in
    rw place current

-- A batch updates or skips every registered player once; after it each registered player has a cache
-- for its region that was not too old when it was tested, and the other players are as before, for a
-- manager after any registrations and removals, a maximal age that is not negative and a clock that
-- does not go back.
pub update_all-AfterUpdate :
    (w : World) (checked now : ℕ → ℤ) (vm : VisibilityManager) (q : ℕ)
    → ReachableManager vm
    → pos 0 ≤ℤ vm.max_age
    → checked q ≤ℤ now q
    → let after = update_all w checked now vm in
      (after.updated + after.skipped ≡ player_count vm) × AfterUpdate checked vm after q
unfolding update_all player_count
update_all-AfterUpdate w checked now vm q r h order =
    let start : Batch = record { updated = 0; skipped = 0; heap = vm.heap } in
    let sum = update_each-sum w vm.max_age checked now vm.players start in
    (
      omega arith,
      elim (Option-cases (lookup q vm.players)) [
        | inl e ↦
            rw (AfterUpdate, e) (update_each-absent w vm.max_age checked now q vm.players start e)
        | inr (u, e) ↦
            rw
              (
                AfterUpdate,
                e,
                update_each-present w vm.max_age checked now q vm.players start
                    (ReachableManager-IsOnce r) e,
              )
              (updated-AfterUpdate w vm.max_age (checked q) (now q) (vm.heap q) h order)
      ],
    )

-- A player who is unregistered has no cache, and no batch gives it one until it is registered again.
update_all-unregister_player :
    (w : World) (checked now : ℕ → ℤ) (vm : VisibilityManager) (p : ℕ)
    → (update_all w checked now (unregister_player p vm)).heap p
      ≡ invalidate_visibility_cache (vm.heap p)
unfolding update_all unregister_player
update_all-unregister_player w checked now vm p =
    let same : (p == p) ≡ true = ground arith in
    let gone : lookup p (erase p vm.players) ≡ none = rw (lookup-erase p p vm.players, same) refl in
    update_each-absent w vm.max_age checked now p (erase p vm.players) _ gone ∙ rw same refl
