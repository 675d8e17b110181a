-- ===== src/World/Registered.antt =====
-- internal/world/visibility_manager.go: the players that are registered for updates. A player is a
-- pointer, an address of `heap`; the set of players is a map whose values say nothing.
mod Updates
mod Tests
use la2go.Prelude.{ℕ, suc, ◌+◌, ◌==◌, List, [], ◌∷◌, Bool, true, false, if◌then◌else◌, none, length}
use la2go.Prelude.Int.{ℤ}
use la2go.Prelude.Assoc.{insert, erase}
use la2go.World.Objects.{World}
use la2go.World.Visibility.{Player, update_player_cache}

abbrev pub Players : Type 0
Players = List (ℕ × Unit {0})

pub record VisibilityManager : Type 0 where
  pub players : Players
  pub max_age : ℤ
  pub heap : ℕ → Player

unfoldable pub new_visibility_manager : ℤ → (ℕ → Player) → VisibilityManager
new_visibility_manager max_age heap = record { players = []; max_age = max_age; heap = heap }

unfoldable pub register_player : ℕ → VisibilityManager → VisibilityManager
register_player p vm = record vm { players = insert p tt vm.players }

-- `InvalidateVisibilityCache`
unfoldable pub invalidate_visibility_cache : Player → Player
invalidate_visibility_cache player = record player { visibility_cache = none }

abbrev pub store_player : ℕ → Player → (ℕ → Player) → ℕ → Player
store_player p player heap q = if p == q then player else heap q

unfoldable pub unregister_player : ℕ → VisibilityManager → VisibilityManager
unregister_player p vm = record vm {
  players = erase p vm.players;
  heap = store_player p (invalidate_visibility_cache (vm.heap p)) vm.heap;
}

unfoldable pub player_count : VisibilityManager → ℕ
player_count vm = length vm.players

-- What UpdateAll counts, and the players it leaves.
pub record Batch : Type 0 where
  pub updated : ℕ
  pub skipped : ℕ
  pub heap : ℕ → Player

-- `checked` and `now` are the times that updatePlayerCache reads for a player.
unfoldable pub update_each : World → ℤ → (ℕ → ℤ) → (ℕ → ℤ) → Players → Batch → Batch
update_each w max_age checked now [] b = b
update_each w max_age checked now ((p, u) ∷ players) b =
    let (updated, player) = update_player_cache w max_age (checked p) (now p) (b.heap p) in
    let counted =
      if updated
      then record b { updated = suc b.updated }
      else record b { skipped = suc b.skipped } in
    update_each w max_age checked now players
      (record counted { heap = store_player p player b.heap })

unfoldable pub update_all : World → (ℕ → ℤ) → (ℕ → ℤ) → VisibilityManager → Batch
update_all w checked now vm =
    update_each w vm.max_age checked now vm.players
      (record { updated = 0; skipped = 0; heap = vm.heap })
