-- ===== src/Ai/Counting.antt =====
-- The cached count of controllers.
use la2go.Prelude.{
  ℕ, suc, ◌≡◌, refl, sym, ap, ◌∙◌, inl, inr, none, some, Option-cases, length, arith,
}
use la2go.Prelude.Int.{pos, ◌+ℤ◌, ◌-ℤ◌}
use la2go.Prelude.Assoc.{
  lookup, insert, erase, IsOnce, insert-IsOnce, erase-IsOnce, map_values-IsOnce, length-erase,
  erase-absent, length-map_values,
}
use la2go.Ai.TickManager.{
  Controller, TickManager, new_tick_manager, register_controller, unregister_controller, tick_all,
  wrap_int32,
}

-- One entry for an id, and as many entries as the count says, up to the range of an int32.
pub record IsCounted {C : Type 0} (m : TickManager C) : Type 0 where
  pub once : IsOnce m.controllers
  pub counted : m.controller_count ≡ wrap_int32 (pos (length m.controllers))

wrap_up : (n : ℕ) → wrap_int32 (wrap_int32 (pos n) +ℤ pos 1) ≡ wrap_int32 (pos (suc n))
unfolding ◌+ℤ◌
wrap_up n = ground arith

wrap_down : (n : ℕ) → wrap_int32 (wrap_int32 (pos (suc n)) -ℤ pos 1) ≡ wrap_int32 (pos n)
unfolding ◌-ℤ◌
wrap_down n = ground arith

module _ {C : Type 0} (methods : Controller C) where
  register-IsCounted :
      (id : ℕ) (c : C) (m : TickManager C)
      → lookup id m.controllers ≡ none
      → IsCounted m
      → IsCounted (register_controller methods id c m)
  register-IsCounted id c m free k = record {
    once = unfold register_controller in insert-IsOnce id (methods.start c) m.controllers k.once;
    counted =
        unfold register_controller insert in
        rw (k.counted, erase-absent id m.controllers free) (wrap_up (length m.controllers));
  }

  unregister-IsCounted :
      (id : ℕ) (m : TickManager C) → IsCounted m → IsCounted (unregister_controller methods id m).0
  unfolding unregister_controller
  unregister-IsCounted id m k = elim (Option-cases (lookup id m.controllers)) [
    | inl e ↦ rw (e, unregister_controller) k
    | inr (c, e) ↦
        rw (e, unregister_controller)
          (record {
            once = erase-IsOnce id m.controllers k.once;
            counted =
                let shorter = length-erase id m.controllers c k.once e in
                rw (k.counted, sym shorter) (wrap_down (length (erase id m.controllers)));
          })
  ]

  tick_all-IsCounted : (m : TickManager C) → IsCounted m → IsCounted (tick_all methods m)
  unfolding tick_all
  tick_all-IsCounted m k = record {
    once = map_values-IsOnce methods.tick m.controllers k.once;
    counted =
        k.counted
        ∙ ap (λ (n : ℕ). wrap_int32 (pos n)) (sym (length-map_values methods.tick m.controllers));
  }

  -- A controller comes under an id that is free, one goes, or all are ticked.
  pub data Managed : TickManager C → Type 0 where
    fresh : Managed new_tick_manager
    registers :
        {m : TickManager C} (id : ℕ) (c : C)
        → Managed m
        → lookup id m.controllers ≡ none
        → Managed (register_controller methods id c m)
    unregisters :
        {m : TickManager C} (id : ℕ) → Managed m → Managed (unregister_controller methods id m).0
    ticks : {m : TickManager C} → Managed m → Managed (tick_all methods m)

  -- However controllers are registered under free ids, unregistered under any ids and ticked, the
  -- cached count is that of the controllers, up to the range of an int32, and no id has two.
  pub Managed-IsCounted : {m : TickManager C} → Managed m → IsCounted m
  Managed-IsCounted fresh = record {
    once = unfold new_tick_manager in tt;
    counted = unfold new_tick_manager in refl;
  }
  Managed-IsCounted (registers {m = m} id c r free) =
      register-IsCounted id c m free (Managed-IsCounted r)
  Managed-IsCounted (unregisters {m = m} id r) = unregister-IsCounted id m (Managed-IsCounted r)
  Managed-IsCounted (ticks {m = m} r) = tick_all-IsCounted m (Managed-IsCounted r)

  -- A controller that is registered under an id that has one takes the place of it, and the cached
  -- count is one too high from then on.
  register_controller-again :
      (id : ℕ) (c c' : C) (m : TickManager C)
      → lookup id m.controllers ≡ some c
      → IsCounted m
      → let m' = register_controller methods id c' m in
        (length m'.controllers ≡ length m.controllers)
        × (m'.controller_count ≡ wrap_int32 (pos (suc (length m'.controllers))))
  unfolding register_controller insert
  register_controller-again id c c' m e k =
      let same = length-erase id m.controllers c k.once e in
      (same, rw (k.counted, same) (wrap_up (length m.controllers)))
