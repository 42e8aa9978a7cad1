-- ===== src/ClientState/Handles.antt =====
-- The invariant of the shared state: no handle above the counter is in use, a handle stands for one
-- thing only, and the place in a snapshot is never past its end.
mod Maps
mod Valid
pub use Valid.{
  IsValid, Unused, init-IsValid, store_process_snapshot_at-IsValid,
  store_module_snapshot_at-IsValid, store_open_process_at-IsValid, close_handle-IsValid,
  replaced-IsValid,
}
use ceserver_pcileech.Prelude.{
  ℕ, ◌+◌, ◌≤◌, ◌<◌, ◌^◌, ◌≡◌, refl, ap, true, false, List, [], ◌∷◌, none, some, arith, length, inl,
  ◌⊎◌,
}
use ceserver_pcileech.Prelude.Maps.{
  Map, lookup, assign, erase, insert, or_else, lookup-assign, lookup-insert, lookup-erase,
}
use ceserver_pcileech.Memory.Region.{ProcessInfo, MemoryRegion}
use ceserver_pcileech.ClientState.{
  ClientState, Op, is_store, init, generate_handle, store_process_snapshot, store_module_snapshot,
  store_open_process, close_handle, next_in, next_process_info, next_memory_region,
  reset_process_iterator, reset_module_iterator, apply, apply_all, stores_processes, stores_modules,
  opens_process, closes, takes_process, takes_module, resets_processes, resets_modules,
}
use ceserver_pcileech.ClientState.Handles.Maps.{
  Below, Placed, Apart, Below-mono, Below-assign, Below-insert, Below-erase, Placed-insert,
  Placed-erase, Placed-reset, Placed-next_in, Apart-insert_left, Apart-insert_right,
  Apart-assign_right, Apart-erase,
}

-- Below INT_MAX the new handle is the next number.
pub generate_handle_lem :
    (s : ClientState)
    → s.last_handle_id + 1 < 2 ^ 31
    → generate_handle s ≡ (s.last_handle_id + 1, record s { last_handle_id = s.last_handle_id + 1 })
unfolding generate_handle
generate_handle_lem s h = ground arith

module _ (s : ClientState) (room : s.last_handle_id + 1 < 2 ^ 31) (v : IsValid s) where
  -- A new handle keeps the state valid and is not in use.
  pub generate_handle-IsValid :
      IsValid (generate_handle s).1 × Unused (generate_handle s).0 (generate_handle s).1
  generate_handle-IsValid = rw (generate_handle_lem s room) (
    record {
      in_range = room;
      processes_below = Below-mono s.last_handle_id _ _ (omega arith) v.processes_below;
      modules_below = Below-mono s.last_handle_id _ _ (omega arith) v.modules_below;
      ids_below = Below-mono s.last_handle_id _ _ (omega arith) v.ids_below;
      processes_placed = v.processes_placed;
      modules_placed = v.modules_placed;
      processes_modules = v.processes_modules;
      processes_ids = v.processes_ids;
      modules_ids = v.modules_ids;
    },
    record {
      given = omega arith;
      processes = v.processes_below _ (omega arith);
      modules = v.modules_below _ (omega arith);
      ids = v.ids_below _ (omega arith);
    },
  )

  store_process_snapshot-IsValid : (xs : List ProcessInfo) → IsValid (store_process_snapshot xs s).1
  unfolding store_process_snapshot
  store_process_snapshot-IsValid xs =
      let (v', u) = generate_handle-IsValid in store_process_snapshot_at-IsValid _ _ u v' xs

  store_module_snapshot-IsValid : (xs : List MemoryRegion) → IsValid (store_module_snapshot xs s).1
  unfolding store_module_snapshot
  store_module_snapshot-IsValid xs =
      let (v', u) = generate_handle-IsValid in store_module_snapshot_at-IsValid _ _ u v' xs

  store_open_process-IsValid : (pid : ℕ) → IsValid (store_open_process pid s).1
  unfolding store_open_process
  store_open_process-IsValid pid =
      let (v', u) = generate_handle-IsValid in store_open_process_at-IsValid _ _ u v' pid

-- A call that takes no handle.
pub call-IsValid :
    (op : Op) (s : ClientState) → is_store op ≡ false → IsValid s → IsValid (apply op s)
unfolding apply
call-IsValid (closes h) s e v = close_handle-IsValid h s v
call-IsValid (takes_process h) s e v =
    unfold next_process_info in
    replaced-IsValid s _ _ v (Placed-next_in h _ _ v.processes_placed) v.modules_placed
call-IsValid (takes_module h) s e v =
    unfold next_memory_region in
    replaced-IsValid s _ _ v v.processes_placed (Placed-next_in h _ _ v.modules_placed)
call-IsValid (resets_processes h) s e v =
    unfold reset_process_iterator in
    replaced-IsValid s _ _ v (Placed-reset h _ _ v.processes_placed) v.modules_placed
call-IsValid (resets_modules h) s e v =
    unfold reset_module_iterator in
    replaced-IsValid s _ _ v v.processes_placed (Placed-reset h _ _ v.modules_placed)
call-IsValid _ s e v = cc

-- Every call keeps the invariant of the shared state, as long as the counter is below INT_MAX.
pub apply-IsValid :
    (op : Op) (s : ClientState) → s.last_handle_id + 1 < 2 ^ 31 → IsValid s → IsValid (apply op s)
unfolding apply
apply-IsValid (stores_processes xs) s room v = store_process_snapshot-IsValid s room v xs
apply-IsValid (stores_modules xs) s room v = store_module_snapshot-IsValid s room v xs
apply-IsValid (opens_process pid) s room v = store_open_process-IsValid s room v pid
apply-IsValid op s room v = call-IsValid op s refl v

-- A call that takes no handle leaves the counter alone.
pub call-last :
    (op : Op) (s : ClientState)
    → is_store op ≡ false
    → (apply op s).last_handle_id ≡ s.last_handle_id
unfolding apply close_handle next_process_info next_memory_region reset_process_iterator
    reset_module_iterator
call-last (closes h) s e = refl
call-last (takes_process h) s e = refl
call-last (takes_module h) s e = refl
call-last (resets_processes h) s e = refl
call-last (resets_modules h) s e = refl
call-last _ s e = cc

-- One call uses up one number at most.
pub apply-last :
    (op : Op) (s : ClientState)
    → s.last_handle_id + 1 < 2 ^ 31
    → (apply op s).last_handle_id ≤ s.last_handle_id + 1
unfolding apply store_process_snapshot store_module_snapshot store_open_process close_handle
    next_process_info next_memory_region reset_process_iterator reset_module_iterator
apply-last (stores_processes xs) s room =
    omega (arith, ap (λ r. r.1.last_handle_id) (generate_handle_lem s room))
apply-last (stores_modules xs) s room =
    omega (arith, ap (λ r. r.1.last_handle_id) (generate_handle_lem s room))
apply-last (opens_process pid) s room =
    omega (arith, ap (λ r. r.1.last_handle_id) (generate_handle_lem s room))
apply-last _ s room = omega arith

apply_all-IsValid :
    (ops : List Op) (s : ClientState)
    → s.last_handle_id + length ops < 2 ^ 31
    → IsValid s
    → IsValid (apply_all ops s)
unfolding apply_all
apply_all-IsValid [] s room v = v
apply_all-IsValid (op ∷ ops) s room v =
    apply_all-IsValid ops (apply op s) (omega (arith, apply-last op s (omega arith)))
      (apply-IsValid op s (omega arith) v)

-- From the state of a new server, any sequence of fewer than 2 ^ 31 calls leads to a state where
-- the invariant holds.
pub apply_all-init-IsValid : (ops : List Op) → length ops < 2 ^ 31 → IsValid (apply_all ops init)
unfolding init
apply_all-init-IsValid ops short = apply_all-IsValid ops init (omega arith) init-IsValid
