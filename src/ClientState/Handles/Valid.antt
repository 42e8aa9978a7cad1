-- ===== src/ClientState/Handles/Valid.antt =====
-- The invariant itself, and the steps under one lock that keep it.
use ceserver_pcileech.Prelude.{ℕ, ◌≤◌, ◌<◌, ◌^◌, ◌≡◌, refl, List, none, arith, inl}
use ceserver_pcileech.Prelude.Maps.{Map, lookup}
use ceserver_pcileech.Memory.Region.{ProcessInfo, MemoryRegion}
use ceserver_pcileech.ClientState.{
  ClientState, init, close_handle, store_process_snapshot_at, store_module_snapshot_at,
  store_open_process_at,
}
use ceserver_pcileech.ClientState.Handles.Maps.{
  Below, Placed, Apart, Below-assign, Below-insert, Below-erase, Placed-insert, Placed-erase,
  Apart-insert_left, Apart-insert_right, Apart-assign_right, Apart-erase,
}

pub record IsValid (s : ClientState) : Type 0 where
  pub in_range : s.last_handle_id < 2 ^ 31
  pub processes_below : Below s.last_handle_id s.process_snapshots
  pub modules_below : Below s.last_handle_id s.module_snapshots
  pub ids_below : Below s.last_handle_id s.process_ids
  pub processes_placed : Placed s.process_snapshots s.process_iter
  pub modules_placed : Placed s.module_snapshots s.module_iter
  pub processes_modules : Apart s.process_snapshots s.module_snapshots
  pub processes_ids : Apart s.process_snapshots s.process_ids
  pub modules_ids : Apart s.module_snapshots s.process_ids

pub init-IsValid : IsValid init
unfolding init lookup
init-IsValid = record {
  in_range = omega arith;
  processes_below = λ h p. refl;
  modules_below = λ h p. refl;
  ids_below = λ h p. refl;
  processes_placed = λ h xs e. cc;
  modules_placed = λ h xs e. cc;
  processes_modules = λ h. inl refl;
  processes_ids = λ h. inl refl;
  modules_ids = λ h. inl refl;
}

-- A handle that was given out and stands for nothing.
pub record Unused (h : ℕ) (s : ClientState) : Type 0 where
  pub given : h ≤ s.last_handle_id
  pub processes : lookup h s.process_snapshots ≡ none
  pub modules : lookup h s.module_snapshots ≡ none
  pub ids : lookup h s.process_ids ≡ none

module _ (s : ClientState) (h : ℕ) (u : Unused h s) (v : IsValid s) where
  pub store_process_snapshot_at-IsValid :
      (xs : List ProcessInfo) → IsValid (store_process_snapshot_at xs h s).1
  unfolding store_process_snapshot_at
  store_process_snapshot_at-IsValid xs = record {
    in_range = v.in_range;
    processes_below = Below-insert _ h xs _ u.given v.processes_below;
    modules_below = v.modules_below;
    ids_below = v.ids_below;
    processes_placed = Placed-insert h xs _ _ v.processes_placed;
    modules_placed = v.modules_placed;
    processes_modules = Apart-insert_left h xs _ _ u.modules v.processes_modules;
    processes_ids = Apart-insert_left h xs _ _ u.ids v.processes_ids;
    modules_ids = v.modules_ids;
  }

  pub store_module_snapshot_at-IsValid :
      (xs : List MemoryRegion) → IsValid (store_module_snapshot_at xs h s).1
  unfolding store_module_snapshot_at
  store_module_snapshot_at-IsValid xs = record {
    in_range = v.in_range;
    processes_below = v.processes_below;
    modules_below = Below-insert _ h xs _ u.given v.modules_below;
    ids_below = v.ids_below;
    processes_placed = v.processes_placed;
    modules_placed = Placed-insert h xs _ _ v.modules_placed;
    processes_modules = Apart-insert_right h xs _ _ u.processes v.processes_modules;
    processes_ids = v.processes_ids;
    modules_ids = Apart-insert_left h xs _ _ u.ids v.modules_ids;
  }

  pub store_open_process_at-IsValid : (pid : ℕ) → IsValid (store_open_process_at pid h s).1
  unfolding store_open_process_at
  store_open_process_at-IsValid pid = record {
    in_range = v.in_range;
    processes_below = v.processes_below;
    modules_below = v.modules_below;
    ids_below = Below-assign _ h pid _ u.given v.ids_below;
    processes_placed = v.processes_placed;
    modules_placed = v.modules_placed;
    processes_modules = v.processes_modules;
    processes_ids = Apart-assign_right h pid _ _ u.processes v.processes_ids;
    modules_ids = Apart-assign_right h pid _ _ u.modules v.modules_ids;
  }

pub close_handle-IsValid : (h : ℕ) (s : ClientState) → IsValid s → IsValid (close_handle h s)
unfolding close_handle
close_handle-IsValid h s v = record {
  in_range = v.in_range;
  processes_below = Below-erase _ h _ v.processes_below;
  modules_below = Below-erase _ h _ v.modules_below;
  ids_below = Below-erase _ h _ v.ids_below;
  processes_placed = Placed-erase h _ _ v.processes_placed;
  modules_placed = Placed-erase h _ _ v.modules_placed;
  processes_modules = Apart-erase h _ _ v.processes_modules;
  processes_ids = Apart-erase h _ _ v.processes_ids;
  modules_ids = Apart-erase h _ _ v.modules_ids;
}

-- A new place in the snapshots of either kind leaves the rest of the invariant alone.
pub replaced-IsValid :
    (s : ClientState) (processes modules : Map ℕ)
    → IsValid s
    → Placed s.process_snapshots processes
    → Placed s.module_snapshots modules
    → IsValid (record s { process_iter = processes; module_iter = modules })
replaced-IsValid s processes modules v p m = record {
  in_range = v.in_range;
  processes_below = v.processes_below;
  modules_below = v.modules_below;
  ids_below = v.ids_below;
  processes_placed = p;
  modules_placed = m;
  processes_modules = v.processes_modules;
  processes_ids = v.processes_ids;
  modules_ids = v.modules_ids;
}
