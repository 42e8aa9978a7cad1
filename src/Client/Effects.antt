-- ===== src/Client/Effects.antt =====
-- What a request does to the shared state, as the calls of ClientState that it makes.
use ceserver_pcileech.Prelude.{◌≡◌, refl, List, [], ◌∷◌, true, false, if◌then◌else◌, arith}
use ceserver_pcileech.ClientState.{
  Op, apply, apply_all, stores_processes, stores_modules, closes, takes_process, takes_module,
  resets_processes, resets_modules, contains_process_info_handle, contains_memory_region_handle,
  contains_process_id_handle, reset_process_iterator, reset_module_iterator, next_process_info,
  next_memory_region, store_process_snapshot, store_module_snapshot, store_open_process,
  close_handle,
}
use ceserver_pcileech.ClientState
use ceserver_pcileech.Machine.{Machine}
use ceserver_pcileech.Client.Facts.{Facts}
use ceserver_pcileech.Client.Protection.{has_bits}
use ceserver_pcileech.Client.Snapshots.{th32cs_snapprocess, th32cs_snapmodule, th32cs_snapthread}
use ceserver_pcileech.Client.Spec.{
  makes_snapshot, makes_snapshot_ex, asks_process, asks_module, closes_handle, opens_process,
  starts_debug, asks_version, asks_abi, asks_options, closes_connection, terminates_server,
  sets_name, asks_symbols, reads_memory, writes_memory, asks_region, asks_regions, Request, answer,
}

module _ {m : Machine} where
  abbrev pub effects : Request → Facts m → List Op
  effects (makes_snapshot flags pid) s =
      if has_bits flags th32cs_snapprocess
      then stores_processes (m.get_process_snapshot s.mem).0 ∷ []
      else if has_bits flags th32cs_snapmodule
      then stores_modules (m.get_module_snapshot pid s.mem).0 ∷ []
      else []
  effects (makes_snapshot_ex flags pid) s =
      if has_bits flags th32cs_snapthread
      then []
      else if has_bits flags th32cs_snapmodule
      then []
      else stores_processes (m.get_process_snapshot s.mem).0 ∷ []
  effects (asks_process from_start h) s =
      if contains_process_info_handle h s.state
      then (if from_start then resets_processes h ∷ takes_process h ∷ [] else takes_process h ∷ [])
      else []
  effects (asks_module from_start h) s =
      if contains_memory_region_handle h s.state
      then (if from_start then resets_modules h ∷ takes_module h ∷ [] else takes_module h ∷ [])
      else []
  effects (closes_handle h) s = closes h ∷ []
  effects (opens_process pid) s = ceserver_pcileech.ClientState.opens_process pid ∷ []
  effects _ s = []

  pub answer-apply_all :
      (r : Request) (s : Facts m) → (answer r s).1.state ≡ apply_all (effects r s) s.state
  unfolding apply apply_all
  answer-apply_all (makes_snapshot flags pid) s = ground arith
  answer-apply_all (makes_snapshot_ex flags pid) s = ground arith
  answer-apply_all (asks_process true h) s = ground arith
  answer-apply_all (asks_process false h) s = ground arith
  answer-apply_all (asks_module true h) s = ground arith
  answer-apply_all (asks_module false h) s = ground arith
  answer-apply_all (closes_handle h) s = refl
  answer-apply_all (opens_process pid) s = refl
  answer-apply_all (starts_debug h) s = refl
  answer-apply_all asks_version s = refl
  answer-apply_all asks_abi s = refl
  answer-apply_all asks_options s = refl
  answer-apply_all closes_connection s = refl
  answer-apply_all terminates_server s = refl
  answer-apply_all (sets_name name) s = refl
  answer-apply_all (asks_symbols path) s = refl
  answer-apply_all (reads_memory h a n z) s = ground arith
  answer-apply_all (writes_memory h a bs) s = ground arith
  answer-apply_all (asks_region b h a) s = ground arith
  answer-apply_all (asks_regions h flags) s = ground arith
