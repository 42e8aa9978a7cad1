-- ===== src/ClientState/View.antt =====
-- What a ClientState promises: a store of handles, where each handle stands for a list of processes
-- with a place in it, a list of regions with a place in it, or an opened process. The five
-- maps of the source implement it.
use ceserver_pcileech.Prelude.{
  ℕ, ◌+◌, ◌<◌, ◌^◌, ◌≡◌, refl, false, List, Option, none, some, arith, length, leb, ◌==◌,
  if◌then◌else◌, get_elem?, Option-cases, inl, inr, get_elem?_ge,
}
use ceserver_pcileech.Prelude.Maps.{lookup, or_else, lookup-assign, lookup-insert, lookup-erase}
use ceserver_pcileech.Memory.Region.{ProcessInfo, MemoryRegion}
use ceserver_pcileech.ClientState.{
  ClientState, Op, is_store, store_process_snapshot, store_module_snapshot, store_open_process,
  close_handle, next_in, next_process_info, next_memory_region, reset_process_iterator,
  reset_module_iterator, apply, stores_processes, stores_modules, opens_process, closes,
  takes_process, takes_module, resets_processes, resets_modules,
}
use ceserver_pcileech.ClientState.Handles.{IsValid, generate_handle_lem}

pub data Entry : Type 0 where
  processes : List ProcessInfo → ℕ → Entry
  modules : List MemoryRegion → ℕ → Entry
  process : ℕ → Entry

-- What a handle stands for.
unfoldable pub view : ClientState → ℕ → Option Entry
view s h = elim (lookup h s.process_snapshots) [
  | some xs ↦ some (processes xs (or_else (lookup h s.process_iter) 0))
  | none ↦ elim (lookup h s.module_snapshots) [
    | some rs ↦ some (modules rs (or_else (lookup h s.module_iter) 0))
    | none ↦ elim (lookup h s.process_ids) [ some pid ↦ some (process pid) | none ↦ none ]
  ]
]

-- The handle that a call changes; a call that stores takes the fresh one.
abbrev pub target : Op → ℕ → ℕ
target (stores_processes _) fresh = fresh
target (stores_modules _) fresh = fresh
target (opens_process _) fresh = fresh
target (closes h) fresh = h
target (takes_process h) fresh = h
target (takes_module h) fresh = h
target (resets_processes h) fresh = h
target (resets_modules h) fresh = h

abbrev advance : {A : Type 0} → List A → ℕ → ℕ
advance xs i = if leb (length xs) i then i else i + 1

abbrev next_process : Option Entry → Option Entry
next_process (some (processes xs i)) = some (processes xs (advance xs i))
next_process e = e

abbrev next_module : Option Entry → Option Entry
next_module (some (modules rs i)) = some (modules rs (advance rs i))
next_module e = e

abbrev first_process : Option Entry → Option Entry
first_process (some (processes xs i)) = some (processes xs 0)
first_process e = e

abbrev first_module : Option Entry → Option Entry
first_module (some (modules rs i)) = some (modules rs 0)
first_module e = e

-- What the call makes of it.
abbrev pub change : Op → Option Entry → Option Entry
change (stores_processes xs) e = some (processes xs 0)
change (stores_modules rs) e = some (modules rs 0)
change (opens_process pid) e = some (process pid)
change (closes _) e = none
change (takes_process _) e = next_process e
change (takes_module _) e = next_module e
change (resets_processes _) e = first_process e
change (resets_modules _) e = first_module e

-- A call that takes no handle acts on the store as its specification says.
pub view-call :
    (op : Op) (s : ClientState) (j : ℕ)
    → is_store op ≡ false
    → view (apply op s) j ≡ (if target op 0 == j then change op (view s j) else view s j)
unfolding view apply
view-call (closes h) s j e =
    unfold close_handle in
    ground (
      arith,
      lookup-erase j h s.process_snapshots,
      lookup-erase j h s.module_snapshots,
      lookup-erase j h s.process_ids,
      lookup-erase j h s.process_iter,
      lookup-erase j h s.module_iter,
    )
view-call (takes_process h) s j e =
    unfold next_process_info next_in in
    ground (
      arith,
      lookup-insert j h 0 s.process_iter,
      lookup-assign j h (or_else (lookup h s.process_iter) 0 + 1) s.process_iter,
    )
view-call (takes_module h) s j e =
    unfold next_memory_region next_in in
    ground (
      arith,
      lookup-insert j h 0 s.module_iter,
      lookup-assign j h (or_else (lookup h s.module_iter) 0 + 1) s.module_iter,
    )
view-call (resets_processes h) s j e =
    unfold reset_process_iterator in ground (arith, lookup-assign j h 0 s.process_iter)
view-call (resets_modules h) s j e =
    unfold reset_module_iterator in ground (arith, lookup-assign j h 0 s.module_iter)
view-call _ s j e = cc

-- In a valid state whose counter is below INT_MAX, every call acts on the store as its
-- specification says: it changes the entry of one handle and no other, and a call that stores
-- takes the number behind the last handle.
pub view-apply :
    (op : Op) (s : ClientState) (j : ℕ)
    → s.last_handle_id + 1 < 2 ^ 31
    → IsValid s
    → view (apply op s) j ≡ (
        let k = target op (s.last_handle_id + 1) in
        if k == j then change op (view s j) else view s j)
unfolding view apply
view-apply (stores_processes xs) s j room v =
    unfold store_process_snapshot in
    rw (generate_handle_lem s room) (
      ground (
        arith,
        lookup-insert j (s.last_handle_id + 1) xs s.process_snapshots,
        lookup-assign j (s.last_handle_id + 1) 0 s.process_iter,
        v.processes_below (s.last_handle_id + 1),
      ))
view-apply (stores_modules rs) s j room v =
    unfold store_module_snapshot in
    rw (generate_handle_lem s room) (
      ground (
        arith,
        lookup-insert j (s.last_handle_id + 1) rs s.module_snapshots,
        lookup-assign j (s.last_handle_id + 1) 0 s.module_iter,
        v.processes_below (s.last_handle_id + 1),
        v.modules_below (s.last_handle_id + 1),
      ))
view-apply (opens_process pid) s j room v =
    unfold store_open_process in
    rw (generate_handle_lem s room) (
      ground (
        arith,
        lookup-assign j (s.last_handle_id + 1) pid s.process_ids,
        v.processes_below (s.last_handle_id + 1),
        v.modules_below (s.last_handle_id + 1),
      ))
view-apply op s j room v = view-call op s j refl

-- The process that a list yields next.
abbrev pub current_process : Option Entry → Option ProcessInfo
current_process (some (processes xs i)) = get_elem? xs i
current_process _ = none

-- The region that a list yields next.
abbrev pub current_module : Option Entry → Option MemoryRegion
current_module (some (modules rs i)) = get_elem? rs i
current_module _ = none

-- `nextProcessInfo` returns the entry at the handle's place in its list of processes; at the end of
-- the list and at any other handle it returns a null pointer.
pub next_process_info-view :
    (h : ℕ) (s : ClientState) → (next_process_info h s).0 ≡ current_process (view s h)
unfolding view next_process_info next_in
next_process_info-view h s = elim (Option-cases (lookup h s.process_snapshots)) [
  | inl e ↦ ground arith
  | inr (xs, e) ↦ ground (arith, get_elem?_ge xs (or_else (lookup h s.process_iter) 0))
]

-- In a valid state `nextMemoryRegion` returns the entry at the handle's place in its list of
-- regions; at the end of the list and at any other handle it returns a null pointer.
pub next_memory_region-view :
    (h : ℕ) (s : ClientState) → IsValid s → (next_memory_region h s).0 ≡ current_module (view s h)
unfolding view next_memory_region next_in
next_memory_region-view h s v = elim (Option-cases (lookup h s.module_snapshots)) [
  | inl e ↦ ground (arith, v.processes_modules h)
  | inr (rs, e) ↦
      ground (arith, v.processes_modules h, get_elem?_ge rs (or_else (lookup h s.module_iter) 0))
]

-- In a valid state `nextProcessInfo` and `nextMemoryRegion` return the entry at the handle's place in
-- its list of processes or of regions; at the end of the list and at any other handle they return a
-- null pointer.
pub next_entry_lem :
    (h : ℕ) (s : ClientState)
    → IsValid s
    → ((next_process_info h s).0 ≡ current_process (view s h))
      × ((next_memory_region h s).0 ≡ current_module (view s h))
next_entry_lem h s v = (next_process_info-view h s, next_memory_region-view h s v)
