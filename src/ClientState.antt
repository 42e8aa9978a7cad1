-- ===== src/ClientState.antt =====
-- ClientState.h and ClientState.cpp: the handles that clients hold, with the snapshot, the place in
-- it or the process that each stands for. One ClientState is shared by all connections. Each method
-- holds its mutex from its first line to its last, so it is one step here; a store that asks for a
-- fresh handle holds it twice, and is one step here too: ClientState/Threads has its two steps, with
-- those of other threads in between.
--
-- CE_HANDLE is `int`: a handle is kept as its bit pattern, below 2 ^ 32.
pub mod Handles
pub mod View
pub mod Enumeration
pub mod Threads
use ceserver_pcileech.Prelude.{
  ℕ, suc, ◌+◌, ◌%◌, ◌^◌, List, [], ◌∷◌, Bool, true, false, Option, none, some, ltb, leb, ◌==◌,
  if◌then◌else◌, length, get_elem?, ◌||◌, ◌-◌,
}
use ceserver_pcileech.Prelude.Maps.{Map, lookup, assign, erase, contains, insert, is_some, or_else}
use ceserver_pcileech.Memory.Region.{ProcessInfo, MemoryRegion}

pub record ClientState : Type 0 where
  pub last_handle_id : ℕ
  pub process_iter : Map ℕ
  pub module_iter : Map ℕ
  pub process_snapshots : Map (List ProcessInfo)
  pub module_snapshots : Map (List MemoryRegion)
  pub process_ids : Map ℕ

unfoldable pub init : ClientState
init = record {
  last_handle_id = 0;
  process_iter = [];
  module_iter = [];
  process_snapshots = [];
  module_snapshots = [];
  process_ids = [];
}

-- The sign-extended 64-bit pattern of a 32-bit one.
unfoldable pub sign_extend : ℕ → ℕ
sign_extend w = if ltb w (2 ^ 31) then w else w + (2 ^ 64 - 2 ^ 32)

-- `lastHandleID++`, and the reset to 0. The comparison with UINT64_MAX converts the `int` to 64
-- unsigned bits. An increment past INT_MAX is taken to wrap.
unfoldable pub generate_handle : ClientState → ℕ × ClientState
unfolding sign_extend
generate_handle s =
    let next = (s.last_handle_id + 1) % 2 ^ 32 in
    let id = if leb (2 ^ 64 - 1) (sign_extend next) || leb (2 ^ 31) next then 0 else next in
    (id, record s { last_handle_id = id })

unfoldable pub store_process_snapshot_at : List ProcessInfo → ℕ → ClientState → ℕ × ClientState
store_process_snapshot_at snapshot handle s = (
  handle,
  record s {
    process_snapshots = insert handle snapshot s.process_snapshots;
    process_iter = assign handle 0 s.process_iter;
  },
)

unfoldable pub store_process_snapshot : List ProcessInfo → ClientState → ℕ × ClientState
unfolding store_process_snapshot_at
store_process_snapshot snapshot s =
    let (handle, s') = generate_handle s in store_process_snapshot_at snapshot handle s'

unfoldable pub store_module_snapshot_at : List MemoryRegion → ℕ → ClientState → ℕ × ClientState
store_module_snapshot_at snapshot handle s = (
  handle,
  record s {
    module_snapshots = insert handle snapshot s.module_snapshots;
    module_iter = assign handle 0 s.module_iter;
  },
)

unfoldable pub store_module_snapshot : List MemoryRegion → ClientState → ℕ × ClientState
unfolding store_module_snapshot_at
store_module_snapshot snapshot s =
    let (handle, s') = generate_handle s in store_module_snapshot_at snapshot handle s'

unfoldable pub store_open_process_at : ℕ → ℕ → ClientState → ℕ × ClientState
store_open_process_at pid handle s =
    (handle, record s { process_ids = assign handle pid s.process_ids })

unfoldable pub store_open_process : ℕ → ClientState → ℕ × ClientState
unfolding store_open_process_at
store_open_process pid s =
    let (handle, s') = generate_handle s in store_open_process_at pid handle s'

unfoldable pub close_handle : ℕ → ClientState → ClientState
close_handle handle s = record s {
  process_snapshots = erase handle s.process_snapshots;
  module_snapshots = erase handle s.module_snapshots;
  process_iter = erase handle s.process_iter;
  module_iter = erase handle s.module_iter;
  process_ids = erase handle s.process_ids;
}

-- `m[k]` on a map of integers: a key that is missing is inserted with 0.
abbrev pub touch : ℕ → Map ℕ → Map ℕ
touch k m = insert k 0 m

-- `nextProcessInfo` and `nextMemoryRegion` on the two maps that they use: the entry at the place
-- of the iterator, which moves on by one, or nothing when the snapshot is missing or at its end.
-- The places stay far below 2 ^ 31, so `int32_t` and `size_t` agree on them.
module _ {A : Type 0} where
  unfoldable pub next_in : ℕ → Map (List A) → Map ℕ → Option A × Map ℕ
  next_in handle snapshots iter = elim (lookup handle snapshots) [
    | none ↦ (none, iter)
    | some entries ↦
        let i = or_else (lookup handle iter) 0 in
        if leb (length entries) i
        then (none, touch handle iter)
        else (get_elem? entries i, assign handle (i + 1) iter)
  ]

unfoldable pub next_process_info : ℕ → ClientState → Option ProcessInfo × ClientState
unfolding next_in
next_process_info handle s =
    let (entry, iter) = next_in handle s.process_snapshots s.process_iter in
    (entry, record s { process_iter = iter })

unfoldable pub next_memory_region : ℕ → ClientState → Option MemoryRegion × ClientState
unfolding next_in
next_memory_region handle s =
    let (entry, iter) = next_in handle s.module_snapshots s.module_iter in
    (entry, record s { module_iter = iter })

unfoldable pub reset_process_iterator : ℕ → ClientState → ClientState
reset_process_iterator handle s = record s { process_iter = assign handle 0 s.process_iter }

unfoldable pub reset_module_iterator : ℕ → ClientState → ClientState
reset_module_iterator handle s = record s { module_iter = assign handle 0 s.module_iter }

-- -1, as the bit pattern of an `int`.
abbrev pub minus_one : ℕ
minus_one = 2 ^ 32 - 1

unfoldable pub get_process_id : ℕ → ClientState → ℕ
get_process_id handle s = or_else (lookup handle s.process_ids) minus_one

-- `begin()->second` of the map, so the process that an entry holds and not its handle. Which entry
-- comes first is the standard library's choice: `first`.
unfoldable pub get_process_handle_legacy_ce : (Map ℕ → Option (ℕ × ℕ)) → ClientState → ℕ
get_process_handle_legacy_ce first s = elim (first s.process_ids) [
  | none ↦ minus_one
  | some (handle, pid) ↦ pid
]

unfoldable pub contains_process_info_handle : ℕ → ClientState → Bool
contains_process_info_handle handle s = contains handle s.process_snapshots

unfoldable pub contains_memory_region_handle : ℕ → ClientState → Bool
contains_memory_region_handle handle s = contains handle s.module_snapshots

unfoldable pub contains_process_id_handle : ℕ → ClientState → Bool
contains_process_id_handle handle s = contains handle s.process_ids

-- The calls that change the state.
pub data Op : Type 0 where
  stores_processes : List ProcessInfo → Op
  stores_modules : List MemoryRegion → Op
  opens_process closes : ℕ → Op
  takes_process takes_module resets_processes resets_modules : ℕ → Op

-- The calls that take a new handle.
abbrev pub is_store : Op → Bool
is_store (stores_processes _) = true
is_store (stores_modules _) = true
is_store (opens_process _) = true
is_store _ = false

-- How many calls take a new handle.
abbrev pub stores_in : List Op → ℕ
stores_in [] = 0
stores_in (op ∷ ops) = let rest = stores_in ops in if is_store op then suc rest else rest

unfoldable pub apply : Op → ClientState → ClientState
apply (stores_processes snapshot) s = (store_process_snapshot snapshot s).1
apply (stores_modules snapshot) s = (store_module_snapshot snapshot s).1
apply (opens_process pid) s = (store_open_process pid s).1
apply (closes handle) s = close_handle handle s
apply (takes_process handle) s = (next_process_info handle s).1
apply (takes_module handle) s = (next_memory_region handle s).1
apply (resets_processes handle) s = reset_process_iterator handle s
apply (resets_modules handle) s = reset_module_iterator handle s

unfoldable pub apply_all : List Op → ClientState → ClientState
apply_all [] s = s
apply_all (op ∷ ops) s = apply_all ops (apply op s)
