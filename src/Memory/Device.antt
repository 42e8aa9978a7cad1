-- ===== src/Memory/Device.antt =====
-- What class Memory asks of the device, and the results that it hands out. The device is a parameter
-- here: the calls that class Memory makes, with their results and the state that they leave. A failed
-- call is `none` or `false`. PciLeech/Device is the device that the program has.
pub mod Results
pub mod Reads
use ceserver_pcileech.Prelude.{
  ℕ, zero, suc, ◌+◌, ◌-◌, ◌%◌, ◌^◌, List, [], ◌∷◌, ◌++◌, Bool, true, false, not, ◌==◌, leb,
  if◌then◌else◌, Option, none, some, length, take,
}
use ceserver_pcileech.Prelude.Bytes.{codes}
use ceserver_pcileech.Memory.Region.{
  ProcessInfo, ThreadInfo, VadEntry, MemoryRegion, memory_region, MemoryModel, unknown, na, x86pae,
  arm64, x64, x86,
}
use ceserver_pcileech.Memory.Backlog.{BacklogItem}

-- A map of the physical memory: the version of its layout, and the address and length of each part.
pub record PhysMemMap : Type 0 where
  pub version : ℕ
  pub parts : List (ℕ × ℕ)

pub record Device : Type 1 where
  pub State : Type 0
  -- Open handles of the library, and of its scatter reads.
  pub Handle : Type 0
  pub ScatterHandle : Type 0
  -- The file for the map, by the path that class Memory is made with.
  pub mmap_path : List ℕ
  pub initialize : List (List ℕ) → State → Option Handle × State
  pub close : Handle → State → State
  pub get_phys_mem : Handle → State → Option PhysMemMap × State
  pub mem_free : State → State
  pub physmem_version : ℕ
  -- The number of processes, and a list of up to so many.
  pub pid_count : State → Option ℕ × State
  pub pid_list : ℕ → State → Option (List ℕ) × State
  pub user_image_path : ℕ → State → Option (List ℕ) × State
  pub get_vad_u : ℕ → State → Option (List VadEntry) × State
  pub get_thread : ℕ → State → Option (List ThreadInfo) × State
  -- Process, address and size. The result is the count of bytes read, and what the buffer holds that
  -- was all zero before.
  pub mem_read_ex : ℕ → ℕ → ℕ → State → (ℕ × List ℕ) × State
  pub mem_write : List ℕ → ℕ → ℕ → ℕ → State → Bool × State
  pub scatter_initialize : ℕ → State → ScatterHandle × State
  pub scatter_prepare : ScatterHandle → ℕ → ℕ → State → Bool × State
  pub scatter_execute : ScatterHandle → State → Bool × State
  pub scatter_read : ScatterHandle → ℕ → ℕ → State → (ℕ × List ℕ) × State
  pub scatter_close_handle : ScatterHandle → State → State
  -- `tpMemoryModel` of a process, and the names of its values.
  pub memory_model_of : ℕ → State → Option ℕ × State
  pub memorymodel_na : ℕ
  pub memorymodel_x86pae : ℕ
  pub memorymodel_arm64 : ℕ
  pub memorymodel_x64 : ℕ
  pub memorymodel_x86 : ℕ

-- What `generateMemoryMap` does that others see.
pub data Event : Type 0 where
  opened closed mapped freed : Event
  -- The lines of the file: the number, the first and the last address.
  written : List (ℕ × (ℕ × ℕ)) → Event

abbrev pub map_lines : ℕ → List (ℕ × ℕ) → List (ℕ × (ℕ × ℕ))
map_lines i [] = []
map_lines i ((pa, cb) ∷ parts) =
    (i, (pa, (pa + cb + 2 ^ 64 - 1) % 2 ^ 64)) ∷ map_lines (i + 1) parts

abbrev pub regions_of : List VadEntry → List MemoryRegion
regions_of [] = []
regions_of (v ∷ vs) = memory_region v ∷ regions_of vs

-- The arguments of the library for the map, and for the reads by it.
abbrev pub map_arguments : List (List ℕ)
map_arguments = [] ∷ codes "-v" ∷ codes "-printf" ∷ codes "-device" ∷ codes "fpga://algo=0" ∷ []

abbrev pub memory_arguments : List ℕ → List (List ℕ)
memory_arguments path =
    codes "-printf" ∷ codes "-v" ∷ codes "-device" ∷ codes "fpga" ∷ codes "-memmap" ∷ path ∷ []

module _ (d : Device) where
  -- The checks of the map, behind a handle that is open.
  unfoldable pub check_map : d.Handle → Option PhysMemMap → d.State → (Bool × List Event) × d.State
  check_map h none s = ((false, closed ∷ []), d.close h s)
  check_map h (some map) s =
      let released = d.close h (d.mem_free s) in
      if not (map.version == d.physmem_version)
      then ((false, mapped ∷ freed ∷ closed ∷ []), released)
      else if length map.parts == 0
      then ((false, mapped ∷ freed ∷ closed ∷ []), released)
      else ((true, mapped ∷ written (map_lines 0 map.parts) ∷ freed ∷ closed ∷ []), released)

  unfoldable pub generate_memory_map : d.State → (Bool × List Event) × d.State
  generate_memory_map s =
      let (handle, s) = d.initialize map_arguments s in
      elim handle [
        | none ↦ ((false, []), s)
        | some h ↦
            let (map, s) = d.get_phys_mem h s in
            let ((ok, events), s) = check_map h map s in ((ok, opened ∷ events), s)
      ]

  -- The loop over the processes: one with no path is left out.
  unfoldable pub named_processes : List ℕ → d.State → List ProcessInfo × d.State
  named_processes [] s = ([], s)
  named_processes (pid ∷ pids) s =
      let (name, s) = d.user_image_path pid s in
      let (infos, s) = named_processes pids s in
      (elim name [ some n ↦ record { name = n; pid = pid } ∷ infos | none ↦ infos ], s)

  unfoldable pub get_process_snapshot : d.State → List ProcessInfo × d.State
  get_process_snapshot s =
      let (count, s) = d.pid_count s in
      elim count [
        | none ↦ ([], s)
        | some n ↦
            let (pids, s) = d.pid_list n s in
            elim pids [
              | none ↦ ([], s)
              | some pids ↦ let (infos, s) = named_processes pids s in (infos, d.mem_free s)
            ]
      ]

  unfoldable pub get_module_snapshot : ℕ → d.State → List MemoryRegion × d.State
  get_module_snapshot pid s =
      let (map, s) = d.get_vad_u pid s in
      elim map [ none ↦ ([], s) | some vads ↦ (regions_of vads, d.mem_free s) ]

  unfoldable pub get_thread_snapshot : ℕ → d.State → List ThreadInfo × d.State
  get_thread_snapshot pid s =
      let (map, s) = d.get_thread pid s in
      elim map [ none ↦ ([], s) | some threads ↦ (threads, d.mem_free s) ]

  -- -1 is a size_t. The size is a DWORD in the call.
  unfoldable pub write : List ℕ → ℕ → ℕ → ℕ → d.State → ℕ × d.State
  write buffer pid address size s =
      let (ok, s) = d.mem_write buffer pid address (size % 2 ^ 32) s in
      (if ok then size else 2 ^ 64 - 1, s)

  unfoldable pub get_memory_model : ℕ → d.State → MemoryModel × d.State
  get_memory_model pid s =
      let (model, s) = d.memory_model_of pid s in
      (
        elim model [
          | none ↦ unknown
          | some t ↦
              if t == d.memorymodel_na
              then na
              else if t == d.memorymodel_x86pae
              then x86pae
              else if t == d.memorymodel_arm64
              then arm64
              else if t == d.memorymodel_x64
              then x64
              else if t == d.memorymodel_x86
              then x86
              else unknown
        ],
        s,
      )

  -- The first branch of `dispatch`: what each promise is set to.
  unfoldable pub sequential_read : ℕ → List BacklogItem → d.State → List (ℕ × List ℕ) × d.State
  sequential_read pid [] s = ([], s)
  sequential_read pid (item ∷ items) s =
      let (result, s) = d.mem_read_ex pid item.address (item.size % 2 ^ 32) s in
      let (results, s) = sequential_read pid items (d.mem_free s) in (result ∷ results, s)

  unfoldable pub prepare_all : d.ScatterHandle → List BacklogItem → d.State → d.State
  prepare_all h [] s = s
  prepare_all h (item ∷ items) s =
      prepare_all h items (d.scatter_prepare h item.address (item.size % 2 ^ 32) s).1

  unfoldable pub read_all :
      d.ScatterHandle → List BacklogItem → d.State → List (ℕ × List ℕ) × d.State
  read_all h [] s = ([], s)
  read_all h (item ∷ items) s =
      let (result, s) = d.scatter_read h item.address (item.size % 2 ^ 32) s in
      let (results, s) = read_all h items s in (result ∷ results, s)

  -- The second branch. Failures are only logged.
  unfoldable pub scatter_reads : ℕ → List BacklogItem → d.State → List (ℕ × List ℕ) × d.State
  scatter_reads pid items s =
      let (h, s) = d.scatter_initialize pid s in
      let s = (d.scatter_execute h (prepare_all h items s)).1 in
      let (results, s) = read_all h items s in (results, d.scatter_close_handle h s)

  -- The items in the order of iteration over the dispatch buffer.
  unfoldable pub dispatch : ℕ → List BacklogItem → d.State → List (ℕ × List ℕ) × d.State
  dispatch pid items s =
      if leb (length items) 1 then sequential_read pid items s else scatter_reads pid items s

-- An item with its promise: what it was set to, and what the first `get` took from it.
pub record Promised : Type 0 where
  pub item : BacklogItem
  pub promise : Option (ℕ × List ℕ)
  pub taken : Option (ℕ × List ℕ)

abbrev take_promise : ℕ × List ℕ → Promised → (ℕ × List ℕ) × Promised
take_promise (read, bytes) w =
    ((read, take w.item.size bytes), record w { taken = some (read, take w.item.size bytes) })

-- `BacklogItem::get`: the first caller waits for the promise and copies its bytes, later ones get
-- the copy. `none` is a wait that goes on.
unfoldable pub get : Promised → Option ((ℕ × List ℕ) × Promised)
get w = elim w.taken [
  | some r ↦ some (r, w)
  | none ↦ elim w.promise [ none ↦ none | some p ↦ some (take_promise p w) ]
]

-- The end of `read`: the bytes that go to the caller's buffer.
unfoldable pub copied : ℕ × List ℕ → List ℕ
copied (read, bytes) = take read bytes
