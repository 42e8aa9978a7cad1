-- ===== src/Memory/Device/Results.antt =====
-- What callers of class Memory get, and what it gives back to the library.
use ceserver_pcileech.Prelude.{
  ℕ, suc, ◌≤◌, ◌≡◌, ◌≢◌, refl, List, [], ◌∷◌, Bool, ◌==◌, if◌then◌else◌, Option, none, some, length,
  arith, Bool-cases, Option-cases, inl, inr,
}
use ceserver_pcileech.Memory.Region.{
  MemoryRegion, VadEntry, memory_region, default_name, if_empty, text_of,
}
use ceserver_pcileech.Memory.Device.{
  map_arguments, Device, PhysMemMap, Event, opened, closed, mapped, freed, written,
  generate_memory_map, check_map, get_module_snapshot, regions_of, Promised, get,
}

-- How often a run takes and gives back a handle, and a map.
abbrev pub handles_open : List Event → ℕ
handles_open [] = 0
handles_open (opened ∷ es) = suc (handles_open es)
handles_open (_ ∷ es) = handles_open es

abbrev pub handles_closed : List Event → ℕ
handles_closed [] = 0
handles_closed (closed ∷ es) = suc (handles_closed es)
handles_closed (_ ∷ es) = handles_closed es

abbrev pub maps_taken : List Event → ℕ
maps_taken [] = 0
maps_taken (mapped ∷ es) = suc (maps_taken es)
maps_taken (_ ∷ es) = maps_taken es

abbrev pub maps_freed : List Event → ℕ
maps_freed [] = 0
maps_freed (freed ∷ es) = suc (maps_freed es)
maps_freed (_ ∷ es) = maps_freed es

abbrev pub files_written : List Event → ℕ
files_written [] = 0
files_written (written _ ∷ es) = suc (files_written es)
files_written (_ ∷ es) = files_written es

-- Nothing stays open, and the file is written exactly when the result says so.
pub record IsBalanced (ok : Bool) (events : List Event) : Type 0 where
  pub handles : handles_closed events ≡ handles_open events
  pub maps : maps_freed events ≡ maps_taken events
  pub file : files_written events ≡ (if ok then 1 else 0)

module _ (d : Device) where
  check_map-IsBalanced :
      (h : d.Handle) (map : Option PhysMemMap) (s : d.State)
      → let r = (check_map d h map s).0 in IsBalanced r.0 (opened ∷ r.1)
  unfolding check_map
  check_map-IsBalanced h none s = record { handles = refl; maps = refl; file = refl }
  check_map-IsBalanced h (some map) s = elim (Bool-cases (map.version == d.physmem_version)) [
    | inr e ↦ rw e (record { handles = refl; maps = refl; file = refl })
    | inl e ↦ elim (Bool-cases (length map.parts == 0)) [
      | inl e' ↦ rw (e, e') (record { handles = refl; maps = refl; file = refl })
      | inr e' ↦ rw (e, e') (record { handles = refl; maps = refl; file = refl })
    ]
  ]

  -- On each of its paths `generateMemoryMap` closes the handle that it opened and frees the map that
  -- it was given, once each, and it writes the file exactly when it returns true.
  pub generate_memory_map-IsBalanced :
      (s : d.State) → IsBalanced (generate_memory_map d s).0.0 (generate_memory_map d s).0.1
  unfolding generate_memory_map
  generate_memory_map-IsBalanced s = elim (Option-cases (d.initialize map_arguments s).0) [
    | inl e ↦ rw (e, generate_memory_map) (record { handles = refl; maps = refl; file = refl })
    | inr (h, e) ↦
        rw (e, generate_memory_map)
          (check_map-IsBalanced h (d.get_phys_mem h (d.initialize map_arguments s).1).0
            (d.get_phys_mem h (d.initialize map_arguments s).1).1)
  ]

-- What the library documents of its reads: the count is not above the size.
pub record DeviceLaws (d : Device) : Type 0 where
  pub mem_read_ex-le :
      (pid address size : ℕ) (s : d.State) → (d.mem_read_ex pid address size s).0.0 ≤ size
  pub scatter_read-le :
      (h : d.ScatterHandle) (address size : ℕ) (s : d.State)
      → (d.scatter_read h address size s).0.0 ≤ size

-- All callers that wait for the same item get the same result: once one `get` has returned, each
-- later one returns the same and changes nothing.
pub get-get : (w w' : Promised) (r : ℕ × List ℕ) → get w ≡ some (r, w') → get w' ≡ some (r, w')
unfolding get
get-get w w' r e = ground arith

-- Every region has a name.
abbrev pub AllNamed : List MemoryRegion → Type 0
AllNamed [] = Unit
AllNamed (r ∷ rs) = (r.name ≢ []) × AllNamed rs

default_name-ne : (v : VadEntry) → default_name v ≢ []
unfolding default_name
default_name-ne v e = ground arith

if_empty-ne : (t u : List ℕ) → u ≢ [] → if_empty t u ≢ []
if_empty-ne [] u h e = h e
if_empty-ne (x ∷ xs) u h e = cc

regions_of-AllNamed : (vs : List VadEntry) → AllNamed (regions_of vs)
unfolding memory_region
regions_of-AllNamed [] = tt
regions_of-AllNamed (v ∷ vs) =
    (if_empty-ne (text_of v.usz_text) (default_name v) (default_name-ne v), regions_of-AllNamed vs)

-- No region of a snapshot has an empty name.
pub get_module_snapshot-AllNamed :
    (d : Device) (pid : ℕ) (s : d.State) → AllNamed (get_module_snapshot d pid s).0
unfolding get_module_snapshot
get_module_snapshot-AllNamed d pid s = elim (Option-cases (d.get_vad_u pid s).0) [
  | inl e ↦ rw (e, AllNamed, get_module_snapshot) tt
  | inr (vs, e) ↦ rw (e, AllNamed, get_module_snapshot) (regions_of-AllNamed vs)
]
