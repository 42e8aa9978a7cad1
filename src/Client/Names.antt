-- ===== src/Client/Names.antt =====
-- The names of processes and of regions in the shared state, as they come from the device: a property
-- of texts that the names of the device's lists have is one that the names in the snapshots keep.
pub mod Entries
use ceserver_pcileech.Prelude.{
  ℕ, ◌≡◌, List, [], ◌∷◌, Bool, true, false, if◌then◌else◌, ◌==◌, some, Option-cases, Bool-cases,
  inl, inr, subst, sym, arith,
}
use ceserver_pcileech.Prelude.Maps.{Map, lookup, insert, erase, lookup-insert, lookup-erase}
use ceserver_pcileech.Memory.Region.{ProcessInfo, MemoryRegion}
use ceserver_pcileech.ClientState
use ceserver_pcileech.ClientState.{
  ClientState, Op, apply, apply_all, init, stores_processes, stores_modules, closes, takes_process,
  takes_module, resets_processes, resets_modules, next_in, next_process_info, next_memory_region,
  contains_process_info_handle, contains_memory_region_handle,
}
use ceserver_pcileech.Machine.{Machine}
use ceserver_pcileech.Client.Facts.{Facts}
use ceserver_pcileech.Client.Protection.{has_bits}
use ceserver_pcileech.Client.Snapshots.{th32cs_snapprocess, th32cs_snapmodule, th32cs_snapthread}
use ceserver_pcileech.Client.Spec.{
  Request, answer, makes_snapshot, makes_snapshot_ex, asks_process, asks_module, closes_handle,
  opens_process, starts_debug, asks_version, asks_abi, asks_options, closes_connection,
  terminates_server, sets_name, asks_symbols, reads_memory, writes_memory, asks_region,
  asks_regions,
}
use ceserver_pcileech.Client.Effects.{effects, answer-apply_all}

-- Every value of a map.
abbrev pub Everywhere : {A : Type 0} → (A → Type 0) → Map A → Type 0
Everywhere {A} P m = (h : ℕ) (a : A) → lookup h m ≡ some a → P a

Everywhere-insert :
    {A : Type 0} (P : A → Type 0) (k : ℕ) (v : A) (m : Map A)
    → P v
    → Everywhere P m
    → Everywhere P (insert k v m)
Everywhere-insert P k v m p all h a e = elim (Bool-cases (k == h)) [
  | inl same ↦ elim (Option-cases (lookup k m)) [
    | inl missing ↦ subst P (ground (arith, lookup-insert h k v m)) p
    | inr (b, found) ↦ all k a (ground (arith, lookup-insert h k v m))
  ]
  | inr other ↦ all h a (ground (arith, lookup-insert h k v m))
]

Everywhere-erase :
    {A : Type 0} (P : A → Type 0) (k : ℕ) (m : Map A) → Everywhere P m → Everywhere P (erase k m)
Everywhere-erase P k m all h a e = all h a (ground (arith, lookup-erase h k m))

-- Every name of a list is such a text.
abbrev pub AllNamed {ℓ} : {A : Type ℓ} → (List ℕ → Type 0) → (A → List ℕ) → List A → Type 0
AllNamed IsName name [] = Unit
AllNamed IsName name (x ∷ xs) = IsName (name x) × AllNamed IsName name xs

pub record NamesAre (IsName : List ℕ → Type 0) (s : ClientState) : Type 0 where
  pub processes : Everywhere (AllNamed IsName (λ (p : ProcessInfo). p.name)) s.process_snapshots
  pub regions : Everywhere (AllNamed IsName (λ (r : MemoryRegion). r.name)) s.module_snapshots

pub record NameLaws (IsName : List ℕ → Type 0) (m : Machine) : Type 0 where
  pub process_names : (d : m.Mem) → AllNamed IsName (λ p. p.name) (m.get_process_snapshot d).0
  pub region_names :
      (pid : ℕ) (d : m.Mem) → AllNamed IsName (λ r. r.name) (m.get_module_snapshot pid d).0

module _ (IsName : List ℕ → Type 0) where
  abbrev pub OpNamed : Op → Type 0
  OpNamed (stores_processes snapshot) = AllNamed IsName (λ p. p.name) snapshot
  OpNamed (stores_modules snapshot) = AllNamed IsName (λ r. r.name) snapshot
  OpNamed _ = Unit

  pub init-NamesAre : NamesAre IsName init
  unfolding init lookup
  init-NamesAre = record { processes = λ h a e. cc; regions = λ h a e. cc }

  pub apply-NamesAre :
      (op : Op) (s : ClientState) → OpNamed op → NamesAre IsName s → NamesAre IsName (apply op s)
  unfolding apply ceserver_pcileech.ClientState.store_process_snapshot
      ceserver_pcileech.ClientState.store_module_snapshot
      ceserver_pcileech.ClientState.store_open_process ceserver_pcileech.ClientState.close_handle
      ceserver_pcileech.ClientState.generate_handle next_process_info next_memory_region
      ceserver_pcileech.ClientState.reset_process_iterator
      ceserver_pcileech.ClientState.reset_module_iterator
  apply-NamesAre (stores_processes snapshot) s named n = record {
    processes = Everywhere-insert _ _ snapshot s.process_snapshots named n.processes;
    regions = n.regions;
  }
  apply-NamesAre (stores_modules snapshot) s named n = record {
    processes = n.processes;
    regions = Everywhere-insert _ _ snapshot s.module_snapshots named n.regions;
  }
  apply-NamesAre (ceserver_pcileech.ClientState.opens_process pid) s named n = record {
    processes = n.processes;
    regions = n.regions;
  }
  apply-NamesAre (closes h) s named n = record {
    processes = Everywhere-erase _ h s.process_snapshots n.processes;
    regions = Everywhere-erase _ h s.module_snapshots n.regions;
  }
  apply-NamesAre (takes_process h) s named n = record {
    processes = n.processes;
    regions = n.regions;
  }
  apply-NamesAre (takes_module h) s named n = record {
    processes = n.processes;
    regions = n.regions;
  }
  apply-NamesAre (resets_processes h) s named n = record {
    processes = n.processes;
    regions = n.regions;
  }
  apply-NamesAre (resets_modules h) s named n = record {
    processes = n.processes;
    regions = n.regions;
  }

  abbrev AllOpNamed : List Op → Type 0
  AllOpNamed [] = Unit
  AllOpNamed (op ∷ ops) = OpNamed op × AllOpNamed ops

  apply_all-NamesAre :
      (ops : List Op) (s : ClientState)
      → AllOpNamed ops
      → NamesAre IsName s
      → NamesAre IsName (apply_all ops s)
  unfolding apply_all
  apply_all-NamesAre [] s named n = n
  apply_all-NamesAre (op ∷ ops) s (first, named) n =
      apply_all-NamesAre ops (apply op s) named (apply-NamesAre op s first n)

  if-AllOpNamed :
      (b : Bool) (xs ys : List Op)
      → AllOpNamed xs
      → AllOpNamed ys
      → AllOpNamed (if b then xs else ys)
  if-AllOpNamed true xs ys p q = p
  if-AllOpNamed false xs ys p q = q

  module _ {m : Machine} (laws : NameLaws IsName m) where
    effects-AllOpNamed : (r : Request) (s : Facts m) → AllOpNamed (effects r s)
    effects-AllOpNamed (makes_snapshot flags pid) s =
        if-AllOpNamed (has_bits flags th32cs_snapprocess) _ _ (laws.process_names s.mem, tt)
          (if-AllOpNamed (has_bits flags th32cs_snapmodule) _ _ (laws.region_names pid s.mem, tt)
            tt)
    effects-AllOpNamed (makes_snapshot_ex flags pid) s =
        if-AllOpNamed (has_bits flags th32cs_snapthread) _ _ tt
          (if-AllOpNamed (has_bits flags th32cs_snapmodule) _ _ tt (laws.process_names s.mem, tt))
    effects-AllOpNamed (asks_process b h) s =
        if-AllOpNamed (contains_process_info_handle h s.state) _ _
          (if-AllOpNamed b _ _ (tt, (tt, tt)) (tt, tt)) tt
    effects-AllOpNamed (asks_module b h) s =
        if-AllOpNamed (contains_memory_region_handle h s.state) _ _
          (if-AllOpNamed b _ _ (tt, (tt, tt)) (tt, tt)) tt
    effects-AllOpNamed (closes_handle h) s = (tt, tt)
    effects-AllOpNamed (opens_process pid) s = (tt, tt)
    effects-AllOpNamed (starts_debug h) s = tt
    effects-AllOpNamed asks_version s = tt
    effects-AllOpNamed asks_abi s = tt
    effects-AllOpNamed asks_options s = tt
    effects-AllOpNamed closes_connection s = tt
    effects-AllOpNamed terminates_server s = tt
    effects-AllOpNamed (sets_name name) s = tt
    effects-AllOpNamed (asks_symbols path) s = tt
    effects-AllOpNamed (reads_memory h a n z) s = tt
    effects-AllOpNamed (writes_memory h a bs) s = tt
    effects-AllOpNamed (asks_region b h a) s = tt
    effects-AllOpNamed (asks_regions h flags) s = tt

    pub answer-NamesAre :
        (r : Request) (s : Facts m) → NamesAre IsName s.state → NamesAre IsName (answer r s).1.state
    answer-NamesAre r s n =
        subst (NamesAre IsName) (sym (answer-apply_all r s))
          (apply_all-NamesAre (effects r s) s.state (effects-AllOpNamed r s) n)
