-- ===== src/Client/Names/Entries.antt =====
-- What a walk through a snapshot finds, and where it begins again.
use ceserver_pcileech.Prelude.{
  ℕ, zero, suc, List, [], ◌∷◌, Bool, true, false, if◌then◌else◌, leb, Option, none, some,
  Option-cases, Bool-cases, inl, inr, length, get_elem?, subst, arith,
}
use ceserver_pcileech.Prelude.Maps.{Map, lookup, or_else}
use ceserver_pcileech.Memory.Region.{ProcessInfo, MemoryRegion}
use ceserver_pcileech.ClientState.{reset_process_iterator, reset_module_iterator}
use ceserver_pcileech.ClientState.{
  ClientState, apply, resets_processes, resets_modules, next_in, next_process_info,
  next_memory_region,
}
use ceserver_pcileech.Client.Names.{AllNamed, Everywhere, NamesAre, apply-NamesAre}

-- An entry that a walk finds has such a name.
abbrev pub EntryNamed : {A : Type 0} → (List ℕ → Type 0) → (A → List ℕ) → Option A → Type 0
EntryNamed IsName name none = Unit
EntryNamed IsName name (some x) = IsName (name x)

module _ (IsName : List ℕ → Type 0) where
  get_elem?-EntryNamed :
      {A : Type 0} (name : A → List ℕ) (xs : List A) (i : ℕ)
      → AllNamed IsName name xs
      → EntryNamed IsName name (get_elem? xs i)
  get_elem?-EntryNamed name [] i named = tt
  get_elem?-EntryNamed name (y ∷ ys) zero (first, named) = first
  get_elem?-EntryNamed name (y ∷ ys) (suc i) (first, named) = get_elem?-EntryNamed name ys i named

  next_in-EntryNamed :
      {A : Type 0} (name : A → List ℕ) (h : ℕ) (snapshots : Map (List A)) (iter : Map ℕ)
      → Everywhere (AllNamed IsName name) snapshots
      → EntryNamed IsName name (next_in h snapshots iter).0
  unfolding next_in
  next_in-EntryNamed name h snapshots iter all = elim (Option-cases (lookup h snapshots)) [
    | inl missing ↦ subst (EntryNamed IsName name) {x = none} (ground arith) tt
    | inr (entries, found) ↦
        let i = or_else (lookup h iter) 0 in
        elim (Bool-cases (leb (length entries) i)) [
          | inl past ↦ subst (EntryNamed IsName name) {x = none} (ground arith) tt
          | inr within ↦
              subst (EntryNamed IsName name) (ground arith)
                (get_elem?-EntryNamed name entries i (all h entries found))
        ]
  ]

  pub next_process_info-EntryNamed :
      (h : ℕ) (s : ClientState)
      → NamesAre IsName s
      → EntryNamed IsName (λ (p : ProcessInfo). p.name) (next_process_info h s).0
  unfolding next_process_info
  next_process_info-EntryNamed h s n =
      next_in-EntryNamed (λ p. p.name) h s.process_snapshots s.process_iter n.processes

  pub next_memory_region-EntryNamed :
      (h : ℕ) (s : ClientState)
      → NamesAre IsName s
      → EntryNamed IsName (λ (r : MemoryRegion). r.name) (next_memory_region h s).0
  unfolding next_memory_region
  next_memory_region-EntryNamed h s n =
      next_in-EntryNamed (λ r. r.name) h s.module_snapshots s.module_iter n.regions

  -- A walk that begins again has the same snapshots.
  pub process-restarted :
      (b : Bool) (h : ℕ) (s : ClientState)
      → NamesAre IsName s
      → NamesAre IsName (if b then reset_process_iterator h s else s)
  unfolding apply
  process-restarted true h s n = apply-NamesAre IsName (resets_processes h) s tt n
  process-restarted false h s n = n

  pub module-restarted :
      (b : Bool) (h : ℕ) (s : ClientState)
      → NamesAre IsName s
      → NamesAre IsName (if b then reset_module_iterator h s else s)
  unfolding apply
  module-restarted true h s n = apply-NamesAre IsName (resets_modules h) s tt n
  module-restarted false h s n = n
