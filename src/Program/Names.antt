-- ===== src/Program/Names.antt =====
-- The names that class Memory hands to a Client: a property of texts that those of the device have.
use ceserver_pcileech.Prelude.{
  ℕ, ◌≡◌, refl, List, [], ◌∷◌, Option, none, some, Option-cases, inl, inr, subst, arith,
}
use ceserver_pcileech.Memory.Region.{
  ProcessInfo, VadEntry, memory_region, default_name, if_empty, text_of,
}
use ceserver_pcileech.Memory.Device.{
  Device, named_processes, get_process_snapshot, get_module_snapshot, regions_of,
}
use ceserver_pcileech.Client.Names.{AllNamed}

-- The text of a region's entry, empty where there is none.
abbrev pub vad_text : VadEntry → List ℕ
vad_text e = text_of e.usz_text

-- The paths and the texts of a device, and the names of regions without a text.
pub record DeviceNames (IsName : List ℕ → Type 0) (d : Device) : Type 0 where
  pub path :
      (pid : ℕ) (s : d.State) (name : List ℕ)
      → (d.user_image_path pid s).0 ≡ some name
      → IsName name
  pub texts :
      (pid : ℕ) (s : d.State) (vads : List VadEntry)
      → (d.get_vad_u pid s).0 ≡ some vads
      → AllNamed IsName vad_text vads
  pub default : (v : VadEntry) → IsName (default_name v)

module _ (IsName : List ℕ → Type 0) where
  if_empty-named : (text other : List ℕ) → IsName text → IsName other → IsName (if_empty text other)
  if_empty-named [] other p q = q
  if_empty-named (c ∷ cs) other p q = p

  -- Cases on what a call of the device returned.
  path-AllNamed :
      (pid : ℕ) (infos : List ProcessInfo) (o : Option (List ℕ))
      → ((n : List ℕ) → o ≡ some n → IsName n)
      → AllNamed IsName (λ p. p.name) infos
      → AllNamed IsName
          (λ p. p.name)
          (elim o as (λ _. List ProcessInfo) [
            | none ↦ infos
            | some n ↦ record { name = n; pid = pid } ∷ infos
          ])
  path-AllNamed pid infos none named others = others
  path-AllNamed pid infos (some n) named others = (named n refl, others)

module _ (IsName : List ℕ → Type 0) (d : Device) (names : DeviceNames IsName d) where
  regions_of-AllNamed :
      (vads : List VadEntry)
      → AllNamed IsName vad_text vads
      → AllNamed IsName (λ r. r.name) (regions_of vads)
  unfolding memory_region
  regions_of-AllNamed [] named = tt
  regions_of-AllNamed (v ∷ vs) (first, named) = (
    if_empty-named IsName (vad_text v) (default_name v) first (names.default v),
    regions_of-AllNamed vs named,
  )

  named_processes-AllNamed :
      (pids : List ℕ) (s : d.State) → AllNamed IsName (λ p. p.name) (named_processes d pids s).0
  unfolding named_processes
  named_processes-AllNamed [] s = tt
  named_processes-AllNamed (pid ∷ pids) s =
      let (name, s') = d.user_image_path pid s in
      path-AllNamed IsName pid (named_processes d pids s').0 name (names.path pid s)
        (named_processes-AllNamed pids s')

  pub process_snapshot-AllNamed :
      (s : d.State) → AllNamed IsName (λ p. p.name) (get_process_snapshot d s).0
  unfolding get_process_snapshot
  process_snapshot-AllNamed s =
      let (count, s1) = d.pid_count s in
      elim (Option-cases count) [
        | inl e ↦ subst (AllNamed IsName (λ p. p.name)) {x = []} (ground arith) tt
        | inr (n, e) ↦
            let (pids, s2) = d.pid_list n s1 in
            elim (Option-cases pids) [
              | inl e' ↦ subst (AllNamed IsName (λ p. p.name)) {x = []} (ground arith) tt
              | inr (ps, e') ↦
                  subst (AllNamed IsName (λ p. p.name)) (ground arith)
                    (named_processes-AllNamed ps s2)
            ]
      ]

  pub module_snapshot-AllNamed :
      (pid : ℕ) (s : d.State) → AllNamed IsName (λ r. r.name) (get_module_snapshot d pid s).0
  unfolding get_module_snapshot
  module_snapshot-AllNamed pid s = elim (Option-cases (d.get_vad_u pid s).0) [
    | inl e ↦ subst (AllNamed IsName (λ r. r.name)) {x = []} (ground arith) tt
    | inr (vads, e) ↦
        subst (AllNamed IsName (λ r. r.name)) {x = regions_of vads} (ground arith)
          (regions_of-AllNamed vads (names.texts pid s vads e))
  ]
