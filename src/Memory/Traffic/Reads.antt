-- ===== src/Memory/Traffic/Reads.antt =====
-- The results of a dispatch, each against the item that its promise belongs to.
use ceserver_pcileech.Prelude.{
  ℕ, ◌%◌, ◌^◌, ◌+◌, ◌≡◌, refl, sym, ap, subst, List, [], ◌∷◌, ◌==◌, leb, length, some, arith,
  Bool-cases, inl, inr,
}
use ceserver_pcileech.Memory.Backlog.{
  BacklogItem, BacklogKey, Backlog, find, select, next_batch, dispatch_round,
  max_bytes_per_dispatch, max_dispatch_size,
}
use ceserver_pcileech.Memory.Backlog.Batch.{AllOf, select-AllOf, same_text_refl, same_text_sound}
use ceserver_pcileech.Memory.Backlog.Distinct.{Distinct}
use ceserver_pcileech.Memory.Device.{Device, dispatch, sequential_read, read_all, scatter_reads}
use ceserver_pcileech.Memory.Alone.{items_of}
use ceserver_pcileech.Memory.Traffic.{pointers}
use ceserver_pcileech.Memory.Traffic.Values.{first_pid, IsRead, on_its_own, scattered}

-- The entries of a backlog point to items that hold their requests.
abbrev pub AllHold : (BacklogKey → BacklogItem) → Backlog → Type 0
AllHold held [] = Unit
AllHold held (e ∷ b) = (held e.0 ≡ e.1) × AllHold held b

pub AllHold-find :
    (held : BacklogKey → BacklogItem) (b : Backlog)
    → Distinct b
    → ((key : BacklogKey) (item : BacklogItem) → find key b ≡ some item → held key ≡ item)
    → AllHold held b
unfolding find
AllHold-find held [] apart h = tt
AllHold-find held (e ∷ b) (first, apart) h = (
  h e.0 e.1 (rw (same_text_refl e.0) refl),
  AllHold-find held b apart λ key item q.
      h key item (ground (arith, same_text_sound key e.0, ap (λ k. find k b) {x = key} {y = e.0})),
)

pub AllHold-select :
    (held : BacklogKey → BacklogItem) (pid requested count : ℕ) (b : Backlog)
    → AllHold held b
    → AllHold held (select pid requested count b)
unfolding select
AllHold-select held pid requested count [] h = tt
AllHold-select held pid requested count ((key, item) ∷ b) (first, h) =
    let total = (requested + item.size) % 2 ^ 64 in
    elim (Bool-cases (item.pid == pid)) [
      | inr e ↦ rw e (AllHold-select held pid requested count b h)
      | inl e ↦ elim (Bool-cases (leb max_bytes_per_dispatch total)) [
        | inl e' ↦ rw (e, e') tt
        | inr e' ↦ elim (Bool-cases (leb max_dispatch_size (count + 1))) [
          | inl e'' ↦ rw (e, e', e'') (first, tt)
          | inr e'' ↦ rw (e, e', e'') (first, AllHold-select held pid total (count + 1) b h)
        ]
      ]
    ]

-- The results of a batch, each read for the item that its pointer leads to.
abbrev pub AllReads : (d : Device) → (ℕ → BacklogItem) → List ℕ → List (ℕ × List ℕ) → Type 0
AllReads d contents [] [] = Unit
AllReads d contents [] (r ∷ rs) = ⊥
AllReads d contents (n ∷ ns) [] = ⊥
AllReads d contents (n ∷ ns) (r ∷ rs) = IsRead d (contents n) r × AllReads d contents ns rs

module _ (d : Device) (contents : ℕ → BacklogItem) (pointer : BacklogKey → ℕ) (pid : ℕ) where
  sequential_read-AllReads :
      (b : Backlog) (s : d.State)
      → AllOf pid b
      → AllHold (λ k. contents (pointer k)) b
      → AllReads d contents (pointers pointer b) (sequential_read d pid (items_of b) s).0
  unfolding sequential_read
  sequential_read-AllReads [] s own h = tt
  sequential_read-AllReads (e ∷ b) s (same, own) (first, h) = (
    subst (λ i. IsRead d i (d.mem_read_ex pid e.1.address (e.1.size % 2 ^ 32) s).0) (sym first)
        (on_its_own s (ap (λ p. (d.mem_read_ex p e.1.address (e.1.size % 2 ^ 32) s).0) (sym same))),
    sequential_read-AllReads b _ own h,
  )

  read_all-AllReads :
      (b : Backlog) (s0 s : d.State)
      → AllOf pid b
      → AllHold (λ k. contents (pointer k)) b
      → AllReads d contents
          (pointers pointer b)
          (read_all d (d.scatter_initialize pid s0).0 (items_of b) s).0
  unfolding read_all
  read_all-AllReads [] s0 s own h = tt
  read_all-AllReads (e ∷ b) s0 s (same, own) (first, h) = (
    subst
        (λ i.
          IsRead d i
            (d.scatter_read (d.scatter_initialize pid s0).0 e.1.address (e.1.size % 2 ^ 32) s).0)
        (sym first)
        (scattered s0 s (
          ap
            (λ p.
              (d.scatter_read (d.scatter_initialize p s0).0 e.1.address (e.1.size % 2 ^ 32) s).0)
            (sym same))),
    read_all-AllReads b s0 _ own h,
  )

  pub dispatch-AllReads :
      (b : Backlog) (s : d.State)
      → AllOf pid b
      → AllHold (λ k. contents (pointer k)) b
      → AllReads d contents (pointers pointer b) (dispatch d pid (items_of b) s).0
  unfolding dispatch scatter_reads
  dispatch-AllReads b s own h = elim (Bool-cases (leb (length (items_of b)) 1)) [
    | inl e ↦ rw e (sequential_read-AllReads b s own h)
    | inr e ↦ rw e (read_all-AllReads b s _ own h)
  ]

module _ (d : Device) (contents : ℕ → BacklogItem) (pointer : BacklogKey → ℕ) where
  pub round-AllReads :
      (b : Backlog) (s : d.State)
      → AllHold (λ k. contents (pointer k)) b
      → AllReads d contents
          (pointers pointer (dispatch_round b).0)
          (dispatch d (first_pid b) (items_of (dispatch_round b).0) s).0
  unfolding dispatch_round next_batch
  round-AllReads [] s h = dispatch-AllReads d contents pointer 0 [] s tt tt
  round-AllReads (e ∷ b) s h =
      dispatch-AllReads d contents pointer e.1.pid (select e.1.pid 0 0 (e ∷ b)) s
        (select-AllOf e.1.pid 0 0 (e ∷ b))
        (AllHold-select (λ k. contents (pointer k)) e.1.pid 0 0 (e ∷ b) h)
