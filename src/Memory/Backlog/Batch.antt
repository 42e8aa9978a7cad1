-- ===== src/Memory/Backlog/Batch.antt =====
-- What a batch holds, and what is left of the backlog.
use ceserver_pcileech.Prelude.{
  ℕ, ◌+◌, ◌%◌, ◌^◌, ◌≤◌, ◌<◌, ◌≡◌, refl, List, [], ◌∷◌, true, ◌==◌, ==_iff, leb, arith, length,
  Bool-cases, inl, inr,
}
use ceserver_pcileech.Memory.Backlog.{
  BacklogItem, BacklogKey, Backlog, same_text, select, next_batch, dispatch_round,
  max_bytes_per_dispatch, max_dispatch_size,
}

pub same_text_refl : (k : List ℕ) → same_text k k ≡ true
unfolding same_text
same_text_refl [] = refl
same_text_refl (x ∷ xs) = ground (arith, same_text_refl xs)

pub same_text_sound : (j k : List ℕ) → same_text j k ≡ true → j ≡ k
unfolding same_text
same_text_sound [] [] e = refl
same_text_sound [] (y ∷ ys) e = cc
same_text_sound (x ∷ xs) [] e = cc
same_text_sound (x ∷ xs) (y ∷ ys) e = ground (arith, same_text_sound xs ys)

-- Every request of a backlog is for this process.
abbrev pub AllOf : ℕ → Backlog → Type 0
AllOf pid [] = Unit
AllOf pid (e ∷ backlog) = (e.1.pid ≡ pid) × AllOf pid backlog

-- No request is so large that adding its size wraps.
abbrev pub AllBelow : ℕ → Backlog → Type 0
AllBelow bound [] = Unit
AllBelow bound (e ∷ backlog) = (e.1.size < bound) × AllBelow bound backlog

abbrev pub total_size : Backlog → ℕ
total_size [] = 0
total_size (e ∷ backlog) = e.1.size + total_size backlog

pub select-AllOf :
    (pid requested count : ℕ) (b : Backlog) → AllOf pid (select pid requested count b)
unfolding select
select-AllOf pid requested count [] = tt
select-AllOf pid requested count ((key, item) ∷ b) = elim (Bool-cases (item.pid == pid)) [
  | inr e ↦ rw e (select-AllOf pid requested count b)
  | inl e ↦ elim (Bool-cases (leb max_bytes_per_dispatch ((requested + item.size) % 2 ^ 64))) [
    | inl e' ↦ rw (e, e') tt
    | inr e' ↦ elim (Bool-cases (leb max_dispatch_size (count + 1))) [
      | inl e'' ↦ rw (e, e', e'') ((==_iff item.pid pid).0 e, tt)
      | inr e'' ↦
          rw (e, e', e'')
            (
              (==_iff item.pid pid).0 e,
              select-AllOf pid ((requested + item.size) % 2 ^ 64) (count + 1) b,
            )
    ]
  ]
]

length-select :
    (pid requested count : ℕ) (b : Backlog)
    → count < max_dispatch_size
    → length (select pid requested count b) + count ≤ max_dispatch_size
unfolding select
length-select pid requested count [] lt = omega arith
length-select pid requested count ((key, item) ∷ b) lt = ground (
  arith,
  length-select pid requested count b,
  length-select pid ((requested + item.size) % 2 ^ 64) (count + 1) b,
)

total_size-select :
    (pid requested count : ℕ) (b : Backlog)
    → AllBelow (2 ^ 63) b
    → requested < max_bytes_per_dispatch
    → requested + total_size (select pid requested count b) < max_bytes_per_dispatch
unfolding select
total_size-select pid requested count [] small lt = omega arith
total_size-select pid requested count ((key, item) ∷ b) small lt = ground (
  arith,
  total_size-select pid requested count b small.1,
  total_size-select pid ((requested + item.size) % 2 ^ 64) (count + 1) b small.1,
)

-- The promise of a batch: one process, at most 256 requests, and less than a gigabyte.
pub record IsBatch (pid : ℕ) (batch : Backlog) : Type 0 where
  pub of_process : AllOf pid batch
  pub count_le : length batch ≤ max_dispatch_size
  pub size_lt : total_size batch < max_bytes_per_dispatch

-- Each round of the dispatch loop takes requests of the first entry's process only, 256 at most and
-- less than a gigabyte together. No request asks for 2 ^ 63 bytes or more.
pub dispatch_round-IsBatch :
    (e : BacklogKey × BacklogItem) (b : Backlog)
    → AllBelow (2 ^ 63) (e ∷ b)
    → IsBatch e.1.pid (dispatch_round (e ∷ b)).0
unfolding dispatch_round next_batch
dispatch_round-IsBatch e b small = record {
  of_process = select-AllOf e.1.pid 0 0 (e ∷ b);
  count_le = omega (arith, length-select e.1.pid 0 0 (e ∷ b) (omega arith));
  size_lt = omega (arith, total_size-select e.1.pid 0 0 (e ∷ b) small (omega arith));
}
