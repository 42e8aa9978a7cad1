-- ===== src/Memory/Traffic/Invariant.antt =====
-- What holds between the backlog, the promises and the readers at all times.
use ceserver_pcileech.Prelude.{
  ℕ, ◌<◌, ◌≡◌, refl, List, [], ◌∷◌, Bool, true, false, ◌==◌, if◌then◌else◌,
}
use ceserver_pcileech.Memory.Backlog.{BacklogKey, same_text, find}
use ceserver_pcileech.Memory.Traffic.{readers, Traffic, at_start}
use ceserver_pcileech.Memory.Backlog.Distinct.{Found, Distinct}

abbrev pub occurs : ℕ → List ℕ → Bool
occurs n [] = false
occurs n (m ∷ ms) = let rest = occurs n ms in if n == m then true else rest

abbrev pub Once : List ℕ → Type 0
Once [] = Unit
Once (n ∷ ns) = (occurs n ns ≡ false) × Once ns

-- A reader's item has its value, is in the batch that runs, or is in the backlog.
pub data Waits (t : Traffic) (n : ℕ) : Type 0 where
  is_set : t.has_value n ≡ true → Waits t n
  in_batch : occurs n t.running ≡ true → Waits t n
  in_backlog : (key : BacklogKey) → Found key t.backlog → t.pointer key ≡ n → Waits t n

pub record IsSound (t : Traffic) : Type 0 where
  pub distinct : Distinct t.backlog
  pub backlog_below : (key : BacklogKey) → Found key t.backlog → t.pointer key < t.made
  pub backlog_unset : (key : BacklogKey) → Found key t.backlog → t.has_value (t.pointer key) ≡ false
  pub backlog_apart :
      (j k : BacklogKey)
      → Found j t.backlog
      → Found k t.backlog
      → t.pointer j ≡ t.pointer k
      → same_text j k ≡ true
  pub running_below : (n : ℕ) → occurs n t.running ≡ true → n < t.made
  pub running_unset : (n : ℕ) → occurs n t.running ≡ true → t.has_value n ≡ false
  pub running_apart :
      (key : BacklogKey) → Found key t.backlog → occurs (t.pointer key) t.running ≡ false
  pub running_once : Once t.running
  pub set_below : (n : ℕ) → t.has_value n ≡ true → n < t.made
  pub unrejected : t.rejected ≡ false
  pub waits : (n : ℕ) → occurs n (readers t) ≡ true → Waits t n

pub at_start-IsSound : IsSound at_start
unfolding find
at_start-IsSound = record {
  distinct = tt;
  backlog_below = λ key f. cc;
  backlog_unset = λ key f. cc;
  backlog_apart = λ j k f g e. cc;
  running_below = λ n e. cc;
  running_unset = λ n e. cc;
  running_apart = λ key f. cc;
  running_once = tt;
  set_below = λ n e. cc;
  unrejected = refl;
  waits = λ n e. cc;
}
