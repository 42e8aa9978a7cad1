-- ===== src/Client/Sound/Steps.antt =====
-- The single steps of the handlers, and the rules by which their blocks are put together.
use ceserver_pcileech.Prelude.{
  ℕ, suc, ◌+◌, ◌≤◌, ◌≡◌, refl, List, [], ◌∷◌, leb, length, Option, none, some, Bool-cases, inl, inr,
  arith,
}
use ceserver_pcileech.Prelude.Bytes.{le_bytes}
use ceserver_pcileech.Memory.Region.{ProcessInfo, MemoryRegion}
use ceserver_pcileech.ClientState.{
  ClientState, Op, apply, stores_in, closes, takes_process, takes_module, resets_processes,
  resets_modules, stores_processes, stores_modules, close_handle, next_process_info,
  next_memory_region, reset_process_iterator, reset_module_iterator, store_process_snapshot,
  store_module_snapshot, store_open_process,
}
use ceserver_pcileech.ClientState
use ceserver_pcileech.Machine.{Machine}
use ceserver_pcileech.Client.Monad.{
  M, Ctx, Outcome, Fault, ok, fault, updates, modifies, calls, waits, read_into, send, send_word,
  new_array, or_raise, for_each, received, never_returns,
}
use ceserver_pcileech.Client.Snapshots.{set_name}
use ceserver_pcileech.Client.Names.{OpNamed, AllNamed, apply-NamesAre}
use ceserver_pcileech.Client.Names.Entries.{
  EntryNamed, next_process_info-EntryNamed, next_memory_region-EntryNamed,
}
use ceserver_pcileech.Client.Sound.{
  Sound, Texts, Leads, Ends, Anything, Called, Called-apply, pure-Leads, raise-Leads,
  bind_any-Leads, then_any-Leads, if-Leads, when-Leads, asks-Leads, read_word-Leads,
}

module _ {m : Machine} {IsText : List ℕ → Type 0} {s : ClientState} where
  pub read_into-Leads :
      {n : ℕ} (capacity size : ℕ) → Leads {m = m} IsText s n n Anything (read_into capacity size)
  unfolding read_into
  read_into-Leads capacity size = record {
    at = λ c i. elim (Bool-cases (leb (length (received size (m.recv c.world size).0)) capacity)) [
      | inl e ↦ rw e (tt, record { sent = i.sent; names = i.names; called = i.called })
      | inr e ↦ rw e tt
    ];
  }

  pub new_array-Leads : {n : ℕ} (size : ℕ) → Leads {m = m} IsText s n n Anything (new_array size)
  unfolding new_array
  new_array-Leads size = search (if-Leads, raise-Leads, pure-Leads)

  pub or_raise-Leads :
      {A : Type 0} {n : ℕ} (o : Option A) (x : Fault)
      → Leads {m = m} IsText s n n Anything (or_raise o x)
  or_raise-Leads none x = raise-Leads x
  or_raise-Leads (some a) x = pure-Leads a tt

  pub calls-Leads :
      {A : Type 0} {Q : A → Type 0} {n : ℕ} (f : m.Mem → A × m.Mem)
      → ((d : m.Mem) → Q (f d).0)
      → Leads IsText s n n Q (calls {m = m} f)
  calls-Leads f q = record {
    at = λ c i. (q c.mem, record { sent = i.sent; names = i.names; called = i.called });
  }

  pub set_name-Leads : {n : ℕ} (name : List ℕ) → Leads {m = m} IsText s n n Anything (set_name name)
  set_name-Leads name = record {
    at = λ c i. (tt, record { sent = i.sent; names = i.names; called = i.called });
  }

  Ends-waits :
      {A : Type 0} (Q : A → Type 0) {n : ℕ} (c : Ctx m) (o : Option (A × m.Mem))
      → Sound IsText s n c
      → ((r : A × m.Mem) → o ≡ some r → Q r.0)
      → Ends IsText s n Q (elim o as (λ _. Outcome m A) [
        | some (a, d) ↦ ok a (record c { mem = d })
        | none ↦ fault never_returns
      ])
  Ends-waits Q c none i q = tt
  Ends-waits Q c (some (a, d)) i q =
      (q (a, d) refl, record { sent = i.sent; names = i.names; called = i.called })

  pub waits-Leads :
      {A : Type 0} {Q : A → Type 0} {n : ℕ} (f : m.Mem → Option (A × m.Mem))
      → ((d : m.Mem) (r : A × m.Mem) → f d ≡ some r → Q r.0)
      → Leads IsText s n n Q (waits {m = m} f)
  waits-Leads f q = record { at = λ c i. Ends-waits _ c (f c.mem) i (q c.mem) }

  Sound-apply :
      (n k : ℕ) (c : Ctx m) (op : Op)
      → OpNamed IsText op
      → n + stores_in (op ∷ []) ≤ k
      → Sound IsText s n c
      → Sound IsText s k (record c { state = apply op c.state })
  Sound-apply n k c op named le i = record {
    sent = i.sent;
    names = apply-NamesAre IsText op c.state named i.names;
    called = Called-apply s n k c.state op i.called le;
  }

  pub close_handle-Leads :
      {n : ℕ} (h : ℕ) → Leads {m = m} IsText s n n Anything (modifies (close_handle h))
  unfolding apply
  close_handle-Leads {n} h = record {
    at = λ c i. (tt, Sound-apply n n c (closes h) tt (omega arith) i);
  }

  pub reset_process_iterator-Leads :
      {n : ℕ} (h : ℕ) → Leads {m = m} IsText s n n Anything (modifies (reset_process_iterator h))
  unfolding apply
  reset_process_iterator-Leads {n} h = record {
    at = λ c i. (tt, Sound-apply n n c (resets_processes h) tt (omega arith) i);
  }

  pub reset_module_iterator-Leads :
      {n : ℕ} (h : ℕ) → Leads {m = m} IsText s n n Anything (modifies (reset_module_iterator h))
  unfolding apply
  reset_module_iterator-Leads {n} h = record {
    at = λ c i. (tt, Sound-apply n n c (resets_modules h) tt (omega arith) i);
  }

  pub next_process_info-Leads :
      {n : ℕ} (h : ℕ)
      → Leads {m = m} IsText s n n
          (EntryNamed IsText (λ (p : ProcessInfo). p.name))
          (updates (next_process_info h))
  unfolding apply
  next_process_info-Leads {n} h = record {
    at = λ c i. (
      next_process_info-EntryNamed IsText h c.state i.names,
      Sound-apply n n c (takes_process h) tt (omega arith) i,
    );
  }

  pub next_memory_region-Leads :
      {n : ℕ} (h : ℕ)
      → Leads {m = m} IsText s n n
          (EntryNamed IsText (λ (r : MemoryRegion). r.name))
          (updates (next_memory_region h))
  unfolding apply
  next_memory_region-Leads {n} h = record {
    at = λ c i. (
      next_memory_region-EntryNamed IsText h c.state i.names,
      Sound-apply n n c (takes_module h) tt (omega arith) i,
    );
  }

  pub store_process_snapshot-Leads :
      {n : ℕ} (snapshot : List ProcessInfo)
      → AllNamed IsText (λ p. p.name) snapshot
      → Leads {m = m} IsText s n (suc n) Anything (updates (store_process_snapshot snapshot))
  unfolding apply
  store_process_snapshot-Leads {n} snapshot named = record {
    at = λ c i. (tt, Sound-apply n (suc n) c (stores_processes snapshot) named (omega arith) i);
  }

  pub store_module_snapshot-Leads :
      {n : ℕ} (snapshot : List MemoryRegion)
      → AllNamed IsText (λ r. r.name) snapshot
      → Leads {m = m} IsText s n (suc n) Anything (updates (store_module_snapshot snapshot))
  unfolding apply
  store_module_snapshot-Leads {n} snapshot named = record {
    at = λ c i. (tt, Sound-apply n (suc n) c (stores_modules snapshot) named (omega arith) i);
  }

  pub store_open_process-Leads :
      {n : ℕ} (pid : ℕ)
      → Leads {m = m} IsText s n (suc n) Anything (updates (store_open_process pid))
  unfolding apply
  store_open_process-Leads {n} pid = record {
    at = λ c i. (
      tt,
      Sound-apply n (suc n) c (ceserver_pcileech.ClientState.opens_process pid) tt (omega arith) i,
    );
  }

-- What is sent.
module _ {m : Machine} {IsText : List ℕ → Type 0} (texts : Texts IsText) {s : ClientState} where
  pub send-Leads : {n : ℕ} (bs : List ℕ) → IsText bs → Leads {m = m} IsText s n n Anything (send bs)
  unfolding send
  send-Leads bs q = record {
    at = λ c i.
        (tt, record { sent = texts.both c.sent bs i.sent q; names = i.names; called = i.called });
  }

  pub send_word-Leads : {n : ℕ} (w v : ℕ) → Leads {m = m} IsText s n n Anything (send_word w v)
  unfolding send_word
  send_word-Leads w v = send-Leads (le_bytes w v) (texts.word w v)

  -- A loop over entries that have names.
  pub for_each-Leads :
      {A : Type 0} {n : ℕ} (name : A → List ℕ) (xs : List A) (f : A → M m (Unit {0}))
      → AllNamed IsText name xs
      → ((x : A) → IsText (name x) → Leads IsText s n n Anything (f x))
      → Leads IsText s n n Anything (for_each xs f)
  unfolding for_each
  for_each-Leads name [] f all l = pure-Leads tt tt
  for_each-Leads name (x ∷ xs) f (first, all) l =
      then_any-Leads (f x) (for_each xs f) (l x first) (for_each-Leads name xs f all l)

  pub for_each_any-Leads :
      {A : Type 0} {n : ℕ} (xs : List A) (f : A → M m (Unit {0}))
      → ((x : A) → Leads IsText s n n Anything (f x))
      → Leads IsText s n n Anything (for_each xs f)
  unfolding for_each
  for_each_any-Leads [] f l = pure-Leads tt tt
  for_each_any-Leads (x ∷ xs) f l =
      then_any-Leads (f x) (for_each xs f) (l x) (for_each_any-Leads xs f l)

pub ruleset leads_rules = (
  bind_any-Leads, then_any-Leads, if-Leads, when-Leads, asks-Leads, read_word-Leads, pure-Leads,
  raise-Leads, read_into-Leads, new_array-Leads, or_raise-Leads, calls-Leads, close_handle-Leads,
  reset_process_iterator-Leads, reset_module_iterator-Leads, next_process_info-Leads,
  next_memory_region-Leads, store_process_snapshot-Leads, store_module_snapshot-Leads,
  store_open_process-Leads, send_word-Leads, send-Leads,
)
