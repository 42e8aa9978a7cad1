-- ===== src/ClientState/Threads.antt =====
-- The connections' threads on the state that they share, one hold of its mutex at a time. A store
-- without a handle holds the mutex twice: `generateHandle` takes the number, and the store at that
-- number comes later, so that other threads can run in between. Every other method is one step.
pub mod Invariant
pub mod Entries
pub mod Processes
pub mod Runs
use ceserver_pcileech.Prelude.{
  ℕ, ◌+◌, ◌<◌, ◌^◌, ◌≡◌, refl, Bool, true, false, Option, none, some, ◌==◌, if◌then◌else◌,
}
use ceserver_pcileech.ClientState.{
  ClientState, Op, is_store, init, apply, generate_handle, store_process_snapshot_at,
  store_module_snapshot_at, store_open_process_at, stores_processes, stores_modules, opens_process,
  store_process_snapshot, store_module_snapshot, store_open_process,
}

-- The state, and the handle that a thread has taken and not stored yet.
pub record Threads : Type 0 where
  pub state : ClientState
  pub taken : ℕ → Option ℕ

-- The store at a handle. The other calls take no handle.
unfoldable pub store_at : Op → ℕ → ClientState → ClientState
unfolding store_process_snapshot_at store_module_snapshot_at store_open_process_at
store_at (stores_processes snapshot) h s = (store_process_snapshot_at snapshot h s).1
store_at (stores_modules snapshot) h s = (store_module_snapshot_at snapshot h s).1
store_at (opens_process pid) h s = (store_open_process_at pid h s).1
store_at op h s = apply op s

abbrev pub update : ℕ → Option ℕ → (ℕ → Option ℕ) → ℕ → Option ℕ
update i o f j = if i == j then o else f j

-- The steps of thread `i`. The counter is below INT_MAX.
pub data Step : Threads → Threads → Type 0 where
  takes_handle :
      (t : Threads) (i : ℕ)
      → t.taken i ≡ none
      → t.state.last_handle_id + 1 < 2 ^ 31
      → Step t (record {
        state = (generate_handle t.state).1;
        taken = update i (some (generate_handle t.state).0) t.taken;
      })
  stores :
      (t : Threads) (i h : ℕ) (op : Op)
      → t.taken i ≡ some h
      → is_store op ≡ true
      → Step t (record { state = store_at op h t.state; taken = update i none t.taken })
  calls :
      (t : Threads) (i : ℕ) (op : Op)
      → t.taken i ≡ none
      → is_store op ≡ false
      → Step t (record { state = apply op t.state; taken = t.taken })

-- The thread whose step it is.
abbrev pub thread : {t u : Threads} → Step t u → ℕ
thread (takes_handle t i free room) = i
thread (stores t i h op mine e) = i
thread (calls t i op free e) = i

pub data Steps : Threads → Threads → Type 0 where
  stays : (t : Threads) → Steps t t
  goes : (t u v : Threads) → Steps t u → Step u v → Steps t v

-- The steps of one thread, while no other takes any.
pub data OwnSteps (i : ℕ) : Threads → Threads → Type 0 where
  rests : (t : Threads) → OwnSteps i t t
  acts : (t u v : Threads) → OwnSteps i t u → (step : Step u v) → thread step ≡ i → OwnSteps i t v

abbrev pub begin : Threads
begin = record { state = init; taken = λ i. none }

-- Without a thread in between, the two steps of a store are the call.
pub store_at-generate_handle :
    (op : Op) (s : ClientState)
    → is_store op ≡ true
    → let (h, s') = generate_handle s in store_at op h s' ≡ apply op s
unfolding store_at apply store_process_snapshot store_module_snapshot store_open_process
store_at-generate_handle (stores_processes snapshot) s e = refl
store_at-generate_handle (stores_modules snapshot) s e = refl
store_at-generate_handle (opens_process pid) s e = refl
store_at-generate_handle _ s e = cc
