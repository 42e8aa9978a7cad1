-- ===== src/ClientState/Threads/Entries.antt =====
-- What the threads make of the handles: the abstract store under interleaving.
use ceserver_pcileech.Prelude.{
  ℕ, ◌+◌, ◌<◌, ◌^◌, ◌≡◌, refl, true, Option, none, ◌==◌, arith, if◌then◌else◌,
}
use ceserver_pcileech.Prelude.Maps.{lookup-assign, lookup-insert}
use ceserver_pcileech.ClientState.{
  ClientState, Op, is_store, generate_handle, stores_processes, stores_modules, opens_process,
}
use ceserver_pcileech.ClientState.Handles.{Unused, generate_handle_lem}
use ceserver_pcileech.ClientState.View.{Entry, view, target, change, view-call}
use ceserver_pcileech.ClientState.Threads.{
  Threads, Step, Steps, store_at, begin, takes_handle, stores, calls,
}
use ceserver_pcileech.ClientState.Threads.Invariant.{Steps-begin-IsConsistent}

-- What a step does to the abstract store: taking a handle does nothing; a store puts the entry of its
-- call at the handle that its thread has taken, which stood for nothing; another call changes the entry
-- at the handle that it names, as specified for that call.
abbrev pub Turn : {t u : Threads} → Step t u → (ℕ → Option Entry) → (ℕ → Option Entry) → Type 0
Turn (takes_handle t i free room) f g = (j : ℕ) → g j ≡ f j
Turn (stores t i h op mine e) f g =
    (f h ≡ none) × ((j : ℕ) → g j ≡ (if h == j then change op none else f j))
Turn (calls t i op free e) f g = (j : ℕ) → g j ≡ (if target op 0 == j then change op (f j) else f j)

view-generate_handle :
    (s : ClientState) (j : ℕ)
    → s.last_handle_id + 1 < 2 ^ 31
    → view (generate_handle s).1 j ≡ view s j
unfolding view
view-generate_handle s j room = rw (generate_handle_lem s room) refl

Unused-view : (h : ℕ) (s : ClientState) → Unused h s → view s h ≡ none
unfolding view
Unused-view h s u = ground (arith, u.processes, u.modules, u.ids)

view-store_at :
    (op : Op) (h : ℕ) (s : ClientState) (j : ℕ)
    → is_store op ≡ true
    → Unused h s
    → view (store_at op h s) j ≡ (if h == j then change op none else view s j)
unfolding view store_at
view-store_at (stores_processes xs) h s j e u = ground (
  arith,
  lookup-insert j h xs s.process_snapshots,
  lookup-assign j h 0 s.process_iter,
  u.processes,
)
view-store_at (stores_modules rs) h s j e u = ground (
  arith,
  lookup-insert j h rs s.module_snapshots,
  lookup-assign j h 0 s.module_iter,
  u.processes,
  u.modules,
)
view-store_at (opens_process pid) h s j e u =
    ground (arith, lookup-assign j h pid s.process_ids, u.processes, u.modules)
view-store_at _ h s j e u = cc

-- In every state that the threads of a new server can reach, the next step of any of them does to
-- the abstract store what is specified for that very step: taking a handle does nothing, a store puts
-- the entry of its call at the handle that its thread has taken, which stood for nothing, and any other
-- call makes its own specified change at the handle that it names; every other entry stays.
pub Step-Turn :
    (t u : Threads) → Steps begin t → (step : Step t u) → Turn step (view t.state) (view u.state)
Step-Turn t _ run (takes_handle _ i free room) = λ j. view-generate_handle t.state j room
Step-Turn t _ run (stores _ i h op mine e) =
    let unused = (Steps-begin-IsConsistent t run).unused i h mine in
    (Unused-view h t.state unused, λ j. view-store_at op h t.state j e unused)
Step-Turn t _ run (calls _ i op free e) = λ j. view-call op t.state j e
