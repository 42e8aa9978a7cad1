-- ===== src/ClientState/Threads/Invariant.antt =====
-- What holds in every state that threads can reach.
use ceserver_pcileech.Prelude.{
  ℕ, ◌+◌, ◌≤◌, ◌<◌, ◌^◌, ◌≡◌, refl, ap, true, false, none, some, ◌==◌, arith, subst, Bool-cases,
  inl, inr,
}
use ceserver_pcileech.Prelude.Maps.{lookup-assign, lookup-insert, lookup-erase}
use ceserver_pcileech.ClientState.{
  ClientState, Op, is_store, apply, generate_handle, stores_processes, stores_modules,
  opens_process, closes, takes_process, takes_module, resets_processes, resets_modules,
  close_handle, next_process_info, next_memory_region, reset_process_iterator,
  reset_module_iterator,
}
use ceserver_pcileech.ClientState.Handles.{
  IsValid, Unused, init-IsValid, generate_handle_lem, generate_handle-IsValid, call-IsValid,
  store_process_snapshot_at-IsValid, store_module_snapshot_at-IsValid,
  store_open_process_at-IsValid,
}
use ceserver_pcileech.ClientState.Threads.{
  Threads, Step, Steps, store_at, update, begin, takes_handle, stores, calls, stays, goes,
}

-- The state is valid, and the handles on their way are not in use and all different.
pub record IsConsistent (t : Threads) : Type 0 where
  pub valid : IsValid t.state
  pub unused : (i h : ℕ) → t.taken i ≡ some h → Unused h t.state
  pub distinct : (i j h : ℕ) → t.taken i ≡ some h → t.taken j ≡ some h → i ≡ j

begin-IsConsistent : IsConsistent begin
begin-IsConsistent = record { valid = init-IsValid; unused = λ i h e. cc; distinct = λ i j h e. cc }

generate_handle-Unused :
    (s : ClientState) (h : ℕ)
    → s.last_handle_id + 1 < 2 ^ 31
    → Unused h s
    → Unused h (generate_handle s).1
generate_handle-Unused s h room u = rw (generate_handle_lem s room) (record {
  given = omega (arith, u.given);
  processes = u.processes;
  modules = u.modules;
  ids = u.ids;
})

-- A store at another handle.
store_at-Unused :
    (op : Op) (h k : ℕ) (s : ClientState)
    → is_store op ≡ true
    → (h == k) ≡ false
    → Unused k s
    → Unused k (store_at op h s)
unfolding store_at
store_at-Unused (stores_processes xs) h k s e other u = record {
  given = u.given;
  processes = ground (arith, lookup-insert k h xs s.process_snapshots, u.processes);
  modules = u.modules;
  ids = u.ids;
}
store_at-Unused (stores_modules xs) h k s e other u = record {
  given = u.given;
  processes = u.processes;
  modules = ground (arith, lookup-insert k h xs s.module_snapshots, u.modules);
  ids = u.ids;
}
store_at-Unused (opens_process pid) h k s e other u = record {
  given = u.given;
  processes = u.processes;
  modules = u.modules;
  ids = ground (arith, lookup-assign k h pid s.process_ids, u.ids);
}
store_at-Unused _ h k s e other u = cc

same-Unused :
    (k : ℕ) (s t : ClientState)
    → t.last_handle_id ≡ s.last_handle_id
    → t.process_snapshots ≡ s.process_snapshots
    → t.module_snapshots ≡ s.module_snapshots
    → t.process_ids ≡ s.process_ids
    → Unused k s
    → Unused k t
same-Unused k s t last processes modules ids u = record {
  given = ground (arith, u.given);
  processes = rw processes u.processes;
  modules = rw modules u.modules;
  ids = rw ids u.ids;
}

apply-Unused :
    (op : Op) (k : ℕ) (s : ClientState) → is_store op ≡ false → Unused k s → Unused k (apply op s)
unfolding apply close_handle next_process_info next_memory_region reset_process_iterator
    reset_module_iterator
apply-Unused (closes h) k s e u = record {
  given = u.given;
  processes = ground (arith, lookup-erase k h s.process_snapshots, u.processes);
  modules = ground (arith, lookup-erase k h s.module_snapshots, u.modules);
  ids = ground (arith, lookup-erase k h s.process_ids, u.ids);
}
apply-Unused (takes_process h) k s e u = same-Unused k s _ refl refl refl refl u
apply-Unused (takes_module h) k s e u = same-Unused k s _ refl refl refl refl u
apply-Unused (resets_processes h) k s e u = same-Unused k s _ refl refl refl refl u
apply-Unused (resets_modules h) k s e u = same-Unused k s _ refl refl refl refl u
apply-Unused (stores_processes xs) k s e u = cc
apply-Unused (stores_modules xs) k s e u = cc
apply-Unused (opens_process pid) k s e u = cc

store_at-IsValid :
    (op : Op) (h : ℕ) (s : ClientState)
    → is_store op ≡ true
    → Unused h s
    → IsValid s
    → IsValid (store_at op h s)
unfolding store_at
store_at-IsValid (stores_processes xs) h s e u v = store_process_snapshot_at-IsValid s h u v xs
store_at-IsValid (stores_modules xs) h s e u v = store_module_snapshot_at-IsValid s h u v xs
store_at-IsValid (opens_process pid) h s e u v = store_open_process_at-IsValid s h u v pid
store_at-IsValid _ h s e u v = cc

module _ (t : Threads) (c : IsConsistent t) where
  pub taken-le : (i h : ℕ) → t.taken i ≡ some h → h ≤ t.state.last_handle_id
  taken-le i h e = (c.unused i h e).given

  takes-IsConsistent :
      (i : ℕ)
      → t.state.last_handle_id + 1 < 2 ^ 31
      → IsConsistent (record {
        state = (generate_handle t.state).1;
        taken = update i (some (generate_handle t.state).0) t.taken;
      })
  takes-IsConsistent i room =
      let (v, u) = generate_handle-IsValid t.state room c.valid in
      let next : (generate_handle t.state).0 ≡ t.state.last_handle_id + 1 =
        ap (λ r. r.0) (generate_handle_lem t.state room) in
      record {
        valid = v;
        unused = λ j k p. elim (Bool-cases (i == j)) [
          | inl e ↦ subst (λ h. Unused h (generate_handle t.state).1) (ground arith) u
          | inr e ↦ generate_handle-Unused t.state k room (c.unused j k (ground arith))
        ];
        distinct =
            λ j j' k p p'. ground (arith, next, c.distinct j j' k, taken-le j k, taken-le j' k);
      }

  stores-IsConsistent :
      (i h : ℕ) (op : Op)
      → t.taken i ≡ some h
      → is_store op ≡ true
      → IsConsistent (record { state = store_at op h t.state; taken = update i none t.taken })
  stores-IsConsistent i h op mine e = record {
    valid = store_at-IsValid op h t.state e (c.unused i h mine) c.valid;
    unused = λ j k p.
        store_at-Unused op h k t.state e (ground (arith, c.distinct i j k))
          (c.unused j k (ground arith));
    distinct = λ j j' k p p'. ground (arith, c.distinct j j' k);
  }

pub Step-IsConsistent : (t u : Threads) → Step t u → IsConsistent t → IsConsistent u
Step-IsConsistent t _ (takes_handle _ i free room) c = takes-IsConsistent t c i room
Step-IsConsistent t _ (stores _ i h op mine e) c = stores-IsConsistent t c i h op mine e
Step-IsConsistent t _ (calls _ i op free e) c = record {
  valid = call-IsValid op t.state e c.valid;
  unused = λ j k p. apply-Unused op k t.state e (c.unused j k p);
  distinct = c.distinct;
}

pub Steps-IsConsistent : (t u : Threads) → Steps t u → IsConsistent t → IsConsistent u
Steps-IsConsistent t _ (stays _) c = c
Steps-IsConsistent t _ (goes _ u v before step) c =
    Step-IsConsistent u v step (Steps-IsConsistent t u before c)

-- However the threads of the connections take turns at the mutex of a new server's state, also
-- between the two holds of a store, the invariant of the shared state holds, and a handle that a
-- thread has taken and not stored yet stands for nothing and was given to no other thread. The counter
-- stays below INT_MAX.
pub Steps-begin-IsConsistent : (t : Threads) → Steps begin t → IsConsistent t
Steps-begin-IsConsistent t run = Steps-IsConsistent begin t run begin-IsConsistent
