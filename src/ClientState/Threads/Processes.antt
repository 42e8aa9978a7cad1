-- ===== src/ClientState/Threads/Processes.antt =====
-- A thread that looks an opened process up twice.
use ceserver_pcileech.Prelude.{
  ℕ, ◌≤◌, ◌≡◌, refl, true, false, none, some, ◌==◌, arith, ◌≢◌, Option-cases, Bool-cases, inl, inr,
  ◌⊎◌,
}
use ceserver_pcileech.Prelude.Maps.{lookup, lookup-assign, lookup-erase}
use ceserver_pcileech.ClientState.{
  ClientState, Op, is_store, apply, stores_processes, stores_modules, opens_process, closes,
  takes_process, takes_module, resets_processes, resets_modules, close_handle, next_process_info,
  next_memory_region, reset_process_iterator, reset_module_iterator, get_process_id,
  contains_process_id_handle, minus_one,
}
use ceserver_pcileech.ClientState.Handles.{call-last, generate_handle_lem}
use ceserver_pcileech.ClientState.Threads.{
  Threads, Step, Steps, store_at, begin, takes_handle, stores, calls, stays, goes,
}
use ceserver_pcileech.ClientState.Threads.Invariant.{IsConsistent, Steps-begin-IsConsistent}

-- A handle that was stored for a process: it stands for that process, or was closed, and no thread
-- has it on the way.
record IsSettled (h pid : ℕ) (t : Threads) : Type 0 where
  pub given : h ≤ t.state.last_handle_id
  pub away : (i : ℕ) → t.taken i ≢ some h
  pub stands : (lookup h t.state.process_ids ≡ some pid) ⊎ (lookup h t.state.process_ids ≡ none)

store_at-last :
    (op : Op) (h : ℕ) (s : ClientState)
    → is_store op ≡ true
    → (store_at op h s).last_handle_id ≡ s.last_handle_id
unfolding store_at
store_at-last (stores_processes xs) h s e = refl
store_at-last (stores_modules xs) h s e = refl
store_at-last (opens_process pid) h s e = refl
store_at-last _ h s e = cc

-- A store at another handle leaves the process of this one alone.
store_at-process_ids :
    (op : Op) (h k : ℕ) (s : ClientState)
    → is_store op ≡ true
    → (k == h) ≡ false
    → lookup h (store_at op k s).process_ids ≡ lookup h s.process_ids
unfolding store_at
store_at-process_ids (stores_processes xs) h k s e other = refl
store_at-process_ids (stores_modules xs) h k s e other = refl
store_at-process_ids (opens_process pid) h k s e other =
    ground (arith, lookup-assign h k pid s.process_ids)
store_at-process_ids _ h k s e other = cc

-- A call leaves the process of a handle alone, or closes the handle.
call-process_ids :
    (op : Op) (h : ℕ) (s : ClientState)
    → is_store op ≡ false
    → (lookup h (apply op s).process_ids ≡ lookup h s.process_ids)
      ⊎ (lookup h (apply op s).process_ids ≡ none)
unfolding apply close_handle next_process_info next_memory_region reset_process_iterator
    reset_module_iterator
call-process_ids (closes k) h s e = elim (Bool-cases (k == h)) [
  | inl same ↦ inr (ground (arith, lookup-erase h k s.process_ids))
  | inr other ↦ inl (ground (arith, lookup-erase h k s.process_ids))
]
call-process_ids (takes_process k) h s e = inl refl
call-process_ids (takes_module k) h s e = inl refl
call-process_ids (resets_processes k) h s e = inl refl
call-process_ids (resets_modules k) h s e = inl refl
call-process_ids _ h s e = cc

Step-IsSettled : (h pid : ℕ) (t u : Threads) → Step t u → IsSettled h pid t → IsSettled h pid u
Step-IsSettled h pid t _ (takes_handle _ i free room) c =
    rw (generate_handle_lem t.state room) (record {
      given = omega (arith, c.given);
      away = λ j e. ground (arith, c.given, c.away j);
      stands = c.stands;
    })
Step-IsSettled h pid t _ (stores _ i k op mine e) c = record {
  given = omega (arith, c.given, store_at-last op k t.state e);
  away = λ j p. ground (arith, c.away j);
  stands = ground (arith, c.stands, c.away i, store_at-process_ids op h k t.state e);
}
Step-IsSettled h pid t _ (calls _ i op free e) c = record {
  given = omega (arith, c.given, call-last op t.state e);
  away = c.away;
  stands = ground (arith, c.stands, call-process_ids op h t.state e);
}

Steps-IsSettled : (h pid : ℕ) (t u : Threads) → Steps t u → IsSettled h pid t → IsSettled h pid u
Steps-IsSettled h pid t _ (stays _) c = c
Steps-IsSettled h pid t _ (goes _ u v before step) c =
    Step-IsSettled h pid u v step (Steps-IsSettled h pid t u before c)

contained-IsSettled :
    (h pid : ℕ) (t : Threads)
    → IsConsistent t
    → lookup h t.state.process_ids ≡ some pid
    → IsSettled h pid t
contained-IsSettled h pid t c e = record {
  given = ground (arith, c.valid.ids_below h);
  away = λ i mine. ground (arith, (c.unused i h mine).ids);
  stands = inl e;
}

-- A thread that finds a handle among the opened processes, and later asks for its process, as the
-- handlers do under two holds of the mutex, gets the process that the handle stood for at first, or
-- -1 when a thread has closed it in between; never another process, whatever the threads of the
-- server do meanwhile.
pub get_process_id-Steps :
    (h : ℕ) (t u : Threads)
    → Steps begin t
    → contains_process_id_handle h t.state ≡ true
    → Steps t u
    → (get_process_id h u.state ≡ get_process_id h t.state) ⊎ (get_process_id h u.state ≡ minus_one)
unfolding get_process_id contains_process_id_handle
get_process_id-Steps h t u run found more = elim (Option-cases (lookup h t.state.process_ids)) [
  | inl e ↦ absurd (ground arith)
  | inr (pid, e) ↦
      let settled =
        Steps-IsSettled h pid t u more
          (contained-IsSettled h pid t (Steps-begin-IsConsistent t run) e) in
      ground (arith, settled.stands)
]
