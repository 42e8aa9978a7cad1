-- ===== src/ClientState/Enumeration.antt =====
-- A client walks a list of processes by calls of `nextProcessInfo` while other connections use the
-- same state.
use ceserver_pcileech.Prelude.{
  ℕ, ◌+◌, ◌≤◌, ◌<◌, ◌^◌, ◌≡◌, ◌≢◌, ap, ◌∙◌, List, [], ◌∷◌, Option, none, some, arith, length,
  get_elem?, drop, drop_next, drop_all, get_elem?-none, get_elem?-some, Option-cases, inl, inr, suc,
}
use ceserver_pcileech.Memory.Region.{ProcessInfo}
use ceserver_pcileech.ClientState.{
  ClientState, Op, next_process_info, apply, apply_all, stores_processes, stores_modules,
  opens_process, closes, takes_process, takes_module, resets_processes, resets_modules,
}
use ceserver_pcileech.ClientState.Handles.{IsValid, apply-IsValid, apply-last}
use ceserver_pcileech.ClientState.View.{
  processes, view, view-apply, next_process_info-view, current_process,
}

-- A call of another connection that leaves the list of processes `h` open and in place.
abbrev pub Leaves : ℕ → Op → Type 0
Leaves h (closes k) = k ≢ h
Leaves h (takes_process k) = k ≢ h
Leaves h (resets_processes k) = k ≢ h
Leaves h _ = Unit

abbrev pub AllLeave : ℕ → List Op → Type 0
AllLeave h [] = Unit
AllLeave h (op ∷ ops) = Leaves h op × AllLeave h ops

-- A handle above the counter stands for nothing.
view_above : (s : ClientState) (h : ℕ) → IsValid s → s.last_handle_id < h → view s h ≡ none
unfolding view
view_above s h v p = ground (arith, v.processes_below h, v.modules_below h, v.ids_below h)

module _ (xs : List ProcessInfo) (i h : ℕ) where
  kept :
      (op : Op) (s : ClientState)
      → s.last_handle_id + 1 < 2 ^ 31
      → IsValid s
      → Leaves h op
      → view s h ≡ some (processes xs i)
      → view (apply op s) h ≡ some (processes xs i)
  kept (stores_processes ys) s room v l e =
      ground (arith, view-apply (stores_processes ys) s h room v, view_above s h v)
  kept (stores_modules ys) s room v l e =
      ground (arith, view-apply (stores_modules ys) s h room v, view_above s h v)
  kept (opens_process pid) s room v l e =
      ground (arith, view-apply (opens_process pid) s h room v, view_above s h v)
  kept (closes k) s room v l e = ground (arith, view-apply (closes k) s h room v)
  kept (takes_process k) s room v l e = ground (arith, view-apply (takes_process k) s h room v)
  kept (takes_module k) s room v l e = ground (arith, view-apply (takes_module k) s h room v)
  kept (resets_processes k) s room v l e =
      ground (arith, view-apply (resets_processes k) s h room v)
  kept (resets_modules k) s room v l e = ground (arith, view-apply (resets_modules k) s h room v)

-- The state of a walk: valid, with the list at place `i`, and `n` numbers left for handles.
record Walks (xs : List ProcessInfo) (i h n : ℕ) (s : ClientState) : Type 0 where
  valid : IsValid s
  room : s.last_handle_id + n + 1 < 2 ^ 31
  here : view s h ≡ some (processes xs i)

Walks-apply_all :
    (ops : List Op) {xs : List ProcessInfo} {i h : ℕ} (n : ℕ) {s : ClientState}
    → AllLeave h ops
    → Walks xs i h (length ops + n) s
    → Walks xs i h n (apply_all ops s)
unfolding apply_all
Walks-apply_all [] n l w = record { valid = w.valid; room = omega (arith, w.room); here = w.here }
Walks-apply_all (op ∷ ops) {xs} {i} {h} n {s} l w = Walks-apply_all ops n l.1 (record {
  valid = apply-IsValid op s (omega (arith, w.room)) w.valid;
  room = omega (arith, w.room, apply-last op s);
  here = kept xs i h op s (omega (arith, w.room)) w.valid l.0 w.here;
})

-- The walk: before each call other connections make the calls of one entry of the schedule. The
-- result is the processes seen up to the null pointer, `none` if the schedule ends before it.
pub collect_processes : List (List Op) → ℕ → ClientState → Option (List ProcessInfo)
collect_processes [] h s = none
collect_processes (others ∷ rest) h s =
    let (entry, s') = next_process_info h (apply_all others s) in
    elim entry [
      | none ↦ some []
      | some x ↦ elim (collect_processes rest h s') [ none ↦ none | some xs ↦ some (x ∷ xs) ]
    ]

abbrev pub AllLeaveIn : ℕ → List (List Op) → Type 0
AllLeaveIn h [] = Unit
AllLeaveIn h (ops ∷ rest) = AllLeave h ops × AllLeaveIn h rest

-- The number of calls in a schedule, those of the walk included.
abbrev pub calls : List (List Op) → ℕ
calls [] = 0
calls (ops ∷ rest) = length ops + suc (calls rest)

-- One call of the walk that finds an entry.
Walks-takes :
    {xs : List ProcessInfo} {i h n : ℕ} {s : ClientState}
    → i < length xs
    → Walks xs i h n s
    → Walks xs (i + 1) h n (next_process_info h s).1
Walks-takes {xs} {i} {h} {n} {s} lt w = record {
  valid = unfold apply in apply-IsValid (takes_process h) s (omega (arith, w.room)) w.valid;
  room = unfold next_process_info in w.room;
  here =
      unfold apply in
      ground (arith, view-apply (takes_process h) s h (omega (arith, w.room)) w.valid, w.here);
}

collect_rest :
    (schedule : List (List Op)) (xs : List ProcessInfo) (i h : ℕ) (s : ClientState)
    → AllLeaveIn h schedule
    → Walks xs i h (calls schedule) s
    → length xs < i + length schedule
    → i ≤ length xs
    → collect_processes schedule h s ≡ some (drop i xs)
unfolding collect_processes
collect_rest [] xs i h s l w lt le = absurd (omega arith)
collect_rest (others ∷ rest) xs i h s l w lt le =
    let w' : Walks xs i h (suc (calls rest)) (apply_all others s) =
      Walks-apply_all others (suc (calls rest)) l.0 w in
    let seen : (next_process_info h (apply_all others s)).0 ≡ get_elem? xs i =
      next_process_info-view h (apply_all others s) ∙ ap current_process w'.here in
    elim (Option-cases (get_elem? xs i)) [
      | inl e ↦ ground (arith, drop_all i xs (get_elem?-none xs i e))
      | inr (x, e) ↦
          let ih =
            collect_rest rest xs (i + 1) h (next_process_info h (apply_all others s)).1 l.1
              (Walks-takes (get_elem?-some xs i e)
                (record { valid = w'.valid; room = omega (arith, w'.room); here = w'.here }))
              (omega arith) (omega (arith, get_elem?-some xs i e)) in
          ground (arith, ih, drop_next xs i e)
    ]

-- A walk that starts at the head of a list, with other connections calling in between as they like
-- but not on this handle, sees every process once and in order, then the null pointer. The schedule
-- must have more rounds than the list has entries, and there must be numbers left for the handles
-- that the other calls ask for.
pub collect_processes_complete :
    (schedule : List (List Op)) (xs : List ProcessInfo) (h : ℕ) (s : ClientState)
    → IsValid s
    → view s h ≡ some (processes xs 0)
    → AllLeaveIn h schedule
    → s.last_handle_id + calls schedule + 1 < 2 ^ 31
    → length xs < length schedule
    → collect_processes schedule h s ≡ some xs
collect_processes_complete schedule xs h s v e l room lt =
    collect_rest schedule xs 0 h s l (record { valid = v; room = room; here = e }) (omega arith)
      (omega arith)
