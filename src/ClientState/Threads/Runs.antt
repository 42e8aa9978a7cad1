-- ===== src/ClientState/Threads/Runs.antt =====
-- Calls one after another, as the steps of one thread that no other one interrupts.
use ceserver_pcileech.Prelude.{
  ℕ, ◌+◌, ◌≤◌, ◌<◌, ◌^◌, ◌≡◌, refl, ◌∙◌, subst, List, [], ◌∷◌, true, none, some, arith, Bool-cases,
  inl, inr,
}
use ceserver_pcileech.ClientState.{
  ClientState, Op, is_store, apply, apply_all, stores_in, generate_handle,
}
use ceserver_pcileech.ClientState.Handles.{apply-last, call-last}
use ceserver_pcileech.ClientState.Threads.{
  Threads, Steps, OwnSteps, store_at, update, takes_handle, stores, calls, stays, goes, rests, acts,
  store_at-generate_handle,
}

-- Some steps of thread `i` end in this state, with the handles on their way as they were.
abbrev pub Reaches : ℕ → Threads → ClientState → Type 0
Reaches i t s = (u : Threads) × OwnSteps i t u × (u.state ≡ s) × ((j : ℕ) → u.taken j ≡ t.taken j)

pub OwnSteps-Steps : {i : ℕ} {t u : Threads} → OwnSteps i t u → Steps t u
OwnSteps-Steps (rests t) = stays t
OwnSteps-Steps (acts t u v run step own) = goes t u v (OwnSteps-Steps run) step

OwnSteps-append : {i : ℕ} (t u v : Threads) → OwnSteps i t u → OwnSteps i u v → OwnSteps i t v
OwnSteps-append t u _ before (rests _) = before
OwnSteps-append t u _ before (acts _ v w run step own) =
    acts t v w (OwnSteps-append t u v before run) step own

pub Steps-append : (t u v : Threads) → Steps t u → Steps u v → Steps t v
Steps-append t u _ before (stays _) = before
Steps-append t u _ before (goes _ v w run step) = goes t v w (Steps-append t u v before run) step

pub Reaches-then :
    {i : ℕ} (t u : Threads) (s : ClientState)
    → OwnSteps i t u
    → ((j : ℕ) → u.taken j ≡ t.taken j)
    → Reaches i u s
    → Reaches i t s
Reaches-then t u s run same (v, more, state, taken) =
    (v, OwnSteps-append t u v run more, state, λ j. taken j ∙ same j)

apply-Reaches :
    (op : Op) (t : Threads) (i : ℕ)
    → t.taken i ≡ none
    → (is_store op ≡ true → t.state.last_handle_id + 1 < 2 ^ 31)
    → Reaches i t (apply op t.state)
apply-Reaches op t i free room = elim (Bool-cases (is_store op)) [
  | inr e ↦
      let u : Threads = record { state = apply op t.state; taken = t.taken } in
      (u, acts t t u (rests t) (calls t i op free e) refl, refl, λ j. refl)
  | inl e ↦
      let (h, s) = generate_handle t.state in
      let u : Threads = record { state = s; taken = update i (some h) t.taken } in
      let v : Threads = record { state = store_at op h s; taken = update i none u.taken } in
      let run =
        acts t u v (acts t t u (rests t) (takes_handle t i free (room e)) refl)
          (stores u i h op (ground arith) e) refl in
      (v, run, store_at-generate_handle op t.state e, λ j. ground (arith, free))
]

last_by :
    (op : Op) (s : ClientState)
    → s.last_handle_id + stores_in (op ∷ []) < 2 ^ 31
    → (apply op s).last_handle_id ≤ s.last_handle_id + stores_in (op ∷ [])
last_by op s room = elim (Bool-cases (is_store op)) [
  | inl e ↦ ground (arith, apply-last op s (ground arith))
  | inr e ↦ ground (arith, call-last op s e)
]

pub apply_all-last :
    (ops : List Op) (s : ClientState)
    → s.last_handle_id + stores_in ops < 2 ^ 31
    → (apply_all ops s).last_handle_id ≤ s.last_handle_id + stores_in ops
unfolding apply_all
apply_all-last [] s room = omega arith
apply_all-last (op ∷ ops) s room =
    let last = last_by op s (ground arith) in
    ground (arith, last, apply_all-last ops (apply op s) (ground (arith, last)))

-- Any sequence of calls of one thread is a run of it, as long as the counter has room for each that
-- takes a handle.
pub apply_all-Reaches :
    (ops : List Op) (t : Threads) (i : ℕ)
    → t.taken i ≡ none
    → t.state.last_handle_id + stores_in ops < 2 ^ 31
    → Reaches i t (apply_all ops t.state)
unfolding apply_all
apply_all-Reaches [] t i free room = (t, rests t, refl, λ j. refl)
apply_all-Reaches (op ∷ ops) t i free room =
    let (u, run, state, same) = apply-Reaches op t i free (λ e. ground arith) in
    let last = last_by op t.state (ground arith) in
    Reaches-then t u (apply_all ops (apply op t.state)) run same (
      subst (λ x. Reaches i u (apply_all ops x)) state
        (apply_all-Reaches ops u i (same i ∙ free) (ground (arith, state, last))))
