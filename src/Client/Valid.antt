-- ===== src/Client/Valid.antt =====
-- What the answers of the protocol make of the shared state, by the calls that they make of it.
use ceserver_pcileech.Prelude.{
  ℕ, ◌+◌, ◌≤◌, ◌<◌, ◌^◌, sym, subst, List, [], ◌∷◌, true, false, arith, Bool-cases, inl, inr,
}
use ceserver_pcileech.ClientState.{ClientState, Op, is_store, apply, apply_all, stores_in}
use ceserver_pcileech.ClientState.Handles.{
  IsValid, apply-IsValid, call-IsValid, apply-last, call-last,
}
use ceserver_pcileech.Machine.{Machine}
use ceserver_pcileech.Client.Facts.{Facts}
use ceserver_pcileech.Client.Effects.{effects, answer-apply_all}
use ceserver_pcileech.Client.Spec.{
  makes_snapshot, makes_snapshot_ex, asks_process, asks_module, Request, answer,
}

-- A valid state in which `n` handles more were given out at most.
record KeptBy (n : ℕ) (s t : ClientState) : Type 0 where
  valid : IsValid t
  last_le : t.last_handle_id ≤ s.last_handle_id + n

apply_all-KeptBy :
    (ops : List Op) (s : ClientState)
    → s.last_handle_id + stores_in ops < 2 ^ 31
    → IsValid s
    → KeptBy (stores_in ops) s (apply_all ops s)
unfolding apply_all
apply_all-KeptBy [] s room v = record { valid = v; last_le = omega arith }
apply_all-KeptBy (op ∷ ops) s room v = elim (Bool-cases (is_store op)) [
  | inl e ↦
      let last = apply-last op s (ground arith) in
      let k =
        apply_all-KeptBy ops (apply op s) (ground (arith, last))
          (apply-IsValid op s (ground arith) v) in
      record { valid = k.valid; last_le = ground (arith, last, k.last_le) }
  | inr e ↦
      let last = call-last op s e in
      let k = apply_all-KeptBy ops (apply op s) (ground (arith, last)) (call-IsValid op s e v) in
      record { valid = k.valid; last_le = ground (arith, last, k.last_le) }
]

pub effects-le : {m : Machine} (r : Request) (s : Facts m) → stores_in (effects r s) ≤ 1
effects-le (makes_snapshot flags pid) s = ground arith
effects-le (makes_snapshot_ex flags pid) s = ground arith
effects-le (asks_process true h) s = ground arith
effects-le (asks_process false h) s = ground arith
effects-le (asks_module true h) s = ground arith
effects-le (asks_module false h) s = ground arith
effects-le _ s = omega arith

-- A valid state in which one handle more was given out at most.
pub record Kept (s t : ClientState) : Type 0 where
  pub valid : IsValid t
  pub last_le : t.last_handle_id ≤ s.last_handle_id + 1

-- The answer to a request leaves a valid state, with one handle more at most.
pub answer-Kept :
    {m : Machine} (s : Facts m)
    → s.state.last_handle_id + 1 < 2 ^ 31
    → IsValid s.state
    → (r : Request) → Kept s.state (answer r s).1.state
answer-Kept s room v r =
    let k = apply_all-KeptBy (effects r s) s.state (omega (arith, effects-le r s)) v in
    subst (Kept s.state) (sym (answer-apply_all r s))
      (record { valid = k.valid; last_le = omega (arith, k.last_le, effects-le r s) })
