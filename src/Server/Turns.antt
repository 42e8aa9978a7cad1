-- ===== src/Server/Turns.antt =====
-- A whole connection as a run of its thread on the shared state, beside the other threads of the server.
use ceserver_pcileech.Prelude.{
  ℕ, ◌+◌, ◌≤◌, ◌<◌, ◌^◌, ◌≡◌, refl, sym, ap, ◌∙◌, subst, List, [], ◌∷◌, ◌++◌, Bool, true, false,
  none, arith, length, replicate, Bool-cases, inl, inr,
}
use ceserver_pcileech.ClientState.{ClientState, apply_all}
use ceserver_pcileech.ClientState.Threads.{Threads, Steps, begin, rests}
use ceserver_pcileech.ClientState.Threads.Runs.{Reaches-then}
use ceserver_pcileech.ClientState.Threads.Runs.{
  Reaches, Steps-append, OwnSteps-Steps, apply_all-Reaches, apply_all-last,
}
use ceserver_pcileech.Machine.{Machine, NetLaws, MemoryLaws}
use ceserver_pcileech.Client.Monad.{Ctx}
use ceserver_pcileech.Client.Facts.{Facts, facts}
use ceserver_pcileech.Client.Effects.{effects, answer-apply_all}
use ceserver_pcileech.Client.Valid.{effects-le}
use ceserver_pcileech.Client.Spec.{Request, answer}
use ceserver_pcileech.Server.{
  Exit, recv_failed, dispatch_closed, stopped, crashed, running, handle_client_connection,
}
use ceserver_pcileech.Server.Session.{
  encode_all, AllFit, answers, Serves, handle_client_connection-answers,
}

-- A reachable state, with the handles that are on their way in `t`.
abbrev pub ReachedFrom : Threads → ClientState → Type 0
ReachedFrom t s = (u : Threads) × Steps begin u × (u.state ≡ s) × ((j : ℕ) → u.taken j ≡ t.taken j)

module _ {m : Machine} where
  answer-Reaches :
      (r : Request) (s : Facts m) (t : Threads) (i : ℕ)
      → t.state ≡ s.state
      → t.taken i ≡ none
      → t.state.last_handle_id + 1 < 2 ^ 31
      → Reaches i t (answer r s).1.state
  answer-Reaches r s t i same free room =
      let (u, run, state, taken) =
        apply_all-Reaches (effects r s) t i free (omega (arith, effects-le r s)) in
      (u, run, state ∙ ap (apply_all (effects r s)) same ∙ sym (answer-apply_all r s), taken)

  answer-last :
      (r : Request) (s : Facts m)
      → s.state.last_handle_id + 1 < 2 ^ 31
      → (answer r s).1.state.last_handle_id ≤ s.state.last_handle_id + 1
  answer-last r s room = omega (
    arith,
    ap (λ t. t.last_handle_id) (answer-apply_all r s),
    apply_all-last (effects r s) s.state,
    effects-le r s,
  )

  answers-Reaches :
      (rs : List Request) (rest : List ℕ) (s : Facts m) (t : Threads) (i : ℕ)
      → t.state ≡ s.state
      → t.taken i ≡ none
      → s.state.last_handle_id + length rs < 2 ^ 31
      → Reaches i t (answers rs rest s).1.state
  unfolding answers
  answers-Reaches [] rest s t i same free room = (t, rests t, same, λ j. refl)
  answers-Reaches (r ∷ rs) rest s t i same free room =
      let s' : Facts m = record s { pending = encode_all rs ++ rest } in
      let (u, run, state, taken) = answer-Reaches r s' t i same free (ground (arith, same)) in
      let last = answer-last r s' (omega arith) in
      elim (Bool-cases (answer r s').0) [
        | inr e ↦ rw e (u, run, state, taken)
        | inl e ↦ rw e (
            Reaches-then t u (answers rs rest (answer r s').1).1.state run taken (
              answers-Reaches rs rest (answer r s').1 u i state (taken i ∙ free)
                (omega (arith, last))))
      ]

-- The loop of a connection has not ended the process, and the state that it leaves is one that steps of
-- the threads reach from a new server's, with the same handles on their way.
abbrev pub LeavesReachable : {m : Machine} → Threads → Exit m → Type 0
LeavesReachable t (recv_failed c) = ReachedFrom t c.state
LeavesReachable t (dispatch_closed c) = ReachedFrom t c.state
LeavesReachable t (stopped c) = ReachedFrom t c.state
LeavesReachable t (running c) = ReachedFrom t c.state
LeavesReachable t (crashed x) = ⊥

module _ {m : Machine} (laws : NetLaws m) (device : MemoryLaws m) where
  Serves-LeavesReachable :
      (t : Threads) (e : Exit m) (b : Bool) (f : Facts m)
      → Serves laws device e b f
      → ReachedFrom t f.state
      → LeavesReachable t e
  Serves-LeavesReachable t e true f (c, p, q) v =
      subst (LeavesReachable t) (sym p) (subst (ReachedFrom t) (sym (ap (λ u. u.state) q)) v)
  Serves-LeavesReachable t e false f (c, p, q) v =
      subst (LeavesReachable t) (sym p) (subst (ReachedFrom t) (sym (ap (λ u. u.state) q)) v)

  -- A connection that sends well-formed requests, answered until one closes it or the stream is used
  -- up, makes of the shared handles what steps of its thread make of them. It begins in any state that
  -- the threads of the server can have reached, also where others stand between the two steps of a
  -- store, and leaves one that they can reach, with those handles still on their way, so that all
  -- that holds in every reachable state holds in it; and the process runs on. The thread itself is
  -- not within a store, the counter of handles has room below INT_MAX for one with each request, the
  -- device returns no more bytes than were asked for, the server is not stopped, and the other
  -- threads take no steps meanwhile.
  pub handle_client_connection-LeavesReachable :
      (rs : List Request) (rest : List ℕ) (c : Ctx m) (t : Threads) (i : ℕ)
      → laws.pending c.world ≡ encode_all rs ++ rest
      → AllFit rs
      → Steps begin t
      → t.state ≡ c.state
      → t.taken i ≡ none
      → c.state.last_handle_id + length rs < 2 ^ 31
      → LeavesReachable t (handle_client_connection (replicate (length rs) false) c)
  handle_client_connection-LeavesReachable rs rest c t i q fits run same free room =
      let a = answers rs rest (facts laws c) in
      let (u, more, state, taken) = answers-Reaches rs rest (facts laws c) t i same free room in
      Serves-LeavesReachable t (handle_client_connection (replicate (length rs) false) c) a.0 a.1
        (handle_client_connection-answers laws device rs rest c (facts laws c) refl q fits)
        (u, Steps-append begin t u run (OwnSteps-Steps more), state, taken)
