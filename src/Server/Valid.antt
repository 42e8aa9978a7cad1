-- ===== src/Server/Valid.antt =====
-- What whole connections make of the state that they share.
use ceserver_pcileech.Prelude.{
  ℕ, ◌+◌, ◌<◌, ◌^◌, ◌≡◌, refl, sym, ap, subst, List, [], ◌∷◌, ◌++◌, Bool, true, false, arith,
  length, replicate, Bool-cases, inl, inr,
}
use ceserver_pcileech.ClientState.Handles.{IsValid}
use ceserver_pcileech.Machine.{Machine, NetLaws, MemoryLaws}
use ceserver_pcileech.Client.Monad.{Ctx}
use ceserver_pcileech.Client.Facts.{Facts, facts}
use ceserver_pcileech.Client.Spec.{Request, answer}
use ceserver_pcileech.Client.Valid.{answer-Kept}
use ceserver_pcileech.Server.{
  Exit, recv_failed, dispatch_closed, stopped, crashed, running, handle_client_connection,
}
use ceserver_pcileech.Server.Session.{
  encode_all, AllFit, answers, Serves, handle_client_connection-answers,
}

answers-IsValid :
    {m : Machine} (rs : List Request) (rest : List ℕ) (s : Facts m)
    → s.state.last_handle_id + length rs < 2 ^ 31
    → IsValid s.state
    → IsValid (answers rs rest s).1.state
unfolding answers
answers-IsValid [] rest s room v = v
answers-IsValid (r ∷ rs) rest s room v =
    let t = record s { pending = encode_all rs ++ rest } in
    let kept = answer-Kept t (omega arith) v r in
    elim (Bool-cases (answer r t).0) [
      | inl e ↦
          rw e (answers-IsValid rs rest (answer r t).1 (omega (arith, kept.last_le)) kept.valid)
      | inr e ↦ rw e kept.valid
    ]

-- The loop of a connection has not ended the process, and leaves a valid state to the others.
abbrev pub LeavesValid : {m : Machine} → Exit m → Type 0
LeavesValid (recv_failed c) = IsValid c.state
LeavesValid (dispatch_closed c) = IsValid c.state
LeavesValid (stopped c) = IsValid c.state
LeavesValid (running c) = IsValid c.state
LeavesValid (crashed x) = ⊥

module _ {m : Machine} (laws : NetLaws m) (device : MemoryLaws m) where
  Serves-LeavesValid :
      (e : Exit m) (b : Bool) (t : Facts m)
      → Serves laws device e b t
      → IsValid t.state
      → LeavesValid e
  Serves-LeavesValid e true t (c, p, q) v =
      subst LeavesValid (sym p) (subst IsValid (sym (ap (λ u. u.state) q)) v)
  Serves-LeavesValid e false t (c, p, q) v =
      subst LeavesValid (sym p) (subst IsValid (sym (ap (λ u. u.state) q)) v)

  -- A connection that sends well-formed requests, answered until one closes it or the stream is used
  -- up, leaves the handles that all connections share in a valid state, if they were so before, and
  -- the process running. The counter of handles has room below INT_MAX for one with each request, the
  -- device returns no more bytes than were asked for, the server is not stopped, and the other
  -- connections wait meanwhile.
  pub handle_client_connection-LeavesValid :
      (rs : List Request) (rest : List ℕ) (c : Ctx m)
      → laws.pending c.world ≡ encode_all rs ++ rest
      → AllFit rs
      → c.state.last_handle_id + length rs < 2 ^ 31
      → IsValid c.state
      → LeavesValid (handle_client_connection (replicate (length rs) false) c)
  handle_client_connection-LeavesValid rs rest c q fits room v =
      let a = answers rs rest (facts laws c) in
      Serves-LeavesValid (handle_client_connection (replicate (length rs) false) c) a.0 a.1
        (handle_client_connection-answers laws device rs rest c (facts laws c) refl q fits)
        (answers-IsValid rs rest (facts laws c) room v)
