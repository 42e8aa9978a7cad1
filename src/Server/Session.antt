-- ===== src/Server/Session.antt =====
-- A whole connection: the loop of the server on a stream of requests.
use ceserver_pcileech.Prelude.{
  ℕ, zero, suc, ◌≡◌, refl, ap, ◌∙◌, if◌then◌else◌, List, [], ◌∷◌, ◌++◌, Bool, true, false, arith,
  append_assoc, length, replicate,
}
use ceserver_pcileech.Commands.{command_code}
use ceserver_pcileech.Machine.{Machine, NetLaws, MemoryLaws, EndLaws}
use ceserver_pcileech.Client.Monad.{Ctx, ok, after_recv}
use ceserver_pcileech.Client.Facts.{Facts, facts, after_recv-facts}
use ceserver_pcileech.Client.Spec.{
  Request, request_command, payload, Fits, answer, makes_snapshot, makes_snapshot_ex, asks_process,
  asks_module, closes_handle, opens_process, starts_debug, asks_version, asks_abi, asks_options,
  closes_connection, terminates_server, sets_name, asks_symbols, reads_memory, writes_memory,
  asks_region, asks_regions,
}
use ceserver_pcileech.Client.Answers.{dispatch_command-answer}
use ceserver_pcileech.Server.{
  Exit, running, dispatch_closed, handle_client_connection, after_dispatch,
}

-- A request on the wire.
abbrev pub encode : Request → List ℕ
encode r = command_code (request_command r) ∷ payload r

abbrev pub encode_all : List Request → List ℕ
encode_all [] = []
encode_all (r ∷ rs) = encode r ++ encode_all rs

abbrev pub AllFit : List Request → Type 0
AllFit [] = Unit
AllFit (r ∷ rs) = Fits r × AllFit rs

module _ {m : Machine} where
  -- The answers to a stream of requests with `rest` behind it. An answer that closes the connection
  -- is the last.
  unfoldable pub answers : List Request → List ℕ → Facts m → Bool × Facts m
  answers [] rest s = (true, record s { pending = rest })
  answers (r ∷ rs) rest s =
      let (keep, t) = answer r (record s { pending = encode_all rs ++ rest }) in
      if keep then answers rs rest t else (false, t)

  -- An answer reads nothing beyond its request.
  answer-pending : (r : Request) (s : Facts m) → (answer r s).1.pending ≡ s.pending
  answer-pending (makes_snapshot flags pid) s = ground arith
  answer-pending (makes_snapshot_ex flags pid) s = ground arith
  answer-pending (asks_process b h) s = ground arith
  answer-pending (asks_module b h) s = ground arith
  answer-pending (closes_handle h) s = refl
  answer-pending (opens_process pid) s = refl
  answer-pending (starts_debug h) s = refl
  answer-pending asks_version s = refl
  answer-pending asks_abi s = refl
  answer-pending asks_options s = refl
  answer-pending closes_connection s = refl
  answer-pending terminates_server s = refl
  answer-pending (sets_name name) s = refl
  answer-pending (asks_symbols path) s = refl
  answer-pending (reads_memory h a n z) s = ground arith
  answer-pending (writes_memory h a bs) s = ground arith
  answer-pending (asks_region b h a) s = ground arith
  answer-pending (asks_regions h flags) s = ground arith

module _ {m : Machine} (laws : NetLaws m) (device : MemoryLaws m) where
  -- A loop that still runs, or that has closed its socket, with the given facts before the close.
  abbrev pub Serves : Exit m → Bool → Facts m → Type 0
  Serves e true t = (c : Ctx m) × (e ≡ running c) × (facts laws c ≡ t)
  Serves e false t =
      (c : Ctx m) × (e ≡ dispatch_closed (record c { world = m.close c.world }))
      × (facts laws c ≡ t)

  after_dispatch-Serves :
      (k : Ctx m → Exit m) (c : Ctx m) (keep : Bool) (t : Facts m) (x : Bool × Facts m)
      → facts laws c ≡ t
      → (keep ≡ true → Serves (k c) x.0 x.1)
      → let y = if keep then x else (false, t) in Serves (after_dispatch k (ok keep c)) y.0 y.1
  after_dispatch-Serves k c true t x p h = h refl
  after_dispatch-Serves k c false t x p h = (c, refl, p)

  -- On a connection where a stream of well-formed requests comes next, the loop reads them one by
  -- one, each from its first byte to its last, and answers each as the specification says, in order,
  -- until one closes the connection or the stream is used up. The device returns no more bytes than
  -- were asked for, and the server is not stopped.
  pub handle_client_connection-answers :
      (rs : List Request) (rest : List ℕ) (c : Ctx m) (s : Facts m)
      → facts laws c ≡ s
      → s.pending ≡ encode_all rs ++ rest
      → AllFit rs
      → let a = answers rs rest s in
        Serves (handle_client_connection (replicate (length rs) false) c) a.0 a.1
  unfolding handle_client_connection answers
  handle_client_connection-answers [] rest c s p q f =
      (c, refl, p ∙ ap (λ r. record s { pending = r }) q)
  handle_client_connection-answers (r ∷ rs) rest c s p q f =
      let code = command_code (request_command r) in
      let behind = payload r ++ (encode_all rs ++ rest) in
      let split : laws.pending c.world ≡ (code ∷ []) ++ behind =
        ap (λ t. t.pending) p
        ∙ q
        ∙ ap (λ t. code ∷ t) (append_assoc (payload r) (encode_all rs) rest) in
      let (byte, p1) = after_recv-facts laws 1 (code ∷ []) behind c refl split in
      let (c', e, p') =
        dispatch_command-answer laws device r (encode_all rs ++ rest) (after_recv 1 c)
          (record s { pending = behind })
          (p1 ∙ ap {B = Facts m} (λ t. record t { pending = behind }) p) refl f.0 in
      let a = answer r (record s { pending = encode_all rs ++ rest }) in
      let go : Ctx m → Exit m = λ d. handle_client_connection (replicate (length rs) false) d in
      rw (byte, e)
        (after_dispatch-Serves go c' a.0 a.1 (answers rs rest a.1) p' (λ _.
          handle_client_connection-answers rs rest c' a.1 p'
            (answer-pending r (record s { pending = encode_all rs ++ rest })) f.1))

-- When the peer has closed its end and all was read, the loop goes round without end as long as
-- the server is not stopped: after any number of rounds it still runs, and it has sent nothing and
-- left the shared state as it was.
pub handle_client_connection-at_end :
    {m : Machine} (laws : EndLaws m) (n : ℕ) (c : Ctx m)
    → laws.at_end c.world ≡ true
    → (c' : Ctx m) × (handle_client_connection (replicate n false) c ≡ running c')
      × (c'.sent ≡ c.sent)
      × (c'.state ≡ c.state)
unfolding handle_client_connection
handle_client_connection-at_end laws zero c h = (c, refl, refl, refl)
handle_client_connection-at_end laws (suc n) c h =
    let (c', e, sent, state) =
      handle_client_connection-at_end laws n (after_recv 1 c) (laws.at_end-recv c.world 1 h) in
    (c', rw (laws.recv_end c.world 1 h) e, sent, state)
