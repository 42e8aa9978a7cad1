-- ===== src/Sockets/WindowsPoll.antt =====
-- CMD_GETARCHITECTURE on a socket of Windows, and the next command.
use ceserver_pcileech.Prelude.{
  ℕ, zero, suc, ◌+◌, ◌≡◌, subst, ◌∙◌, List, [], ◌∷◌, Bool, true, false, Option, if◌then◌else◌, leb,
  Bool-cases, inl, inr, ◌==◌,
}
use ceserver_pcileech.Prelude.Bytes.{le_bytes}
use ceserver_pcileech.Prelude.Maps.{Map}
use ceserver_pcileech.ClientState.{
  contains_process_id_handle, get_process_handle_legacy_ce, minus_one,
}
use ceserver_pcileech.Machine.{Machine, MemoryApi}
use ceserver_pcileech.Client.Monad.{M, Ctx, Outcome, ok, fault, ◌>>=◌, send, send_word}
use ceserver_pcileech.Client.Polling.{after_poll}
use ceserver_pcileech.Client.Process.{
  poll_handle, poll_rounds, is_positive, handle_command_get_architecture, send_architecture,
}
use ceserver_pcileech.Server.{recv_failed, handle_client_connection}
use ceserver_pcileech.Sockets.Windows.{
  Winsock, WinsockWrapper, WinsockLaws, windows, recv, recv_non_blocking,
}

module _ (os : Winsock) (socket : WinsockWrapper) (memory : MemoryApi) where
  module _ (junk : ℕ → List ℕ) (past_end : List ℕ) (first : Map ℕ → Option (ℕ × ℕ)) where
    abbrev pub here : Machine
    here = windows os socket memory junk past_end first

    module _ (laws : WinsockLaws os socket) where
      -- A computation whose result leaves the socket non-blocking.
      abbrev LeavesNonblocking : {A : Type 0} → Outcome here A → Type 0
      LeavesNonblocking (ok a c) = laws.nonblocking c.world ≡ true
      LeavesNonblocking (fault x) = Unit

      after_round : (w : os.World) → laws.nonblocking (recv_non_blocking os socket 4 0 w).1 ≡ true
      unfolding recv_non_blocking recv
      after_round w =
          laws.nonblocking-recv (os.ioctlsocket_fionbio socket.socket_ 1 w) 4 0
          ∙ laws.nonblocking-ioctlsocket w

      poll_handle-LeavesNonblocking :
          (fuel timeout : ℕ) (handle : List ℕ) (c : Ctx here)
          → LeavesNonblocking (poll_handle fuel timeout handle c)
      unfolding poll_handle
      poll_handle-LeavesNonblocking zero timeout handle c = tt
      poll_handle-LeavesNonblocking (suc fuel) timeout handle c =
          let polled = recv_non_blocking os socket 4 0 c.world in
          let now = os.now polled.1 in
          elim (Bool-cases (is_positive polled.0.count)) [
            | inl e ↦ rw e (after_round c.world)
            | inr e ↦ elim (Bool-cases (leb timeout now.0)) [
              | inl e' ↦ rw (e, e') (laws.nonblocking-now polled.1 ∙ after_round c.world)
              | inr e' ↦
                  rw (e, e')
                    (poll_handle-LeavesNonblocking fuel timeout _
                      (record c { world = os.sleep now.1 100 }))
            ]
          ]

      bind-LeavesNonblocking :
          {A B : Type 0} (e : M here A) (f : A → M here B) (c : Ctx here)
          → LeavesNonblocking (e c)
          → ((a : A) (c' : Ctx here)
              → laws.nonblocking c'.world ≡ true
              → LeavesNonblocking (f a c'))
          → LeavesNonblocking ((e >>= f) c)
      bind-LeavesNonblocking {A} e f c left k = go (e c) left
        where
          go : (o : Outcome here A) → LeavesNonblocking o → LeavesNonblocking (((λ d. o) >>= f) c)
          go (ok a c') p = k a c' p
          go (fault x) p = tt

      after_poll-LeavesNonblocking :
          (polled : ℕ) (c : Ctx here)
          → laws.nonblocking c.world ≡ true
          → LeavesNonblocking (after_poll polled c)
      unfolding send_architecture send_word send ceserver_pcileech.Sockets.Windows.send
      after_poll-LeavesNonblocking polled c p =
          let legacy = get_process_handle_legacy_ce first c.state in
          let handle = if here.last_error c.world == os.ewouldblock then legacy else polled in
          elim (Bool-cases (contains_process_id_handle handle c.state)) [
            | inl e ↦ rw e (laws.nonblocking-send c.world _ 0 ∙ p)
            | inr e ↦ rw e p
          ]

      get_architecture-LeavesNonblocking :
          (c : Ctx here) → LeavesNonblocking (handle_command_get_architecture c)
      unfolding handle_command_get_architecture
      get_architecture-LeavesNonblocking c =
          let (now, w) = os.now c.world in
          let d : Ctx here = record c { world = w } in
          bind-LeavesNonblocking (poll_handle poll_rounds (now + 1000) (le_bytes 4 minus_one))
            after_poll d
            (poll_handle-LeavesNonblocking poll_rounds (now + 1000) (le_bytes 4 minus_one) d)
            after_poll-LeavesNonblocking

      -- On Windows a connection that was asked for the architecture, and answered, is closed by the next
      -- round of its loop unless the next command has arrived already: polling leaves the socket
      -- non-blocking, so that waiting for a byte fails.
      pub get_architecture-closes :
          (c c' : Ctx here) (stops : List Bool)
          → handle_command_get_architecture c ≡ ok true c'
          → laws.arrived c'.world ≡ []
          → handle_client_connection (false ∷ stops) c'
            ≡ recv_failed (record c' { world = here.close (here.recv c'.world 1).1 })
      unfolding handle_client_connection recv
      get_architecture-closes c c' stops e none_there = rw (
          laws.recv_empty c'.world 1 os.msg_waitall
            (subst LeavesNonblocking e (get_architecture-LeavesNonblocking c)) none_there)
