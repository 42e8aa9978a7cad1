-- ===== src/Server.antt =====
-- Server.h and Server.cpp: the listening socket, the threads of the connections, and the loop that
-- serves one of them. A thread started is an entry of `client_threads`.
pub mod Session
pub mod Accept
pub mod Crash
pub mod Valid
pub mod Replies
pub mod Joining
pub mod Turns
pub mod Sound
use ceserver_pcileech.Prelude.{ℕ, List, [], ◌∷◌, Bool, true, false, if◌then◌else◌, not}
use ceserver_pcileech.Prelude.Bytes.{of_le}
use ceserver_pcileech.Machine.{Machine, Received, failed, got}
use ceserver_pcileech.Client.Monad.{Ctx, Outcome, ok, fault, Fault, received, after_recv}
use ceserver_pcileech.Client.Dispatch.{dispatch_command}

-- How the loop of a connection has ended: the socket was closed after a failed `recv`, or on the
-- result of a handler; the server was stopped; a handler had no result; or the loop still runs
-- after the given rounds.
pub data Exit (m : Machine) : Type 0 where
  recv_failed dispatch_closed stopped : Ctx m → Exit m
  crashed : Fault → Exit m
  running : Ctx m → Exit m

module _ {m : Machine} where
  abbrev close_socket : Ctx m → Ctx m
  close_socket c = record c { world = m.close c.world }

  -- What follows a handler.
  abbrev pub after_dispatch : (Ctx m → Exit m) → Outcome m Bool → Exit m
  after_dispatch continue_with (ok true c) = continue_with c
  after_dispatch continue_with (ok false c) = dispatch_closed (close_socket c)
  after_dispatch continue_with (fault x) = crashed x

  -- What follows the `recv` of a command's byte. A count of 0 goes round the loop again.
  abbrev pub after_command : (Ctx m → Exit m) → Ctx m → List ℕ → Exit m
  after_command continue_with c [] = continue_with c
  after_command continue_with c (command ∷ _) =
      after_dispatch continue_with (dispatch_command command c)

  abbrev pub after_read : (Ctx m → Exit m) → Ctx m → Received → Exit m
  after_read continue_with c failed = recv_failed (close_socket c)
  after_read continue_with c (got bs) = after_command continue_with c (received 1 (got bs))

  -- The loop of handleClientConnection, which another thread can stop: the list holds what each
  -- round finds in `bStop`.
  unfoldable pub handle_client_connection : List Bool → Ctx m → Exit m
  handle_client_connection [] c = running c
  handle_client_connection (true ∷ stops) c = stopped c
  handle_client_connection (false ∷ stops) c =
      after_read (λ c'. handle_client_connection stops c') (after_recv 1 c) (m.recv c.world 1).0
