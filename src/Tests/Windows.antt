-- ===== src/Tests/Windows.antt =====
-- The theorem on a socket of Windows, at a small Winsock.
use ceserver_pcileech.Prelude.{
  ℕ, ◌+◌, ◌≡◌, refl, List, [], ◌∷◌, Bool, true, false, ◌&&◌, ◌^◌, ◌-◌, if◌then◌else◌, some, length,
  take, drop, replicate,
}
use ceserver_pcileech.Prelude.Bytes.{codes, le_bytes, of_le}
use ceserver_pcileech.Prelude.Maps.{lookup}
use ceserver_pcileech.ClientState.{ClientState, init, apply, contains_process_id_handle}
use ceserver_pcileech.ClientState.{store_open_process, generate_handle, opens_process}
use ceserver_pcileech.Machine.{Machine, got, failed}
use ceserver_pcileech.Client.Monad.{Ctx, ok, fault, bad_array_new_length, never_returns}
use ceserver_pcileech.Client.Process.{
  handle_command_get_architecture, poll_handle, send_architecture,
}
use ceserver_pcileech.Server.{recv_failed, handle_client_connection}
use ceserver_pcileech.Sockets.Windows.{
  Winsock, WinsockLaws, WinsockWrapper, windows, last_error_msg,
}
use ceserver_pcileech.Sockets.WindowsPoll.{get_architecture-closes}
use ceserver_pcileech.Tests.Toy.{toy_memory, first_entry, one_open, is_empty}

-- A socket of Windows with its mode: bytes, clock and FIONBIO.
abbrev winsock : Winsock
winsock = record {
  World = (List ℕ × ℕ) × Bool;
  Address = ℕ;
  wsa_startup = λ v w. (0, w);
  wsa_cleanup = λ w. w;
  socket = λ a t p w. (3, w);
  setsockopt = λ s l o v w. (0, w);
  bind = λ s a w. (0, w);
  listen = λ s n w. (0, w);
  connect = λ s a w. (0, w);
  getsockname = λ s w. (some 0, w);
  accept = λ s w. (4, w);
  invalid_socket = 2 ^ 64 - 1;
  recv = λ s n flags w.
      if w.1 && is_empty w.0.0
      then (failed, w)
      else (got (take n w.0.0), ((drop n w.0.0, w.0.1), w.1));
  send = λ s bs flags w. (some (length bs), w);
  ioctlsocket_fionbio = λ s mode w. (w.0, true);
  closesocket = λ s w. (0, w);
  wsa_get_last_error = λ w. 0;
  format_message = λ n. some (codes "ok\r\n");
  msg_waitall = 8;
  ewouldblock = 10035;
  now = λ w. (w.0.1, w);
  sleep = λ w n. ((w.0.0, w.0.1 + n), w.1);
}

abbrev fifth : WinsockWrapper
fifth = record { socket_ = 5 }

keeps_mode : (w : winsock.World) (n flags : ℕ) → (winsock.recv 5 n flags w).1.1 ≡ w.1
keeps_mode ((x ∷ xs, t), true) n flags = refl
keeps_mode (([], t), true) n flags = refl
keeps_mode (b, false) n flags = refl

fails_empty :
    (w : winsock.World) (n flags : ℕ)
    → w.1 ≡ true
    → w.0.0 ≡ []
    → (winsock.recv 5 n flags w).0 ≡ failed
fails_empty w n flags p q = rw (p, q) refl

abbrev winsock_laws : WinsockLaws winsock fifth
winsock_laws = record {
  nonblocking = λ w. w.1;
  arrived = λ w. w.0.0;
  nonblocking-ioctlsocket = λ w. refl;
  nonblocking-recv = keeps_mode;
  nonblocking-send = λ w bs flags. refl;
  nonblocking-now = λ w. refl;
  nonblocking-sleep = λ w n. refl;
  recv_empty = fails_empty;
}

abbrev on_windows : Machine
on_windows = windows winsock fifth toy_memory (λ n. replicate n 0) [] first_entry

abbrev asked : Ctx on_windows
asked = record {
  state = one_open;
  connection_name = [];
  world = ((le_bytes 4 1, 0), false);
  mem = tt;
  sent = [];
}

abbrev told : Ctx on_windows
told = record asked { world = (([], 0), true); sent = 1 ∷ [] }

asked_told : handle_command_get_architecture asked ≡ ok true told
unfolding handle_command_get_architecture poll_handle le_bytes of_le contains_process_id_handle
    lookup send_architecture ceserver_pcileech.Client.Monad.send_word
    ceserver_pcileech.Client.Monad.send ceserver_pcileech.Sockets.Windows.recv_non_blocking
    ceserver_pcileech.Sockets.Windows.recv ceserver_pcileech.Sockets.Windows.send
    ceserver_pcileech.Sockets.Windows.last_error ceserver_pcileech.ClientState.get_process_id
    ceserver_pcileech.Client.Protection.get_architecture_from_memory_model
asked_told = refl

get_architecture-closes_example :
    handle_client_connection (false ∷ false ∷ []) told
    ≡ recv_failed (record told { world = on_windows.close (on_windows.recv told.world 1).1 })
get_architecture-closes_example =
    get_architecture-closes winsock fifth toy_memory (λ n. replicate n 0) [] first_entry
      winsock_laws asked told (false ∷ []) asked_told refl

-- The carriage return in front of the line feed stays in the message.
message_kept : last_error_msg winsock fifth [] (([], 0), false) ≡ codes "ok\r"
unfolding last_error_msg ceserver_pcileech.Sockets.Windows.before_last_newline
message_kept = refl
