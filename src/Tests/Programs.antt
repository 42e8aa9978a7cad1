-- ===== src/Tests/Programs.antt =====
-- The theorems on the sockets and on the whole program, at a small operating system.
use ceserver_pcileech.Prelude.{
  ◌↔◌, ℕ, ◌+◌, ◌≡◌, refl, List, [], ◌∷◌, true, false, ◌^◌, arith, some, length, take, drop,
  replicate,
}
use ceserver_pcileech.Prelude.Bytes.{le_bytes}
use ceserver_pcileech.Prelude.Maps.{lookup}
use ceserver_pcileech.ClientState.{
  ClientState, init, apply, contains_process_id_handle, get_process_id,
}
use ceserver_pcileech.ClientState.{opens_process}
use ceserver_pcileech.ClientState.Handles.{init-IsValid, apply-IsValid}
use ceserver_pcileech.Machine.{Machine, got}
use ceserver_pcileech.Memory.Backlog.{BacklogItem, request, dispatch_rounds}
use ceserver_pcileech.Memory.Device.{Device}
use ceserver_pcileech.Client.Monad.{Ctx, fault, bad_array_new_length, never_returns}
use ceserver_pcileech.Client.Facts.{facts}
use ceserver_pcileech.Client.Spec.{Request, payload, reads_memory, asks_abi, closes_connection}
use ceserver_pcileech.Client.Lengths.{writes}
use ceserver_pcileech.Client.Process.{
  handle_command_get_architecture, handle_command_read_process_memory,
}
use ceserver_pcileech.Server.{crashed, handle_client_connection}
use ceserver_pcileech.Server.Session.{encode_all, answers, Serves}
use ceserver_pcileech.Server.Crash.{handle_client_connection-throws}
use ceserver_pcileech.Sockets.Linux.{Posix, PosixLaws, LinuxSocketWrapper, linux}
use ceserver_pcileech.Sockets.LinuxPoll.{OpenOnlyIf, LegacyIsOpen, get_architecture-OpenOnlyIf}
use ceserver_pcileech.Program.{
  Platform, program, program_net, program_memory, program-answers, read_process_memory-blocks,
}
use ceserver_pcileech.Tests.Toy.{toy_laws, toy_memory, first_entry, one_open, connected}
use ceserver_pcileech.Program.Main.{
  Headers, Host, linux_host, main, is_serving, IsProper, listen_result, ready, main_lem,
}
use ceserver_pcileech.Tests.Reads.{zeros, zeros_laws, unary}

-- Every socket is one stream of bytes, with a clock beside it.
abbrev pub posix : Posix
posix = record {
  World = List ℕ × ℕ;
  Address = ℕ;
  socket = λ a t p w. (3, w);
  setsockopt = λ s l o v w. (0, w);
  bind = λ s a w. (0, w);
  listen = λ s n w. (0, w);
  connect = λ s a w. (0, w);
  getsockname = λ s w. (some 0, w);
  strerror = λ n. [];
  recv = λ s n flags w. (got (take n w.0), (drop n w.0, w.1));
  send = λ s bs flags w. (some (length bs), w);
  accept = λ s w. (s + 1, w);
  close = λ s w. (0, w);
  errno = λ w. 11;
  msg_waitall = 256;
  msg_dontwait = 64;
  ewouldblock = 11;
  now = λ w. (w.1, w);
  sleep = λ w n. (w.0, w.1 + n);
}

abbrev pub fourth : LinuxSocketWrapper
fourth = record { socket_ = 4 }

abbrev pub posix_laws : PosixLaws posix fourth
posix_laws = record {
  pending = λ w. w.0;
  recv_all = λ w n le. refl;
  pending-recv = λ w n le. refl;
  pending-send = λ w bs. refl;
}

abbrev pub platform : {d : Device} → Platform d
platform = record {
  printing = unary;
  place = 0;
  freed = λ item s. some (λ i. 170);
  rounds = 2;
  junk = λ n. replicate n 0;
  past_end = [];
  first = first_entry;
}

abbrev whole : Machine
whole = program posix fourth zeros platform

abbrev at_start : List ℕ → Ctx whole
at_start bs = record {
  state = one_open;
  connection_name = [];
  world = (bs, 0);
  mem = tt;
  sent = [];
}

abbrev four_requests : List Request
four_requests = asks_abi ∷ reads_memory 1 4096 4 0 ∷ asks_abi ∷ closes_connection ∷ []

program-answers_example :
    let a = answers four_requests [] (
      facts
        (program_net posix fourth zeros platform posix_laws)
        (at_start (encode_all four_requests))) in
    Serves
      (program_net posix fourth zeros platform posix_laws)
      (program_memory posix fourth zeros platform zeros_laws)
      (handle_client_connection (replicate 4 false) (at_start (encode_all four_requests)))
      a.0
      a.1
unfolding le_bytes
program-answers_example =
    program-answers posix fourth zeros platform posix_laws zeros_laws four_requests []
      (at_start (encode_all four_requests)) refl
      (tt, ((omega arith, omega arith, omega arith, omega arith), (tt, (tt, tt))))

read_process_memory-blocks_example :
    let item : BacklogItem = record {
      pid = get_process_id 1 one_open;
      address = 4096;
      size = 2000000000;
    } in
    let backlog = (request unary 0 item []).1 in
    (handle_command_read_process_memory (at_start (payload (reads_memory 1 4096 2000000000 0)))
      ≡ fault never_returns)
    × ((k : ℕ) → dispatch_rounds k backlog ≡ backlog)
unfolding contains_process_id_handle lookup le_bytes
read_process_memory-blocks_example =
    read_process_memory-blocks posix fourth zeros platform posix_laws 1 4096 2000000000 []
      (at_start (payload (reads_memory 1 4096 2000000000 0))) refl
      (omega arith, omega arith, omega arith) refl (omega arith) (omega arith)

-- A process whose id is the handle that it gets.
abbrev coincidence : ClientState
coincidence = apply (opens_process 1) init

abbrev polled : Ctx (linux posix fourth toy_memory (λ n. replicate n 0) [] first_entry)
polled = record {
  state = coincidence;
  connection_name = [];
  world = (le_bytes 4 1, 0);
  mem = tt;
  sent = [];
}

get_architecture-OpenOnlyIf_example :
    OpenOnlyIf (LegacyIsOpen first_entry coincidence) (handle_command_get_architecture polled)
unfolding init
get_architecture-OpenOnlyIf_example =
    get_architecture-OpenOnlyIf posix fourth toy_memory (λ n. replicate n 0) [] first_entry polled
      (apply-IsValid (opens_process 1) init (omega arith) init-IsValid)

-- CMD_WRITEPROCESSMEMORY with a length of 2 ^ 31.
abbrev crashing : List ℕ
crashing = 10 ∷ 1 ∷ 0 ∷ 0 ∷ 0 ∷ 0 ∷ 16 ∷ 0 ∷ 0 ∷ 0 ∷ 0 ∷ 0 ∷ 0 ∷ 0 ∷ 0 ∷ 0 ∷ 128 ∷ []

handle_client_connection-throws_example :
    handle_client_connection (false ∷ []) (connected crashing) ≡ crashed bad_array_new_length
unfolding le_bytes
handle_client_connection-throws_example =
    handle_client_connection-throws toy_laws (writes 1 4096 (2 ^ 31)) [] [] (connected crashing)
      refl (omega arith, omega arith, omega arith) (omega arith)

abbrev headers : Headers
headers = record { pf_inet = 2; sock_stream = 1; sol_socket = 1; so_reuseaddr = 2 }

abbrev host : Host
host = linux_host posix

main_lem_example :
    ((is_serving host headers zeros (main host headers zeros 0 tt ([], 0)) ≡ true)
      ↔ ((host.startup ([], 0)).0 ≡ 0)
        × (ready host headers zeros tt ≡ true)
        × (listen_result host headers zeros 0 ([], 0) ≡ 0))
    × IsProper host headers zeros (main host headers zeros 0 tt ([], 0))
main_lem_example = main_lem host headers zeros 0 tt ([], 0)
