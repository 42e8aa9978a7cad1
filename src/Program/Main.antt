-- ===== src/Program/Main.antt =====
-- main.cpp, up to the point from which the server runs on its own.
use ceserver_pcileech.Prelude.{
  [], ◌∷◌, List, ℕ, ◌≡◌, ◌↔◌, refl, Bool, true, false, not, ◌==◌, ==_iff, if◌then◌else◌, Option,
  none, some, Bool-cases, inl, inr, arith,
}
use ceserver_pcileech.Prelude.Bytes.{le_bytes}
use ceserver_pcileech.Memory.Device.{Device}
use ceserver_pcileech.Memory.Lifecycle.{
  Lifecycle, created, destroy, inits, prepare-EndsWell, init-started,
}
use ceserver_pcileech.Memory.Lifecycle
use ceserver_pcileech.Sockets.Linux
use ceserver_pcileech.Server.Accept.{ServerState}
use ceserver_pcileech.Server.Accept
use ceserver_pcileech.Sockets.Windows
use ceserver_pcileech.Sockets.Linux.{Posix, LinuxSocketWrapper}
use ceserver_pcileech.Sockets.Windows.{Winsock, WinsockWrapper}

-- The numbers of the system's headers that main and class Server use.
pub record Headers : Type 0 where
  pub pf_inet : ℕ
  pub sock_stream : ℕ
  pub sol_socket : ℕ
  pub so_reuseaddr : ℕ

-- The socket of the system that main is built for, and what it starts and cleans up around it.
pub record Host : Type 1 where
  pub World : Type 0
  pub Address : Type 0
  pub Socket : Type 0
  pub startup : World → ℕ × World
  pub cleanup : World → World
  pub create_socket : ℕ → ℕ → ℕ → World → Socket × World
  pub destroy_socket : Socket → World → World
  pub setsockopt : Socket → ℕ → ℕ → List ℕ → World → ℕ × World
  pub bind : Socket → Address → World → ℕ × World
  pub listen : Socket → ℕ → World → ℕ × World

-- On Linux there is nothing to start.
abbrev pub linux_host : Posix → Host
linux_host os = record {
  World = os.World;
  Address = os.Address;
  Socket = LinuxSocketWrapper;
  startup = λ w. (0, w);
  cleanup = λ w. w;
  create_socket = ceserver_pcileech.Sockets.Linux.create_socket os;
  destroy_socket = ceserver_pcileech.Sockets.Linux.destroy os;
  setsockopt = ceserver_pcileech.Sockets.Linux.setsockopt os;
  bind = ceserver_pcileech.Sockets.Linux.bind os;
  listen = ceserver_pcileech.Sockets.Linux.listen os;
}

-- `MAKEWORD(2, 2)`
abbrev pub windows_host : Winsock → Host
windows_host os = record {
  World = os.World;
  Address = os.Address;
  Socket = WinsockWrapper;
  startup = os.wsa_startup 0x0202;
  cleanup = os.wsa_cleanup;
  create_socket = ceserver_pcileech.Sockets.Windows.create_socket os;
  destroy_socket = ceserver_pcileech.Sockets.Windows.destroy os;
  setsockopt = ceserver_pcileech.Sockets.Windows.setsockopt os;
  bind = ceserver_pcileech.Sockets.Windows.bind os;
  listen = ceserver_pcileech.Sockets.Windows.listen os;
}

-- The program has returned with a status, before it had made a Memory, or after, and its Memory was
-- destroyed; or its server runs.
pub data Start (host : Host) (d : Device) : Type 0 where
  unstarted : ℕ → host.World → Start host d
  exits : ℕ → Option (Lifecycle d) → host.World → Start host d
  serves : host.Socket → ServerState → Lifecycle d → host.World → Start host d

module _ (host : Host) (headers : Headers) where
  -- `Server::init`, with the calls of its socket: `bind` only where `setsockopt` returned 0.
  unfoldable pub init_server : host.Socket → host.Address → host.World → Bool × host.World
  init_server socket address w =
      let (reuse, w1) =
        host.setsockopt socket headers.sol_socket headers.so_reuseaddr (le_bytes 4 1) w in
      let (bound, w2) = host.bind socket address w1 in
      (ceserver_pcileech.Server.Accept.init reuse bound, if reuse == 0 then w2 else w1)

  -- `Server::start` where no thread exists yet.
  unfoldable pub start_server :
      host.Socket → ServerState → host.World → (Bool × ServerState) × host.World
  start_server socket server w =
      let (listening, w1) = host.listen socket 32 w in
      (ceserver_pcileech.Server.Accept.start listening server, w1)

  module _ (d : Device) where
    unfoldable pub main : host.Address → d.State → host.World → Start host d
    unfolding init_server start_server
    main address s w =
        let (startup, w0) = host.startup w in
        let (socket, w1) = host.create_socket headers.pf_inet headers.sock_stream 0 w0 in
        let (ready, memory) = ceserver_pcileech.Memory.Lifecycle.init d (created d s) in
        let (bound, w2) = init_server socket address w1 in
        let ((started, server), w3) =
          start_server socket
            (record { create_socket = none; b_stop = false; server_thread = false }) w2 in
        if not (startup == 0)
        then unstarted 1 w0
        else if not ready
        then exits 1 (destroy d memory) (host.destroy_socket socket w1)
        else if not started
        then exits 1 (destroy d memory) (host.destroy_socket socket w3)
        else serves socket server memory w3

    abbrev pub is_serving : Start host d → Bool
    is_serving (unstarted _ _) = false
    is_serving (exits _ _ _) = false
    is_serving (serves _ _ _ _) = true

    -- A start that went as it should: one dispatch thread and the thread of the server, or the status
    -- of a failure, once every thread was joined.
    abbrev pub IsProper : Start host d → Type 0
    IsProper (unstarted status w) = status ≡ 1
    IsProper (exits status ended w) =
        (status ≡ 1) × (l : Lifecycle d) × (ended ≡ some l) × (l.ended ≡ l.started)
    IsProper (serves socket server memory w) = (memory.started ≡ 1) × (server.server_thread ≡ true)

    -- The result of `listen` in a start whose Memory is ready.
    abbrev pub listen_result : host.Address → host.World → ℕ
    listen_result address w =
        let (socket, w1) =
          host.create_socket headers.pf_inet headers.sock_stream 0 (host.startup w).1 in
        (host.listen socket 32 (init_server socket address w1).1).0

    abbrev pub ready : d.State → Bool
    ready s = (ceserver_pcileech.Memory.Lifecycle.init d (created d s)).0

    -- On Linux and on Windows the program comes to serve connections exactly where the sockets of the
    -- system could be started, its Memory is ready and `listen` returns 0, whether or not the socket
    -- could be bound to its address. It then has one dispatch thread and the thread of the server; else
    -- it returns 1, before it makes a Memory or once every thread was joined.
    pub main_lem :
        (address : host.Address) (s : d.State) (w : host.World)
        → ((is_serving (main address s w) ≡ true)
            ↔ ((host.startup w).0 ≡ 0) × (ready s ≡ true) × (listen_result address w ≡ 0))
          × IsProper (main address s w)
    unfolding main init_server start_server ceserver_pcileech.Memory.Lifecycle.prepare
        ceserver_pcileech.Server.Accept.start
    main_lem address s w =
        let (l, joined, same, counts) = (prepare-EndsWell d (inits ∷ []) s).1 in
        elim (Bool-cases ((host.startup w).0 == 0)) [
          | inr e0 ↦ rw e0 (((λ q. cc), λ q. ground (arith, q.0)), refl)
          | inl e0 ↦ elim (Bool-cases (ready s)) [
            | inr e ↦ rw (e0, e) (((λ q. cc), λ q. q.1), (refl, l, joined, counts))
            | inl e ↦ elim (Bool-cases (listen_result address w == 0)) [
              | inl e' ↦
                  rw (e0, e, e')
                    (
                      (
                        (λ q. (
                          (==_iff (host.startup w).0 0).0 e0,
                          refl,
                          (==_iff (listen_result address w) 0).0 e',
                        )),
                        λ q. refl,
                      ),
                      (init-started d s e, refl),
                    )
              | inr e' ↦
                  rw (e0, e, e') (((λ q. cc), λ q. ground (arith, q.2)), (refl, l, joined, counts))
            ]
          ]
        ]
