-- ===== src/Program.antt =====
-- The program as main.cpp puts it together on Linux: a Server whose Clients talk through a
-- LinuxSocketWrapper and share a class Memory over PCILeech. What POSIX and the VMM library document
-- is all that its theorems assume.
pub mod Main
pub mod Ending
pub mod Names
pub mod Sizes
pub mod Library
use ceserver_pcileech.Prelude.{
  ℕ, ◌≤◌, ◌<◌, ◌^◌, ◌≡◌, refl, List, [], ◌++◌, Bool, true, false, Option, arith, length, replicate,
}
use ceserver_pcileech.Prelude.Maps.{Map}
use ceserver_pcileech.ClientState.{contains_process_id_handle, get_process_id}
use ceserver_pcileech.Machine.{Machine, MemoryApi, NetLaws, MemoryLaws}
use ceserver_pcileech.Memory.Backlog.{
  BacklogItem, Printing, request, dispatch_rounds, max_bytes_per_dispatch,
}
use ceserver_pcileech.Memory.Alone.{requested-blocked}
use ceserver_pcileech.Memory.Device.{Device}
use ceserver_pcileech.Memory.Device.Results.{DeviceLaws}
use ceserver_pcileech.Memory.Api.{memory_api, read_returns_lem, read_never}
use ceserver_pcileech.Sockets.Linux.{Posix, PosixLaws, LinuxSocketWrapper, linux, linux_laws}
use ceserver_pcileech.Client.Monad.{Ctx, fault, never_returns}
use ceserver_pcileech.Client.Facts.{Facts, facts}
use ceserver_pcileech.Client.Spec.{Request, payload, reads_memory}
use ceserver_pcileech.Client.Process.{handle_command_read_process_memory}
use ceserver_pcileech.Client.Blocking.{read_process_memory-never_returns}
use ceserver_pcileech.Server.{handle_client_connection}
use ceserver_pcileech.Server.Session.{
  encode_all, AllFit, answers, Serves, handle_client_connection-answers,
}

-- What is left to the platform: how numbers are printed, where a map puts an entry and which entry
-- comes first, what memory holds that was not written, whether the buffer of a read is given back before
-- it is copied and what it holds then, and for how many rounds behind the first the dispatcher runs
-- while a read waits.
pub record Platform (d : Device) : Type 0 where
  pub printing : Printing
  pub place : ℕ
  pub freed : BacklogItem → d.State → Option (ℕ → ℕ)
  pub rounds : ℕ
  pub junk : ℕ → List ℕ
  pub past_end : List ℕ
  pub first : Map ℕ → Option (ℕ × ℕ)

abbrev pub memory : (d : Device) → Platform d → MemoryApi
memory d platform = memory_api d platform.printing platform.place platform.freed platform.rounds

module _ (os : Posix) (socket : LinuxSocketWrapper) (d : Device) (platform : Platform d) where
  abbrev pub program : Machine
  program = linux os socket (memory d platform) platform.junk platform.past_end platform.first

  abbrev pub program_memory : DeviceLaws d → MemoryLaws program
  program_memory laws = record {
    read_returns =
        read_returns_lem d platform.printing platform.place platform.freed platform.rounds laws;
  }

  module _ (net : PosixLaws os socket) where
    abbrev pub program_net : NetLaws program
    program_net =
        linux_laws os socket (memory d platform) platform.junk platform.past_end platform.first net

    -- On a healthy connection of POSIX and a device whose reads report no more bytes than they were
    -- asked for, the program answers a stream of well-formed requests one by one, as the protocol
    -- says, until one closes the connection or the stream is used up: Server, Client, ClientState,
    -- Memory and the socket together. The server is not stopped, and the reads of other connections
    -- do not meet those of this one in the backlog.
    pub program-answers :
        (device : DeviceLaws d) (rs : List Request) (rest : List ℕ) (c : Ctx program)
        → net.pending c.world ≡ encode_all rs ++ rest
        → AllFit rs
        → let a = answers rs rest (facts program_net c) in
          Serves program_net
            (program_memory device)
            (handle_client_connection (replicate (length rs) false) c)
            a.0
            a.1
    unfolding linux_laws
    program-answers device rs rest c q fits =
        handle_client_connection-answers program_net (program_memory device) rs rest c
          (facts program_net c) refl q fits

    -- A request to read a gigabyte or more through a handle that is open, at an address that is not
    -- zero, is never answered, whatever the device does: for however many rounds the dispatcher runs,
    -- the handler still waits for its read after them. After any number of rounds the backlog, in which
    -- the read is the only one, is as it was.
    pub read_process_memory-blocks :
        (h a n : ℕ) (rest : List ℕ) (c : Ctx program)
        → net.pending c.world ≡ payload (reads_memory h a n 0) ++ rest
        → (h < 256 ^ 4) × (a < 256 ^ 8) × (n < 256 ^ 4)
        → contains_process_id_handle h c.state ≡ true
        → 0 < a
        → max_bytes_per_dispatch ≤ n
        → let item : BacklogItem = record {
          pid = get_process_id h c.state;
          address = a;
          size = n;
        } in
          let backlog = (request platform.printing platform.place item []).1 in
          (handle_command_read_process_memory c ≡ fault never_returns)
          × ((k : ℕ) → dispatch_rounds k backlog ≡ backlog)
    unfolding linux_laws
    read_process_memory-blocks h a n rest c q fits known some_a large =
        let item : BacklogItem = record { pid = get_process_id h c.state; address = a; size = n } in
        (
          read_process_memory-never_returns program_net h a n rest c (facts program_net c) refl q
              fits known some_a (omega arith)
              (read_never d platform.printing platform.place platform.freed platform.rounds item.pid
                a n c.mem large (omega (arith, fits.2))),
          requested-blocked platform.printing platform.place item large (omega (arith, fits.2)),
        )
