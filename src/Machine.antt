-- ===== src/Machine.antt =====
-- What a Client stands on, as parameters of the model.
--
-- Net is the interface of SocketWrapper.h with the clock of the C++ library. The receiving and the
-- sending of bytes are the operating system's. Memory.h's class Memory is behind the interface
-- MemoryApi, as it is behind virtual methods in the source; the modules below Memory model it.
use ceserver_pcileech.Prelude.{
  ℕ, ◌+◌, ◌≤◌, ◌<◌, ◌≡◌, List, [], Bool, true, Option, some, length, take, drop,
}
use ceserver_pcileech.Prelude.Maps.{Map}
use ceserver_pcileech.Memory.Region.{ProcessInfo, ThreadInfo, MemoryRegion, MemoryModel}

-- What a call of `recv` did: -1, or the bytes that it put at the start of the buffer, as many as it
-- returns.
pub data Received : Type 0 where
  failed : Received
  got : List ℕ → Received

-- What a call of `recvNonBlocking` did: the count that it returns (`none` for -1), and the bytes that
-- it put into the buffer of its caller.
pub record Polled : Type 0 where
  pub count : Option ℕ
  pub written : List ℕ

pub record Net : Type 1 where
  -- The connection and the clock.
  pub World : Type 0
  -- `recv(buffer, size, MSG_WAITALL)`
  pub recv : World → ℕ → Received × World
  pub recv_non_blocking : World → ℕ → Polled × World
  pub send : World → List ℕ → World
  pub close : World → World
  pub last_error : World → ℕ
  pub ewouldblock : ℕ
  -- Milliseconds.
  pub now : World → ℕ × World
  pub sleep : World → ℕ → World

pub record MemoryApi : Type 1 where
  pub Mem : Type 0
  pub get_process_snapshot : Mem → List ProcessInfo × Mem
  pub get_module_snapshot : ℕ → Mem → List MemoryRegion × Mem
  pub get_thread_snapshot : ℕ → Mem → List ThreadInfo × Mem
  -- Process, address and size. The result is the number returned and the bytes copied to the buffer,
  -- or `none` for a call that does not return.
  pub read : ℕ → ℕ → ℕ → Mem → Option ((ℕ × List ℕ) × Mem)
  -- The buffer, the process, the address and the size.
  pub write : List ℕ → ℕ → ℕ → ℕ → Mem → ℕ × Mem
  pub get_memory_model : ℕ → Mem → MemoryModel × Mem

pub record Machine : Type 1 where
  pub net : Net
  pub open net use *
  pub memory : MemoryApi
  pub open memory use *
  -- What a new array of `n` bytes holds before it is written.
  pub junk : ℕ → List ℕ
  -- What lies on the stack behind the array `sz` of vadProtectionToHumanReadable, up to a zero.
  pub past_end : List ℕ
  -- The entry that the iteration over an unordered_map begins with.
  pub first : Map ℕ → Option (ℕ × ℕ)

-- What POSIX and Winsock document of a healthy connection: `pending` is what the peer has sent or
-- will send and the program has not yet read, and MSG_WAITALL waits for the whole amount.
pub record NetLaws (m : Machine) : Type 0 where
  pub pending : m.World → List ℕ
  pub recv_all :
      (w : m.World) (n : ℕ) → n ≤ length (pending w) → (m.recv w n).0 ≡ got (take n (pending w))
  pub pending-recv :
      (w : m.World) (n : ℕ) → n ≤ length (pending w) → pending (m.recv w n).1 ≡ drop n (pending w)
  pub pending-send : (w : m.World) (bs : List ℕ) → pending (m.send w bs) ≡ pending w

-- What Memory.h promises of `read`: for less than a gigabyte it returns, and not more than was asked
-- for.
pub record MemoryLaws (m : Machine) : Type 0 where
  pub read_returns :
      (pid address size : ℕ) (d : m.Mem)
      → size < 1000000000
      → (r : ℕ × List ℕ) × (d' : m.Mem) × (m.read pid address size d ≡ some (r, d')) × (r.0 ≤ size)

-- What the C++ library documents of its clocks, with time in whole milliseconds: polling does not
-- turn the clock back, and a sleep lasts at least as long as asked.
pub record ClockLaws (m : Machine) : Type 0 where
  pub time : m.World → ℕ
  pub now_lem : (w : m.World) → (m.now w).0 ≡ time w
  pub time-now : (w : m.World) → time w ≤ time (m.now w).1
  pub time-poll : (w : m.World) (n : ℕ) → time w ≤ time (m.recv_non_blocking w n).1
  pub time-sleep : (w : m.World) (n : ℕ) → time w + n ≤ time (m.sleep w n)

-- Once the peer has closed its end and all was read, `recv` returns 0 at once, now and later.
pub record EndLaws (m : Machine) : Type 0 where
  pub at_end : m.World → Bool
  pub recv_end : (w : m.World) (n : ℕ) → at_end w ≡ true → (m.recv w n).0 ≡ got []
  pub at_end-recv : (w : m.World) (n : ℕ) → at_end w ≡ true → at_end (m.recv w n).1 ≡ true
