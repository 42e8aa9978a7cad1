-- ===== src/Sockets/Linux.antt =====
-- LinuxSocketWrapper.cpp: a socket's methods on the calls of POSIX, and the connection of a Client
-- that has such a socket.
use ceserver_pcileech.Prelude.{
  ℕ, ◌≤◌, ◌^◌, ◌≡◌, List, [], Bool, Option, none, some, length, take, drop, ltb, bit_or,
  if◌then◌else◌, ◌==◌,
}
use ceserver_pcileech.Machine.{Machine, MemoryApi, Net, NetLaws, Polled, Received, failed, got}

-- The calls of POSIX and of the C++ clock. The numbers of a call are those of the C signature: the
-- socket, the size, the flags.
pub record Posix : Type 1 where
  pub World : Type 0
  pub Address : Type 0
  pub socket : ℕ → ℕ → ℕ → World → ℕ × World
  pub recv : ℕ → ℕ → ℕ → World → Received × World
  pub send : ℕ → List ℕ → ℕ → World → Option ℕ × World
  pub accept : ℕ → World → ℕ × World
  pub close : ℕ → World → ℕ × World
  pub setsockopt : ℕ → ℕ → ℕ → List ℕ → World → ℕ × World
  pub bind : ℕ → Address → World → ℕ × World
  pub listen : ℕ → ℕ → World → ℕ × World
  pub connect : ℕ → Address → World → ℕ × World
  pub getsockname : ℕ → World → Option Address × World
  pub errno : World → ℕ
  pub strerror : ℕ → List ℕ
  pub msg_waitall : ℕ
  pub msg_dontwait : ℕ
  pub ewouldblock : ℕ
  pub now : World → ℕ × World
  pub sleep : World → ℕ → World

pub record LinuxSocketWrapper : Type 0 where
  pub socket_ : ℕ

unfoldable pub create_socket : (os : Posix) → ℕ → ℕ → ℕ → os.World → LinuxSocketWrapper × os.World
create_socket os af type protocol w =
    let (socket, w) = os.socket af type protocol w in (record { socket_ = socket }, w)

-- The result of a call that returns a count.
abbrev pub count_of : Received → Option ℕ
count_of failed = none
count_of (got bs) = some (length bs)

module _ (os : Posix) (s : LinuxSocketWrapper) where
  unfoldable pub recv : ℕ → ℕ → os.World → Received × os.World
  recv size flags w = os.recv s.socket_ size flags w

  -- `recv((char *) &buffer, …)`: the bytes go over the parameter `buffer` itself, a pointer of eight
  -- bytes, so that nothing arrives where it points.
  unfoldable pub recv_non_blocking : ℕ → ℕ → os.World → Polled × os.World
  unfolding recv
  recv_non_blocking size flags w =
      let (r, w) = recv size (bit_or os.msg_dontwait flags) w in
      (record { count = count_of r; written = [] }, w)

  unfoldable pub send : List ℕ → ℕ → os.World → Option ℕ × os.World
  send bs flags w = os.send s.socket_ bs flags w

  unfoldable pub close : os.World → ℕ × os.World
  close w = os.close s.socket_ w

  -- The destructor, which knows nothing of an earlier `close`.
  unfoldable pub destroy : os.World → os.World
  destroy w = if s.socket_ == 0 then w else (os.close s.socket_ w).1

  unfoldable pub last_error : os.World → ℕ
  last_error w = os.errno w

  unfoldable pub last_error_msg : os.World → List ℕ
  last_error_msg w = os.strerror (os.errno w)

  unfoldable pub setsockopt : ℕ → ℕ → List ℕ → os.World → ℕ × os.World
  setsockopt level optname optval w = os.setsockopt s.socket_ level optname optval w

  unfoldable pub bind : os.Address → os.World → ℕ × os.World
  bind name w = os.bind s.socket_ name w

  unfoldable pub listen : ℕ → os.World → ℕ × os.World
  listen backlog w = os.listen s.socket_ backlog w

  unfoldable pub connect : os.Address → os.World → ℕ × os.World
  connect addr w = os.connect s.socket_ addr w

  unfoldable pub getsockname : os.World → Option os.Address × os.World
  getsockname w = os.getsockname s.socket_ w

  -- A new wrapper also for the -1 of a call that failed.
  unfoldable pub accept : os.World → LinuxSocketWrapper × os.World
  accept w = let (socket, w) = os.accept s.socket_ w in (record { socket_ = socket }, w)

-- `socket_ < 0`, for the bit pattern of an `int`.
unfoldable pub valid : LinuxSocketWrapper → Bool
valid s = ltb s.socket_ (2 ^ 31)

-- The connection of a Client, which receives with MSG_WAITALL, polls and sends with no flags.
abbrev pub linux_net : Posix → LinuxSocketWrapper → Net
linux_net os s = record {
  World = os.World;
  recv = λ w n. recv os s n os.msg_waitall w;
  recv_non_blocking = λ w n. recv_non_blocking os s n 0 w;
  send = λ w bs. (send os s bs 0 w).1;
  close = λ w. (close os s w).1;
  last_error = last_error os s;
  ewouldblock = os.ewouldblock;
  now = os.now;
  sleep = os.sleep;
}

-- What POSIX documents of a connection that is healthy: with MSG_WAITALL a call of recv waits for the
-- whole amount, and sending takes nothing from what the peer has sent.
pub record PosixLaws (os : Posix) (s : LinuxSocketWrapper) : Type 0 where
  pub pending : os.World → List ℕ
  pub recv_all :
      (w : os.World) (n : ℕ)
      → n ≤ length (pending w)
      → (os.recv s.socket_ n os.msg_waitall w).0 ≡ got (take n (pending w))
  pub pending-recv :
      (w : os.World) (n : ℕ)
      → n ≤ length (pending w)
      → pending (os.recv s.socket_ n os.msg_waitall w).1 ≡ drop n (pending w)
  pub pending-send : (w : os.World) (bs : List ℕ) → pending (os.send s.socket_ bs 0 w).1 ≡ pending w

-- A machine on Linux.
module _ (os : Posix) (s : LinuxSocketWrapper) (memory : MemoryApi) where
  module _ (junk : ℕ → List ℕ) (past_end : List ℕ) (first : List (ℕ × ℕ) → Option (ℕ × ℕ)) where
    abbrev pub linux : Machine
    linux = record {
      net = linux_net os s;
      memory = memory;
      junk = junk;
      past_end = past_end;
      first = first;
    }

    -- The wrapper hands the laws of the calls on to the Client.
    unfoldable pub linux_laws : PosixLaws os s → NetLaws linux
    unfolding recv send
    linux_laws laws = record {
      pending = laws.pending;
      recv_all = laws.recv_all;
      pending-recv = laws.pending-recv;
      pending-send = laws.pending-send;
    }
