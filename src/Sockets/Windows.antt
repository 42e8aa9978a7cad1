-- ===== src/Sockets/Windows.antt =====
-- WinsockWrapper.cpp: a socket's methods on the calls of Winsock, and the connection of a Client that
-- has such a socket.
use ceserver_pcileech.Prelude.{
  ℕ, if◌then◌else◌, ◌≡◌, List, [], ◌∷◌, Bool, true, false, not, ◌==◌, ◌++◌, refl, arith, Option,
  none, some, take,
}
use ceserver_pcileech.Prelude.Maps.{or_else}
use ceserver_pcileech.Machine.{Machine, MemoryApi, Net, Polled, Received, failed, got}
use ceserver_pcileech.Sockets.Linux.{count_of}

pub record Winsock : Type 1 where
  pub World : Type 0
  pub Address : Type 0
  -- `WSAStartup(version, &data)` and `WSACleanup()`
  pub wsa_startup : ℕ → World → ℕ × World
  pub wsa_cleanup : World → World
  pub socket : ℕ → ℕ → ℕ → World → ℕ × World
  pub recv : ℕ → ℕ → ℕ → World → Received × World
  pub send : ℕ → List ℕ → ℕ → World → Option ℕ × World
  -- `ioctlsocket(s, FIONBIO, &mode)`
  pub ioctlsocket_fionbio : ℕ → ℕ → World → World
  pub closesocket : ℕ → World → ℕ × World
  pub accept : ℕ → World → ℕ × World
  pub setsockopt : ℕ → ℕ → ℕ → List ℕ → World → ℕ × World
  pub bind : ℕ → Address → World → ℕ × World
  pub listen : ℕ → ℕ → World → ℕ × World
  pub connect : ℕ → Address → World → ℕ × World
  pub getsockname : ℕ → World → Option Address × World
  pub wsa_get_last_error : World → ℕ
  -- `FormatMessage` for the number of an error: the text that it writes, if it has one.
  pub format_message : ℕ → Option (List ℕ)
  pub msg_waitall : ℕ
  pub ewouldblock : ℕ
  pub invalid_socket : ℕ
  pub now : World → ℕ × World
  pub sleep : World → ℕ → World

pub record WinsockWrapper : Type 0 where
  pub socket_ : ℕ

unfoldable pub create_socket : (os : Winsock) → ℕ → ℕ → ℕ → os.World → WinsockWrapper × os.World
create_socket os af type protocol w =
    let (socket, w) = os.socket af type protocol w in (record { socket_ = socket }, w)

-- What a call of `recv` put at the start of its buffer.
abbrev pub bytes_of : Received → List ℕ
bytes_of failed = []
bytes_of (got bs) = bs

abbrev pub newline : ℕ
newline = 10

-- What is in front of the last line feed, as `strrchr` finds it, if there is one.
unfoldable pub before_last_newline : List ℕ → Option (List ℕ)
before_last_newline [] = none
before_last_newline (c ∷ text) = elim (before_last_newline text) [
  | some front ↦ some (c ∷ front)
  | none ↦ if c == newline then some [] else none
]

-- A text without a line feed.
abbrev pub IsLine : List ℕ → Type 0
IsLine [] = Unit
IsLine (c ∷ text) = ((c == newline) ≡ false) × IsLine text

before_last_newline-none : (line : List ℕ) → IsLine line → before_last_newline line ≡ none
unfolding before_last_newline
before_last_newline-none [] l = refl
before_last_newline-none (c ∷ line) (first, l) = ground (arith, before_last_newline-none line l)

-- The text is cut at its last line feed, whatever is in front of it.
pub before_last_newline-some :
    (front line : List ℕ)
    → IsLine line
    → before_last_newline (front ++ (newline ∷ line)) ≡ some front
unfolding before_last_newline
before_last_newline-some [] line l = ground (arith, before_last_newline-none line l)
before_last_newline-some (c ∷ front) line l = ground (arith, before_last_newline-some front line l)

module _ (os : Winsock) (s : WinsockWrapper) where
  unfoldable pub recv : ℕ → ℕ → os.World → Received × os.World
  recv size flags w = os.recv s.socket_ size flags w

  -- The socket is made non-blocking, and stays so.
  unfoldable pub recv_non_blocking : ℕ → ℕ → os.World → Polled × os.World
  unfolding recv
  recv_non_blocking size flags w =
      let (r, w) = recv size flags (os.ioctlsocket_fionbio s.socket_ 1 w) in
      (record { count = count_of r; written = take size (bytes_of r) }, w)

  unfoldable pub send : List ℕ → ℕ → os.World → Option ℕ × os.World
  send bs flags w = os.send s.socket_ bs flags w

  unfoldable pub close : os.World → ℕ × os.World
  close w = os.closesocket s.socket_ w

  -- The destructor, which knows nothing of an earlier `close`.
  unfoldable pub destroy : os.World → os.World
  destroy w = if s.socket_ == 0 then w else (os.closesocket s.socket_ w).1

  unfoldable pub accept : os.World → WinsockWrapper × os.World
  accept w = let (socket, w) = os.accept s.socket_ w in (record { socket_ = socket }, w)

  unfoldable pub valid : Bool
  valid = not (s.socket_ == os.invalid_socket)

  unfoldable pub setsockopt : ℕ → ℕ → List ℕ → os.World → ℕ × os.World
  setsockopt level optname optval w = os.setsockopt s.socket_ level optname optval w

  unfoldable pub bind : os.Address → os.World → ℕ × os.World
  bind name w = os.bind s.socket_ name w

  unfoldable pub listen : ℕ → os.World → ℕ × os.World
  listen backlog w = os.listen s.socket_ backlog w

  unfoldable pub connect : os.Address → os.World → ℕ × os.World
  connect addr w = os.connect s.socket_ addr w

  unfoldable pub getsockname : os.World → Option os.Address × os.World
  getsockname w = os.getsockname s.socket_ w

  unfoldable pub last_error : os.World → ℕ
  last_error w = os.wsa_get_last_error w

  -- `message` is the text in the static array, which a call that fails leaves as it was. The result is
  -- the text that the array then holds.
  unfoldable pub last_error_msg : List ℕ → os.World → List ℕ
  unfolding before_last_newline
  last_error_msg message w =
      let text = or_else (os.format_message (os.wsa_get_last_error w)) message in
      or_else (before_last_newline text) text

abbrev pub windows_net : Winsock → WinsockWrapper → Net
windows_net os s = record {
  World = os.World;
  recv = λ w n. recv os s n os.msg_waitall w;
  recv_non_blocking = λ w n. recv_non_blocking os s n 0 w;
  send = λ w bs. (send os s bs 0 w).1;
  close = λ w. (close os s w).1;
  last_error = last_error os s;
  ewouldblock = os.ewouldblock;
  now = os.now;
  sleep = os.sleep;
}

-- What Winsock documents of FIONBIO: it sets the mode of the socket, which nothing else of these calls
-- changes, and a recv on a non-blocking socket fails when no byte has arrived.
pub record WinsockLaws (os : Winsock) (s : WinsockWrapper) : Type 0 where
  pub nonblocking : os.World → Bool
  pub arrived : os.World → List ℕ
  pub nonblocking-ioctlsocket :
      (w : os.World) → nonblocking (os.ioctlsocket_fionbio s.socket_ 1 w) ≡ true
  pub nonblocking-recv :
      (w : os.World) (n flags : ℕ) → nonblocking (os.recv s.socket_ n flags w).1 ≡ nonblocking w
  pub nonblocking-send :
      (w : os.World) (bs : List ℕ) (flags : ℕ)
      → nonblocking (os.send s.socket_ bs flags w).1 ≡ nonblocking w
  pub nonblocking-now : (w : os.World) → nonblocking (os.now w).1 ≡ nonblocking w
  pub nonblocking-sleep : (w : os.World) (n : ℕ) → nonblocking (os.sleep w n) ≡ nonblocking w
  pub recv_empty :
      (w : os.World) (n flags : ℕ)
      → nonblocking w ≡ true
      → arrived w ≡ []
      → (os.recv s.socket_ n flags w).0 ≡ failed

-- The message of an error that has one: its text up to the last line feed, whatever stood in the array.
pub last_error_msg_lem :
    (os : Winsock) (s : WinsockWrapper) (message front line : List ℕ) (w : os.World)
    → os.format_message (os.wsa_get_last_error w) ≡ some (front ++ (newline ∷ line))
    → IsLine line
    → last_error_msg os s message w ≡ front
unfolding last_error_msg
last_error_msg_lem os s message front line w e l =
    rw (e, before_last_newline-some front line l, last_error_msg) refl

module _ (os : Winsock) (s : WinsockWrapper) (memory : MemoryApi) where
  module _ (junk : ℕ → List ℕ) (past_end : List ℕ) (first : List (ℕ × ℕ) → Option (ℕ × ℕ)) where
    abbrev pub windows : Machine
    windows = record {
      net = windows_net os s;
      memory = memory;
      junk = junk;
      past_end = past_end;
      first = first;
    }
