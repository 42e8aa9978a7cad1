-- ===== src/Server/Accept.antt =====
-- The listening side of class Server: init, start, the loop of the thread that start creates, stop. What
-- becomes of the threads is Server/Joining.
-- What the calls of the server's socket return is given to the functions.
use ceserver_pcileech.Prelude.{
  ℕ, suc, ◌+◌, ◌≤◌, ◌≡◌, refl, List, [], ◌∷◌, ◌++◌, Bool, true, false, not, Option, some, ◌==◌,
  arith, if◌then◌else◌,
}

pub record ServerState : Type 0 where
  -- `createSocket`: which function of the program, if any. Nothing calls it.
  pub create_socket : Option ℕ
  pub b_stop : Bool
  -- Whether the thread of the accept loop exists.
  pub server_thread : Bool

unfoldable pub set_socket_factory : ℕ → ServerState → ServerState
set_socket_factory func s = record s { create_socket = some func }

-- `Server::init`, from the results of `setsockopt` and `bind`.
unfoldable pub init : ℕ → ℕ → Bool
init reuse_result bind_result =
    if not (reuse_result == 0) then false else if not (bind_result == 0) then false else true

-- `Server::start`, from the result of `listen`, which is called where no thread exists.
unfoldable pub start : ℕ → ServerState → Bool × ServerState
start listen_result s =
    if s.server_thread
    then (false, s)
    else if not (listen_result == 0)
    then (false, s)
    else (true, record s { server_thread = true })

unfoldable pub stop : ServerState → ServerState
stop s = record s { b_stop = true }

-- What `accept` returned in a round: a null pointer, or a socket, with the result of setting
-- TCP_NODELAY on it.
pub data Incoming : Type 0 where
  nothing : Incoming
  socket : ℕ → ℕ → Incoming

-- The sockets that a thread serves, and those that were closed.
pub record Accepting : Type 0 where
  pub client_threads : List ℕ
  pub closed : List ℕ

unfoldable pub accept_round : Incoming → Accepting → Accepting
accept_round nothing a = a
accept_round (socket s no_delay_result) a =
    if not (no_delay_result == 0)
    then record a { closed = s ∷ a.closed }
    else record a { client_threads = a.client_threads ++ s ∷ [] }

-- The loop, with what each round finds in `bStop` and what it accepts. Behind the loop every thread
-- of the list is joined.
unfoldable pub accept_loop : List (Bool × Incoming) → Accepting → Accepting
accept_loop [] a = a
accept_loop ((true, incoming) ∷ rounds) a = a
accept_loop ((false, incoming) ∷ rounds) a = accept_loop rounds (accept_round incoming a)

abbrev pub count : ℕ → List ℕ → ℕ
count x [] = 0
count x (y ∷ ys) = let rest = count x ys in if x == y then suc rest else rest

-- The sockets that were accepted before the stop.
abbrev pub accepted : List (Bool × Incoming) → List ℕ
accepted [] = []
accepted ((true, incoming) ∷ rounds) = []
accepted ((false, nothing) ∷ rounds) = accepted rounds
accepted ((false, socket s r) ∷ rounds) = s ∷ accepted rounds

count-append : (x : ℕ) (ys zs : List ℕ) → count x (ys ++ zs) ≡ count x ys + count x zs
count-append x [] zs = omega arith
count-append x (y ∷ ys) zs = ground (arith, count-append x ys zs)

-- Each socket that is accepted before the stop is added, as often as it was accepted, to the
-- sockets that have a thread and those that were closed, counted together: none is lost, and none
-- is both served and closed.
pub count-accept_loop :
    (x : ℕ) (rounds : List (Bool × Incoming)) (a : Accepting)
    → let b = accept_loop rounds a in
      count x b.client_threads + count x b.closed
      ≡ count x (accepted rounds) + (count x a.client_threads + count x a.closed)
unfolding accept_loop accept_round
count-accept_loop x [] a = omega arith
count-accept_loop x ((true, incoming) ∷ rounds) a = omega arith
count-accept_loop x ((false, nothing) ∷ rounds) a = count-accept_loop x rounds a
count-accept_loop x ((false, socket s r) ∷ rounds) a = ground (
  arith,
  count-accept_loop x rounds (record a { closed = s ∷ a.closed }),
  count-accept_loop x rounds (record a { client_threads = a.client_threads ++ s ∷ [] }),
  count-append x a.client_threads (s ∷ []),
)

-- The number of successes in a row of calls of `start`, from the results of `listen`.
unfoldable pub starts : List ℕ → ServerState → ℕ
starts [] s = 0
starts (r ∷ rs) s =
    let (ok, s') = start r s in let rest = starts rs s' in if ok then suc rest else rest

starts-running :
    (rs : List ℕ) (f : Option ℕ) (b : Bool)
    → starts rs (record { create_socket = f; b_stop = b; server_thread = true }) ≡ 0
unfolding starts start
starts-running [] f b = refl
starts-running (r ∷ rs) f b = starts-running rs f b

-- However often `start` is called and whatever `listen` returns, it succeeds once at most, so there
-- is one accept loop at most.
pub starts-le : (rs : List ℕ) (s : ServerState) → starts rs s ≤ 1
unfolding starts start
starts-le [] s = omega arith
starts-le (r ∷ rs) s = ground (arith, starts-le rs s, starts-running rs s.create_socket s.b_stop)
