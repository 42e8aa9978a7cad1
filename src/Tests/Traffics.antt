-- ===== src/Tests/Traffics.antt =====
-- The theorems on the threads of class Memory and on descriptors, at concrete runs.
use ceserver_pcileech.Prelude.{
  ◌+◌, ◌≤◌, length, some, ℕ, zero, suc, ◌<◌, ◌≡◌, refl, List, [], ◌∷◌, Bool, true, false, ◌==◌,
  if◌then◌else◌, arith, none,
}
use ceserver_pcileech.Memory.Backlog.{backlog_key, find, request, same_text}
use ceserver_pcileech.Memory.Traffic.{
  Traffic, at_start, enter, start_dispatch, Reachable, begins, steps, enters, works, dispatches,
}
use ceserver_pcileech.Memory.Traffic.Invariant.{Waits}
use ceserver_pcileech.Memory.Traffic.Delivery.{AllCalls, Reachable-Waits, Reachable-delivers}
use ceserver_pcileech.Memory.Traffic.Runs.{Runs, rounds}
use ceserver_pcileech.Memory.Lifecycle.{EndsWell, prepare, created, inits, starts, prepare-EndsWell}
use ceserver_pcileech.Sockets.Linux.{Posix, LinuxSocketWrapper, accept, close, destroy, valid}
use ceserver_pcileech.Sockets.Descriptors.{DescriptorLaws, destroy-accept}
use ceserver_pcileech.Machine.{got}
use ceserver_pcileech.Memory.Traffic.Values
use ceserver_pcileech.Memory.Traffic.Values.{Valued, valued_start, run_dispatch}
use ceserver_pcileech.Memory.Traffic.Integrity.{IsServed, Reachable-AllCalls}
use ceserver_pcileech.Memory.Pacing.{
  Surroundings, PaceLaws, Waited, IsDue, wait_for_backlog, wait_for_backlog-Due,
}
use ceserver_pcileech.Tests.Reads.{small, small_fits, unary, unary_laws, zeros, zeros_laws}

-- A reader comes, a second one with the same request, and a round takes it.
abbrev first_call : Traffic
first_call = enter unary 0 small at_start

abbrev second_call : Traffic
second_call = enter unary 0 small first_call

second_call-Reachable : Reachable unary second_call
second_call-Reachable =
    steps (steps begins (enters 0 small at_start small_fits)) (enters 0 small first_call small_fits)

second_call_idle : second_call.running ≡ []
unfolding enter backlog_key request find same_text
second_call_idle = refl

taken-Reachable : Reachable unary (start_dispatch second_call)
taken-Reachable = steps second_call-Reachable (works (dispatches second_call second_call_idle))

Reachable-Waits_example :
    ((start_dispatch second_call).rejected ≡ false)
    × AllCalls
        (λ item n.
          ((start_dispatch second_call).contents n ≡ item) × Waits (start_dispatch second_call) n)
        (start_dispatch second_call).calls
Reachable-Waits_example = Reachable-Waits unary_laws taken-Reachable

Reachable-delivers_example :
    (t' : Traffic) × (runs : Runs second_call t') × (rounds runs ≤ length second_call.backlog)
    × (t'.calls ≡ second_call.calls)
    × AllCalls (λ item n. t'.has_value n ≡ true) second_call.calls
unfolding enter backlog_key request find same_text
Reachable-delivers_example = Reachable-delivers second_call second_call-Reachable (omega arith, tt)

prepare-EndsWell_example : EndsWell zeros (prepare zeros (inits ∷ starts ∷ []) (created zeros tt))
prepare-EndsWell_example = prepare-EndsWell zeros (inits ∷ starts ∷ []) tt

-- A table of descriptors: whether each number is open.
abbrev is_open : List Bool → ℕ → Bool
is_open [] n = false
is_open (b ∷ bs) zero = b
is_open (b ∷ bs) (suc n) = is_open bs n

abbrev closed : ℕ → List Bool → List Bool
closed n [] = []
closed zero (b ∷ bs) = false ∷ bs
closed (suc n) (b ∷ bs) = b ∷ closed n bs

abbrev lowest : List Bool → ℕ
lowest [] = 0
lowest (true ∷ bs) = suc (lowest bs)
lowest (false ∷ bs) = 0

abbrev opened : List Bool → List Bool
opened [] = true ∷ []
opened (true ∷ bs) = true ∷ opened bs
opened (false ∷ bs) = true ∷ bs

abbrev tables : Posix
tables = record {
  World = List Bool;
  Address = ℕ;
  socket = λ a t p w. (3, w);
  setsockopt = λ s l o v w. (0, w);
  bind = λ s a w. (0, w);
  listen = λ s n w. (0, w);
  connect = λ s a w. (0, w);
  getsockname = λ s w. (some 0, w);
  strerror = λ n. [];
  recv = λ s n flags w. (got [], w);
  send = λ s bs flags w. (none, w);
  accept = λ s w. (lowest w, opened w);
  close = λ s w. (0, closed s w);
  errno = λ w. 0;
  msg_waitall = 256;
  msg_dontwait = 64;
  ewouldblock = 11;
  now = λ w. (0, w);
  sleep = λ w n. w;
}

is_open-closed :
    (w : List Bool) (n j : ℕ) → is_open (closed n w) j ≡ (if j == n then false else is_open w j)
is_open-closed [] n j = ground arith
is_open-closed (b ∷ bs) zero zero = refl
is_open-closed (b ∷ bs) zero (suc j) = ground arith
is_open-closed (b ∷ bs) (suc n) zero = ground arith
is_open-closed (b ∷ bs) (suc n) (suc j) = ground (arith, is_open-closed bs n j)

lowest_free : (w : List Bool) → is_open w (lowest w) ≡ false
lowest_free [] = refl
lowest_free (true ∷ bs) = lowest_free bs
lowest_free (false ∷ bs) = refl

below_lowest : (w : List Bool) (j : ℕ) → j < lowest w → is_open w j ≡ true
below_lowest [] j lt = absurd (omega (arith, lt))
below_lowest (true ∷ bs) zero lt = refl
below_lowest (true ∷ bs) (suc j) lt = below_lowest bs j (omega (arith, lt))
below_lowest (false ∷ bs) j lt = absurd (omega (arith, lt))

abbrev tables_laws : DescriptorLaws tables
tables_laws = record {
  is_open = is_open;
  is_open-close = is_open-closed;
  was_free = λ w s lt. lowest_free w;
  is_lowest = λ w s j small lt. below_lowest w j lt;
}

-- The server's socket is 3, a connection 4.
abbrev five_open : List Bool
five_open = true ∷ true ∷ true ∷ true ∷ true ∷ []

below_fourth : (j : ℕ) → j < 4 → is_open five_open j ≡ true
below_fourth zero lt = refl
below_fourth (suc zero) lt = refl
below_fourth (suc (suc zero)) lt = refl
below_fourth (suc (suc (suc zero))) lt = refl
below_fourth (suc (suc (suc (suc j)))) lt = absurd (omega (arith, lt))

abbrev connection : LinuxSocketWrapper
connection = record { socket_ = 4 }

abbrev server : LinuxSocketWrapper
server = record { socket_ = 3 }

destroy-accept_example :
    let (new, w) = accept tables server (close tables connection five_open).1 in
    (new.socket_ ≡ 4) × (is_open (destroy tables connection w) new.socket_ ≡ false)
unfolding accept close valid
destroy-accept_example =
    destroy-accept tables tables_laws connection server five_open (omega arith) below_fourth refl

-- A clock that only sleeping moves, and three readers that wait.
abbrev quiet : Surroundings
quiet = record {
  World = ℕ;
  backlog_size = λ w. (3, w);
  now = λ w. (w, w);
  sleep_for = λ n w. w + n;
}

abbrev quiet_laws : PaceLaws quiet
quiet_laws = record {
  time = λ w. w;
  now_lem = λ w. refl;
  time-now = λ w. omega arith;
  time-backlog_size = λ w. omega arith;
  time-sleep_for = λ n w. omega arith;
}

wait_for_backlog-Due_example :
    (x : Waited) × (left : ℕ) × (w' : ℕ) × (wait_for_backlog quiet 2 500010 10 20
      ≡ some (x, left, w'))
    × IsDue 500010 x
wait_for_backlog-Due_example = wait_for_backlog-Due quiet quiet_laws 10 20 (omega arith)

-- A reader on the device that reads zeros, after the round that takes it.
abbrev asked : Valued zeros
asked = record (valued_start tt) { traffic = first_call }

asked_idle : asked.traffic.running ≡ []
unfolding enter backlog_key request find same_text
asked_idle = refl

Reachable-AllCalls_example :
    AllCalls (IsServed (run_dispatch asked)) (run_dispatch asked).traffic.calls
Reachable-AllCalls_example = Reachable-AllCalls unary_laws zeros_laws (
    ceserver_pcileech.Memory.Traffic.Values.steps
      (ceserver_pcileech.Memory.Traffic.Values.steps
        (ceserver_pcileech.Memory.Traffic.Values.begins tt)
        (ceserver_pcileech.Memory.Traffic.Values.enters 0 small (valued_start tt) small_fits))
      (ceserver_pcileech.Memory.Traffic.Values.dispatches asked asked_idle))
