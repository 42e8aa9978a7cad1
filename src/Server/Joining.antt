-- ===== src/Server/Joining.antt =====
-- The threads of class Server: the accept loop on the thread that start creates, the clients' threads
-- that it starts and joins, stop and join, as steps that take turns. Between its test of `bStop` and
-- its next one, the loop waits in `accept`.
use ceserver_pcileech.Prelude.{
  ℕ, suc, ◌+◌, ◌≡◌, refl, ap, List, [], ◌∷◌, ◌++◌, Bool, true, false, not, ◌==◌, length,
  length-append, arith, if◌then◌else◌,
}
use ceserver_pcileech.Server.Accept.{Incoming, nothing, socket}

-- Where the accept loop stands.
pub data Phase : Type 0 where
  tests accepts joins ended : Phase

-- `serverThread` as the caller of join finds it: a thread, or one that was joined and deleted. The
-- pointer is not reset.
pub data ServerThread : Type 0 where
  present deleted : ServerThread

pub record Serving : Type 0 where
  pub b_stop : Bool
  pub phase : Phase
  pub server_thread : ServerThread
  -- The clients' threads that are not joined yet, in the order of `clientThreads`: whether each still
  -- runs.
  pub client_threads : List Bool
  -- How many were started, and how many were joined and deleted.
  pub made : ℕ
  pub joined : ℕ

abbrev pub started : Serving
started = record {
  b_stop = false;
  phase = tests;
  server_thread = present;
  client_threads = [];
  made = 0;
  joined = 0;
}

-- The threads that a round of the loop starts: one for a socket on which TCP_NODELAY could be set.
abbrev new_threads : Incoming → List Bool
new_threads nothing = []
new_threads (socket s no_delay_result) = if not (no_delay_result == 0) then [] else true ∷ []

-- The body of the loop, behind `accept`.
unfoldable pub takes_in : Incoming → Serving → Serving
takes_in incoming s = record s {
  phase = tests;
  client_threads = s.client_threads ++ new_threads incoming;
  made = s.made + length (new_threads incoming);
}

-- `while (!bStop)`
unfoldable pub tests_stop : Serving → Serving
tests_stop s = record s { phase = if not s.b_stop then accepts else joins }

-- `Server::join` behind the wait for the thread.
unfoldable pub join : Serving → Serving
join s = record s { server_thread = deleted }

pub data Step : Serving → Serving → Type 0 where
  stops : (s : Serving) → Step s (record s { b_stop = true })
  loop_tests : (s : Serving) → s.phase ≡ tests → Step s (tests_stop s)
  loop_accepts : (s : Serving) (i : Incoming) → s.phase ≡ accepts → Step s (takes_in i s)
  -- A connection ends: handleClientConnection returns.
  client_returns :
      (s : Serving) (before after : List Bool)
      → s.client_threads ≡ before ++ true ∷ after
      → Step s (record s { client_threads = before ++ false ∷ after })
  -- The loop behind: the next thread has ended, and is joined and deleted.
  loop_joins :
      (s : Serving) (after : List Bool)
      → s.phase ≡ joins
      → s.client_threads ≡ false ∷ after
      → Step s (record s { client_threads = after; joined = suc s.joined })
  loop_ends :
      (s : Serving) → s.phase ≡ joins → s.client_threads ≡ [] → Step s (record s { phase = ended })
  join_returns : (s : Serving) → s.phase ≡ ended → s.server_thread ≡ present → Step s (join s)

pub data Steps : Serving → Type 0 where
  begins : Steps started
  goes : (s t : Serving) → Steps s → Step s t → Steps t

-- The counts agree, and what a phase says of `bStop` and of the threads.
record IsOrderly (s : Serving) : Type 0 where
  counted : s.made ≡ s.joined + length s.client_threads
  stopped_joins : s.phase ≡ joins → s.b_stop ≡ true
  stopped_ended : s.phase ≡ ended → s.b_stop ≡ true
  all_joined : s.phase ≡ ended → s.client_threads ≡ []
  over : s.server_thread ≡ deleted → s.phase ≡ ended

length-replaced :
    (before after : List Bool) → length (before ++ false ∷ after) ≡ length (before ++ true ∷ after)
length-replaced [] after = refl
length-replaced (b ∷ before) after = ap suc (length-replaced before after)

Step-IsOrderly : (s t : Serving) → Step s t → IsOrderly s → IsOrderly t
unfolding takes_in tests_stop join
Step-IsOrderly s _ (stops _) o = record {
  counted = o.counted;
  stopped_joins = λ e. refl;
  stopped_ended = λ e. refl;
  all_joined = o.all_joined;
  over = o.over;
}
Step-IsOrderly s _ (loop_tests _ p) o = record {
  counted = o.counted;
  stopped_joins = λ e. ground arith;
  stopped_ended = λ e. ground arith;
  all_joined = λ e. ground arith;
  over = λ e. ground (arith, o.over e);
}
Step-IsOrderly s _ (loop_accepts _ i p) o = record {
  counted = omega (arith, o.counted, length-append s.client_threads (new_threads i));
  stopped_joins = λ e. cc;
  stopped_ended = λ e. cc;
  all_joined = λ e. cc;
  over = λ e. ground (arith, o.over e);
}
Step-IsOrderly s _ (client_returns _ before after p) o = record {
  counted = omega (arith, o.counted, ap length p, length-replaced before after);
  stopped_joins = o.stopped_joins;
  stopped_ended = o.stopped_ended;
  all_joined = λ e.
      absurd (
        omega
          (arith, ap length p, ap length (o.all_joined e), length-append before (true ∷ after)));
  over = o.over;
}
Step-IsOrderly s _ (loop_joins _ after p q) o = record {
  counted = omega (arith, o.counted, ap length q);
  stopped_joins = o.stopped_joins;
  stopped_ended = o.stopped_ended;
  all_joined = λ e. ground arith;
  over = o.over;
}
Step-IsOrderly s _ (loop_ends _ p q) o = record {
  counted = o.counted;
  stopped_joins = λ e. cc;
  stopped_ended = λ e. o.stopped_joins p;
  all_joined = λ e. q;
  over = λ e. refl;
}
Step-IsOrderly s _ (join_returns _ p q) o = record {
  counted = o.counted;
  stopped_joins = o.stopped_joins;
  stopped_ended = o.stopped_ended;
  all_joined = o.all_joined;
  over = λ e. p;
}

started-IsOrderly : IsOrderly started
started-IsOrderly = record {
  counted = refl;
  stopped_joins = λ e. cc;
  stopped_ended = λ e. cc;
  all_joined = λ e. refl;
  over = λ e. cc;
}

Steps-IsOrderly : (s : Serving) → Steps s → IsOrderly s
Steps-IsOrderly _ begins = started-IsOrderly
Steps-IsOrderly _ (goes s t before step) = Step-IsOrderly s t step (Steps-IsOrderly s before)

-- However the threads of the server take turns, when `Server::join` has returned, `bStop` was set, so
-- that it never returns where nothing calls stop; the thread of every connection that was taken in
-- has ended, and each was joined and deleted, as many as were made.
pub Steps-joined :
    (s : Serving)
    → Steps s
    → s.server_thread ≡ deleted
    → (s.b_stop ≡ true) × (s.client_threads ≡ []) × (s.joined ≡ s.made)
Steps-joined s run e =
    let o = Steps-IsOrderly s run in
    let done = o.over e in
    let none_left = o.all_joined done in
    (o.stopped_ended done, none_left, omega (arith, o.counted, ap length none_left))
