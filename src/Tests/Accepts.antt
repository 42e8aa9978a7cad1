-- ===== src/Tests/Accepts.antt =====
-- The theorems on the listening side of the server, at concrete runs.
use ceserver_pcileech.Prelude.{◌+◌, ◌≡◌, refl, List, [], ◌∷◌, Bool, true, false}
use ceserver_pcileech.Server.Accept.{
  Incoming, Accepting, nothing, socket, accept_loop, count, count-accept_loop,
}
use ceserver_pcileech.Server.Joining.{
  Serving, Steps, started, tests_stop, takes_in, join, begins, goes, stops, loop_tests,
  loop_accepts, client_returns, loop_joins, loop_ends, join_returns, ended, Steps-joined,
}

-- Two sockets, the second of which cannot be set up, and one behind the stop.
abbrev rounds : List (Bool × Incoming)
rounds = (false, socket 5 0) ∷ (false, nothing) ∷ (false, socket 6 1) ∷ (true, socket 7 0) ∷ []

abbrev none_yet : Accepting
none_yet = record { client_threads = []; closed = [] }

count-accept_loop_example :
    count 6 (accept_loop rounds none_yet).client_threads
      + count 6 (accept_loop rounds none_yet).closed
    ≡ 1
count-accept_loop_example = count-accept_loop 6 rounds none_yet

-- A server that is stopped while it serves a connection, and joined once that has ended.
abbrev serving : Serving
serving = takes_in (socket 7 0) (tests_stop started)

abbrev asked_to_stop : Serving
asked_to_stop = tests_stop (record serving { b_stop = true })

abbrev emptied : Serving
emptied = record asked_to_stop { client_threads = []; joined = 1 }

abbrev over : Serving
over = join (record emptied { phase = ended })

serves : Steps serving
unfolding tests_stop takes_in
serves =
    goes (tests_stop started) serving
      (goes started (tests_stop started) begins (loop_tests started refl))
      (loop_accepts (tests_stop started) (socket 7 0) refl)

leaves_loop : Steps asked_to_stop
unfolding tests_stop takes_in
leaves_loop =
    goes (record serving { b_stop = true }) asked_to_stop
      (goes serving (record serving { b_stop = true }) serves (stops serving))
      (loop_tests (record serving { b_stop = true }) refl)

abbrev returned : Serving
returned = record asked_to_stop { client_threads = false ∷ [] }

ends : Steps over
unfolding tests_stop takes_in join
ends =
    goes (record emptied { phase = ended }) over
      (goes emptied (record emptied { phase = ended })
        (goes returned emptied
          (goes asked_to_stop returned leaves_loop (client_returns asked_to_stop [] [] refl))
          (loop_joins returned [] refl refl))
        (loop_ends emptied refl refl))
      (join_returns (record emptied { phase = ended }) refl refl)

Steps-joined_example : (over.b_stop ≡ true) × (over.client_threads ≡ []) × (over.joined ≡ over.made)
unfolding tests_stop takes_in join
Steps-joined_example = Steps-joined over ends refl
