-- ===== src/Tests/Sounds.antt =====
-- Connections on which anything arrives.
use ceserver_pcileech.Prelude.{ℕ, refl, List, [], ◌∷◌, true, false, some, none, arith}
use ceserver_pcileech.ClientState.{init, generate_handle}
use ceserver_pcileech.ClientState.Threads.{Threads, update}
use ceserver_pcileech.Client.Monad.{Ctx}
use ceserver_pcileech.Server.{handle_client_connection}
use ceserver_pcileech.Server.Sound.{Survives}
use ceserver_pcileech.Server.Sound.Handles.{Makes, handle_client_connection-Makes}
use ceserver_pcileech.Tests.Toy.{toy, connected}

-- The command to read memory at handle 1, of which the size is cut off behind its first byte.
abbrev garbage : List ℕ
garbage = 9 ∷ 1 ∷ 0 ∷ 0 ∷ 0 ∷ 0 ∷ 16 ∷ 0 ∷ 0 ∷ 0 ∷ 0 ∷ 0 ∷ 0 ∷ 5 ∷ []

-- Thread 1 has taken a handle and not yet stored.
abbrev one_taken : Threads
one_taken = record {
  state = (generate_handle init).1;
  taken = update 1 (some (generate_handle init).0) (λ i. none);
}

abbrev beside : Ctx toy
beside = record (connected garbage) { state = one_taken.state }

handle_client_connection-Makes_example :
    Survives
      (λ c. Makes 2 3 one_taken c.state)
      (handle_client_connection (false ∷ false ∷ true ∷ []) beside)
unfolding init generate_handle
handle_client_connection-Makes_example =
    handle_client_connection-Makes (false ∷ false ∷ true ∷ []) beside one_taken 2 refl refl
      (omega arith)
