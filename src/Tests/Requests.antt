-- ===== src/Tests/Requests.antt =====
-- The theorems on requests, at concrete ones.
use ceserver_pcileech.Prelude.{◌≡◌, refl, List, [], ◌∷◌, true, false, arith, replicate}
use ceserver_pcileech.Prelude.Bytes.{le_bytes}
use ceserver_pcileech.Prelude.Maps.{lookup}
use ceserver_pcileech.ClientState.{
  ClientState, init, apply, apply_all, stores_processes, opens_process, closes, takes_process,
  sign_extend,
}
use ceserver_pcileech.ClientState.{
  store_process_snapshot, store_module_snapshot, generate_handle, stores_modules, next_process_info,
  next_memory_region,
}
use ceserver_pcileech.Client.Monad.{Ctx, fault, out_of_bounds}
use ceserver_pcileech.Client.Facts.{Does, facts}
use ceserver_pcileech.Client.Snapshots.{handle_command_set_connection_name}
use ceserver_pcileech.Client.Dispatch.{dispatch_command}
use ceserver_pcileech.Client.Spec.{
  Request, payload, asks_process, reads_memory, asks_abi, closes_connection,
}
use ceserver_pcileech.Client.Answers.{dispatch_command-answer}
use ceserver_pcileech.Client.Faults.{set_connection_name-out_of_bounds}
use ceserver_pcileech.Client.Polling.{Replied, get_architecture-Replied}
use ceserver_pcileech.Client.Process.{handle_command_get_architecture}
use ceserver_pcileech.Server.{running, handle_client_connection}
use ceserver_pcileech.Server.Session.{
  encode_all, Serves, handle_client_connection-answers, handle_client_connection-at_end,
}
use ceserver_pcileech.Client.Framing.Names.{ShortNames}
use ceserver_pcileech.Server.Replies.{Replies, handle_client_connection-Replies}
use ceserver_pcileech.Tests.Toy.{
  toy_sizes, toy, toy_laws, toy_device, toy_clock, toy_end, one_open, connected, told,
}

abbrev four_bytes : Request
four_bytes = reads_memory 1 4096 4 0

dispatch_command-answer_example :
    Does toy_laws
      (dispatch_command 9)
      (connected (payload four_bytes))
      true
      (told (4 ∷ 0 ∷ 0 ∷ 0 ∷ 7 ∷ 7 ∷ 7 ∷ 7 ∷ []))
unfolding lookup le_bytes ceserver_pcileech.ClientState.contains_process_id_handle
dispatch_command-answer_example =
    dispatch_command-answer toy_laws toy_device four_bytes [] (connected (payload four_bytes))
      (facts toy_laws (connected (payload four_bytes))) refl refl
      (omega arith, omega arith, omega arith, omega arith)

abbrev three_requests : List Request
three_requests = asks_abi ∷ four_bytes ∷ closes_connection ∷ []

handle_client_connection-answers_example :
    Serves toy_laws toy_device
      (handle_client_connection (replicate 3 false) (connected (encode_all three_requests)))
      false
      (told (0 ∷ 4 ∷ 0 ∷ 0 ∷ 0 ∷ 7 ∷ 7 ∷ 7 ∷ 7 ∷ []))
unfolding lookup le_bytes ceserver_pcileech.ClientState.contains_process_id_handle
    ceserver_pcileech.Server.Session.answers
handle_client_connection-answers_example =
    handle_client_connection-answers toy_laws toy_device three_requests []
      (connected (encode_all three_requests))
      (facts toy_laws (connected (encode_all three_requests))) refl refl
      (tt, ((omega arith, omega arith, omega arith, omega arith), (tt, tt)))

handle_client_connection-at_end_example :
    (c' : Ctx toy) × (handle_client_connection (replicate 5 false) (connected []) ≡ running c')
    × (c'.sent ≡ [])
    × (c'.state ≡ one_open)
handle_client_connection-at_end_example =
    handle_client_connection-at_end toy_end 5 (connected []) refl

set_connection_name-out_of_bounds_example :
    handle_command_set_connection_name (connected (255 ∷ 255 ∷ 255 ∷ 255 ∷ 65 ∷ []))
    ≡ fault out_of_bounds
unfolding le_bytes
set_connection_name-out_of_bounds_example =
    set_connection_name-out_of_bounds toy_laws (65 ∷ [])
      (connected (255 ∷ 255 ∷ 255 ∷ 255 ∷ 65 ∷ [])) refl

get_architecture-Replied_example :
    Replied
      (connected (1 ∷ 0 ∷ 0 ∷ 0 ∷ []))
      (handle_command_get_architecture (connected (1 ∷ 0 ∷ 0 ∷ 0 ∷ [])))
get_architecture-Replied_example =
    get_architecture-Replied toy_clock (connected (1 ∷ 0 ∷ 0 ∷ 0 ∷ []))

-- The last request finds no snapshot at its handle.
abbrev kept_open : List Request
kept_open = asks_abi ∷ four_bytes ∷ asks_process true 2 ∷ []

no_snapshots : ShortNames one_open
unfolding lookup
no_snapshots = record { processes = λ h a e. cc; regions = λ h a e. cc }

handle_client_connection-Replies_example :
    Replies toy_laws kept_open
      (connected (encode_all kept_open))
      (handle_client_connection (replicate 3 false) (connected (encode_all kept_open)))
unfolding lookup le_bytes ceserver_pcileech.ClientState.contains_process_id_handle
    ceserver_pcileech.Server.Session.answers
    ceserver_pcileech.ClientState.contains_process_info_handle
handle_client_connection-Replies_example =
    handle_client_connection-Replies toy_laws toy_device toy_sizes kept_open []
      (connected (encode_all kept_open)) refl
      (tt, ((omega arith, omega arith, omega arith, omega arith), (omega arith, tt)))
      (tt, (tt, (tt, tt))) no_snapshots refl
