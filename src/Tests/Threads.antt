-- ===== src/Tests/Threads.antt =====
-- The theorems on threads, at a run in which the stores of two threads overlap.
use ceserver_pcileech.Prelude.{◌≡◌, refl, none, some, ◌⊎◌, arith}
use ceserver_pcileech.Prelude.Maps.{lookup, assign}
use ceserver_pcileech.ClientState.{
  init, generate_handle, opens_process, closes, apply, store_open_process_at, get_process_id,
  contains_process_id_handle, minus_one,
}
use ceserver_pcileech.ClientState.View.{view}
use ceserver_pcileech.ClientState.Threads.{
  Threads, Step, Steps, begin, store_at, takes_handle, stores, calls, stays, goes, update,
}
use ceserver_pcileech.ClientState.Threads.Invariant.{IsConsistent, Steps-begin-IsConsistent}
use ceserver_pcileech.ClientState.Threads.Entries.{Turn, Step-Turn}
use ceserver_pcileech.ClientState.Threads.Processes.{get_process_id-Steps}

-- Thread 1 takes handle 1 and thread 2 handle 2.
abbrev one_taken : Threads
one_taken = record {
  state = (generate_handle init).1;
  taken = update 1 (some (generate_handle init).0) (λ i. none);
}

abbrev two_taken : Threads
two_taken = record {
  state = (generate_handle one_taken.state).1;
  taken = update 2 (some (generate_handle one_taken.state).0) one_taken.taken;
}

taking : Steps begin two_taken
unfolding init generate_handle
taking =
    goes begin one_taken two_taken
      (goes begin begin one_taken (stays begin) (takes_handle begin 1 refl (omega arith)))
      (takes_handle one_taken 2 refl (omega arith))

Steps-begin-IsConsistent_example : IsConsistent two_taken
Steps-begin-IsConsistent_example = Steps-begin-IsConsistent two_taken taking

-- Thread 2 stores first.
abbrev second_stored : Threads
second_stored = record {
  state = store_at (opens_process 9) 2 two_taken.state;
  taken = update 2 none two_taken.taken;
}

second_stores : Step two_taken second_stored
unfolding init generate_handle
second_stores = stores two_taken 2 2 (opens_process 9) refl refl

Step-Turn_example : Turn second_stores (view two_taken.state) (view second_stored.state)
unfolding second_stores init generate_handle
Step-Turn_example = Step-Turn two_taken second_stored taking second_stores

-- Another thread closes the handle.
abbrev closed : Threads
closed = record { state = apply (closes 2) second_stored.state; taken = second_stored.taken }

get_process_id-Steps_example :
    (get_process_id 2 closed.state ≡ 9) ⊎ (get_process_id 2 closed.state ≡ minus_one)
unfolding get_process_id contains_process_id_handle lookup assign init generate_handle store_at
    store_open_process_at
get_process_id-Steps_example =
    get_process_id-Steps 2 second_stored closed
      (goes begin two_taken second_stored taking second_stores) refl
      (goes second_stored second_stored closed (stays second_stored)
        (calls second_stored 3 (closes 2) refl refl))
