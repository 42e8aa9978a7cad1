-- ===== src/Tests/Handles.antt =====
-- The theorems on ClientState, at concrete states.
use ceserver_pcileech.Prelude.{◌≡◌, refl, List, [], ◌∷◌, arith, some}
use ceserver_pcileech.Prelude.Bytes.{codes}
use ceserver_pcileech.Prelude.Maps.{lookup, assign, insert}
use ceserver_pcileech.Memory.Region.{ProcessInfo}
use ceserver_pcileech.ClientState.{
  ClientState, init, apply, stores_processes, opens_process, closes,
}
use ceserver_pcileech.ClientState.{store_process_snapshot, generate_handle}
use ceserver_pcileech.ClientState.Handles.{init-IsValid, apply-IsValid}
use ceserver_pcileech.ClientState.View.{view, view-apply, process}
use ceserver_pcileech.ClientState.Enumeration.{collect_processes, collect_processes_complete}
use ceserver_pcileech.Client.Spec.{opens_process}

view-apply_example : view (apply (opens_process 5) init) 1 ≡ some (process 5)
unfolding init
view-apply_example = view-apply (opens_process 5) init 1 (omega arith) init-IsValid

abbrev two_processes : List ProcessInfo
two_processes = record { name = codes "a"; pid = 4 } ∷ record { name = codes "b"; pid = 8 } ∷ []

-- The list stands at handle 1.
abbrev listed : ClientState
listed = apply (stores_processes two_processes) init

collect_processes_complete_example :
    collect_processes ((opens_process 5 ∷ []) ∷ (closes 2 ∷ []) ∷ [] ∷ []) 1 listed
    ≡ some two_processes
unfolding init view lookup apply store_process_snapshot insert generate_handle assign
collect_processes_complete_example =
    collect_processes_complete ((opens_process 5 ∷ []) ∷ (closes 2 ∷ []) ∷ [] ∷ []) two_processes 1
      listed (apply-IsValid (stores_processes two_processes) init (omega arith) init-IsValid) refl
      ((tt, tt), (((λ e. absurd (omega arith)), tt), (tt, tt))) (omega arith) (omega arith)
