-- ===== src/Memory/Traffic/Values.antt =====
-- The same steps with what the promises are set to: the results that Memory::dispatch reads from the
-- device, in one piece, as it holds the semaphore of the device meanwhile.
use ceserver_pcileech.Prelude.{
  ℕ, ◌%◌, ◌^◌, ◌≡◌, List, [], ◌∷◌, ◌==◌, if◌then◌else◌, Option, none, some,
}
use ceserver_pcileech.Memory.Backlog.{BacklogItem, Backlog, Printing, dispatch_round}
use ceserver_pcileech.Memory.Backlog.Keys.{ItemFits}
use ceserver_pcileech.Memory.Device.{Device, dispatch}
use ceserver_pcileech.Memory.Alone.{items_of}
use ceserver_pcileech.Memory.Traffic.{Traffic, enter, start_dispatch, set_value}
use ceserver_pcileech.Memory.Traffic

pub record Valued (d : Device) : Type 0 where
  pub traffic : Traffic
  pub device : d.State
  -- What the promises of the batch that runs will be set to, in its order.
  pub results : List (ℕ × List ℕ)
  pub value : ℕ → Option (ℕ × List ℕ)

abbrev pub valued_start : {d : Device} → d.State → Valued d
valued_start s = record {
  traffic = ceserver_pcileech.Memory.Traffic.at_start;
  device = s;
  results = [];
  value = λ n. none;
}

-- `backlog.begin()->second->pid`
abbrev pub first_pid : Backlog → ℕ
first_pid [] = 0
first_pid (e ∷ b) = e.1.pid

-- A round with its dispatch.
unfoldable pub run_dispatch : {d : Device} → Valued d → Valued d
run_dispatch {d} v =
    let backlog = v.traffic.backlog in
    let (results, s) =
      dispatch d (first_pid backlog) (items_of (dispatch_round backlog).0) v.device in
    record v { traffic = start_dispatch v.traffic; device = s; results = results }

unfoldable pub deliver :
    {d : Device} → ℕ → ℕ × List ℕ → List ℕ → List (ℕ × List ℕ) → Valued d → Valued d
deliver n r running results v = record v {
  traffic = set_value n running v.traffic;
  results = results;
  value = λ m. if m == n then some r else v.value m;
}

pub data Step (d : Device) (printing : Printing) : Valued d → Valued d → Type 0 where
  enters :
      (place : ℕ) (item : BacklogItem) (v : Valued d)
      → ItemFits item
      → Step d printing v (record v { traffic = enter printing place item v.traffic })
  dispatches : (v : Valued d) → v.traffic.running ≡ [] → Step d printing v (run_dispatch v)
  sets :
      (v : Valued d) (n : ℕ) (r : ℕ × List ℕ) (running : List ℕ) (results : List (ℕ × List ℕ))
      → v.traffic.running ≡ n ∷ running
      → v.results ≡ r ∷ results
      → Step d printing v (deliver n r running results v)

pub data Reachable (d : Device) (printing : Printing) : Valued d → Type 0 where
  begins : (s : d.State) → Reachable d printing (valued_start s)
  steps :
      {v v' : Valued d} → Reachable d printing v → Step d printing v v' → Reachable d printing v'

-- A result that the device gave for this process, address and size: read on its own, or by a scatter
-- handle for the process.
pub data IsRead (d : Device) (item : BacklogItem) (r : ℕ × List ℕ) : Type 0 where
  on_its_own :
      (s : d.State)
      → r ≡ (d.mem_read_ex item.pid item.address (item.size % 2 ^ 32) s).0
      → IsRead d item r
  scattered :
      (s t : d.State)
      → r
        ≡ (d.scatter_read (d.scatter_initialize item.pid s).0 item.address (item.size % 2 ^ 32) t).0
      → IsRead d item r
