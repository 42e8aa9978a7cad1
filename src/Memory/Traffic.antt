-- ===== src/Memory/Traffic.antt =====
-- Memory::read by any number of threads, Memory::dispatchLoop and Memory::dispatch on one backlog:
-- the steps that they take, in any order that the mutex, the promises and the condition variable
-- allow. The future that std::async returns is dropped at once, which waits for its dispatch, so that
-- the loop goes on only when every promise of the batch has been set.
pub mod Invariant
pub mod Entering
pub mod Working
pub mod Requests
pub mod Runs
pub mod Delivery
pub mod Values
pub mod Reads
pub mod Integrity
use ceserver_pcileech.Prelude.{ℕ, suc, ◌≡◌, List, [], ◌∷◌, Bool, true, false, ◌==◌, if◌then◌else◌}
use ceserver_pcileech.Prelude.Maps.{is_some}
use ceserver_pcileech.Memory.Backlog.{
  BacklogItem, BacklogKey, Backlog, Printing, backlog_key, same_text, find, request, dispatch_round,
}
use ceserver_pcileech.Memory.Backlog.Keys.{ItemFits}

-- The BacklogItems that were made are numbered in their order.
pub record Traffic : Type 0 where
  pub backlog : Backlog
  -- The BacklogItem to which the entry of a key points.
  pub pointer : BacklogKey → ℕ
  pub made : ℕ
  -- The promises that the running `dispatch` has still to set.
  pub running : List ℕ
  pub has_value : ℕ → Bool
  -- A call of `set_value` found a value there, and threw.
  pub rejected : Bool
  -- What each BacklogItem was made for.
  pub contents : ℕ → BacklogItem
  -- For each call of `read` so far, what it asked for and the BacklogItem that it waits for.
  pub calls : List (BacklogItem × ℕ)

abbrev pub waited : List (BacklogItem × ℕ) → List ℕ
waited [] = []
waited (c ∷ cs) = c.1 ∷ waited cs

-- The BacklogItems that someone waits for.
abbrev pub readers : Traffic → List ℕ
readers t = waited t.calls

abbrev pub at_start : Traffic
at_start = record {
  backlog = [];
  pointer = λ key. 0;
  made = 0;
  running = [];
  has_value = λ n. false;
  rejected = false;
  contents = λ n. record { pid = 0; address = 0; size = 0 };
  calls = [];
}

-- `backlog[key] = item`
abbrev pub point_to : BacklogKey → ℕ → (BacklogKey → ℕ) → BacklogKey → ℕ
point_to key n pointer k = if same_text k key then n else pointer k

-- `std::make_shared<BacklogItem>(processID, address, size)`
abbrev pub fill : ℕ → BacklogItem → (ℕ → BacklogItem) → ℕ → BacklogItem
fill n item contents m = if m == n then item else contents m

-- The part of `read` that holds the mutex.
unfoldable pub enter : Printing → ℕ → BacklogItem → Traffic → Traffic
enter printing place item t =
    let key = backlog_key printing item in
    let t' = record t { backlog = (request printing place item t.backlog).1 } in
    if is_some (find key t.backlog)
    then record t' { calls = (item, t.pointer key) ∷ t.calls }
    else record t' {
      pointer = point_to key t.made t.pointer;
      made = suc t.made;
      contents = fill t.made item t.contents;
      calls = (item, t.made) ∷ t.calls;
    }

abbrev pub pointers : (BacklogKey → ℕ) → Backlog → List ℕ
pointers pointer [] = []
pointers pointer (e ∷ b) = pointer e.0 ∷ pointers pointer b

-- The round of `dispatchLoop` that starts a dispatch.
unfoldable pub start_dispatch : Traffic → Traffic
start_dispatch t =
    let (batch, backlog) = dispatch_round t.backlog in
    record t { backlog = backlog; running = pointers t.pointer batch }

-- `set_value` for the next entry of the batch.
unfoldable pub set_value : ℕ → List ℕ → Traffic → Traffic
set_value n running t = record t {
  running = running;
  has_value = λ m. if m == n then true else t.has_value m;
  rejected = if t.has_value n then true else t.rejected;
}

-- What the dispatcher does, on its own thread and on that of its dispatch.
pub data Works : Traffic → Traffic → Type 0 where
  dispatches : (t : Traffic) → t.running ≡ [] → Works t (start_dispatch t)
  sets :
      (t : Traffic) (n : ℕ) (running : List ℕ)
      → t.running ≡ n ∷ running
      → Works t (set_value n running t)

-- A step of the program: that of a reader, whose numbers fit their types, with the place that the map
-- finds for a new entry, or of the dispatcher.
pub data Step (printing : Printing) : Traffic → Traffic → Type 0 where
  enters :
      (place : ℕ) (item : BacklogItem) (t : Traffic)
      → ItemFits item
      → Step printing t (enter printing place item t)
  works : {t t' : Traffic} → Works t t' → Step printing t t'

pub data Reachable (printing : Printing) : Traffic → Type 0 where
  begins : Reachable printing at_start
  steps : {t t' : Traffic} → Reachable printing t → Step printing t t' → Reachable printing t'
