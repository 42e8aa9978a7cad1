-- ===== src/Memory/Backlog.antt =====
-- The backlog of class Memory: `read` puts a request into it, or joins the one that is there, and
-- each round of `dispatchLoop` takes a batch of requests of one process out of it. Both hold the
-- mutex `mtx` while they do, so each is one step here.
--
-- The backlog is an unordered_map: a list in the order of iteration, where a new entry may go
-- anywhere.
pub mod Keys
pub mod Batch
pub mod Progress
pub mod Distinct
use ceserver_pcileech.Prelude.{
  ℕ, zero, suc, ◌+◌, ◌%◌, ◌^◌, List, [], ◌∷◌, ◌++◌, Bool, true, false, ◌&&◌, ◌==◌, leb,
  if◌then◌else◌, Option, none, some,
}

-- What identifies a request. The promise and the buffer are in Device.
pub record BacklogItem : Type 0 where
  pub pid : ℕ
  pub address : ℕ
  pub size : ℕ

abbrev pub BacklogKey : Type 0
BacklogKey = List ℕ

abbrev pub Backlog : Type 0
Backlog = List (BacklogKey × BacklogItem)

-- `std::to_string` for an `int32_t`, given as its 32-bit pattern, and for 64 unsigned bits.
pub record Printing : Type 0 where
  pub print_int : ℕ → List ℕ
  pub print_unsigned : ℕ → List ℕ

-- The character between the parts of a key.
abbrev pub colon : ℕ
colon = 58

unfoldable pub backlog_key : Printing → BacklogItem → BacklogKey
backlog_key printing item =
    printing.print_int item.pid
    ++ colon ∷ (printing.print_unsigned item.address ++ colon ∷ printing.print_unsigned item.size)

-- Equality of strings.
unfoldable pub same_text : List ℕ → List ℕ → Bool
same_text [] [] = true
same_text [] (y ∷ ys) = false
same_text (x ∷ xs) [] = false
same_text (x ∷ xs) (y ∷ ys) = (x == y) && same_text xs ys

unfoldable pub find : BacklogKey → Backlog → Option BacklogItem
find key [] = none
find key ((k, item) ∷ backlog) = if same_text key k then some item else find key backlog

unfoldable pub erase : BacklogKey → Backlog → Backlog
erase key [] = []
erase key (e ∷ backlog) =
    let rest = erase key backlog in if same_text key e.0 then rest else e ∷ rest

-- A new entry at the place that the map chooses.
abbrev pub put : ℕ → BacklogKey × BacklogItem → Backlog → Backlog
put zero e backlog = e ∷ backlog
put (suc place) e [] = e ∷ []
put (suc place) e (d ∷ backlog) = d ∷ put place e backlog

-- The first part of `read`: the item that the caller then waits for.
unfoldable pub request : Printing → ℕ → BacklogItem → Backlog → BacklogItem × Backlog
request printing place item backlog =
    let key = backlog_key printing item in
    elim (find key backlog) [
      | some old ↦ (old, backlog)
      | none ↦ (item, put place (key, item) backlog)
    ]

abbrev pub max_dispatch_size : ℕ
max_dispatch_size = 256

abbrev pub max_bytes_per_dispatch : ℕ
max_bytes_per_dispatch = 1000000000

-- The loop that fills the dispatch buffer, with what was requested so far and the entries in it. A
-- `break` ends the list.
unfoldable pub select : ℕ → ℕ → ℕ → Backlog → Backlog
select pid requested count [] = []
select pid requested count ((key, item) ∷ backlog) =
    let total = (requested + item.size) % 2 ^ 64 in
    let skipped = select pid requested count backlog in
    let more = select pid total (count + 1) backlog in
    if item.pid == pid
    then if leb max_bytes_per_dispatch total
      then []
      else (key, item) ∷ (if leb max_dispatch_size (count + 1) then [] else more)
    else skipped

unfoldable pub erase_all : Backlog → Backlog → Backlog
erase_all [] backlog = backlog
erase_all (e ∷ batch) backlog = erase_all batch (erase e.0 backlog)

-- The batch of the next round, for the process of the first entry.
unfoldable pub next_batch : Backlog → Backlog
next_batch [] = []
next_batch (e ∷ backlog) = select e.1.pid 0 0 (e ∷ backlog)

-- One round of `dispatchLoop` between its locks: the batch, and the backlog that is left.
unfoldable pub dispatch_round : Backlog → Backlog × Backlog
dispatch_round backlog = (next_batch backlog, erase_all (next_batch backlog) backlog)

-- The backlog after some rounds with no new request.
unfoldable pub dispatch_rounds : ℕ → Backlog → Backlog
dispatch_rounds zero backlog = backlog
dispatch_rounds (suc n) backlog = dispatch_rounds n (dispatch_round backlog).1
