-- ===== src/Memory/Alone.antt =====
-- Memory::read from end to end, for a caller that is alone: its request, the rounds of dispatchLoop
-- until one takes it, dispatch, the promise, and the copy to the caller's buffer.
use ceserver_pcileech.Prelude.{
  ℕ, zero, suc, ◌%◌, ◌^◌, ◌<◌, ◌≤◌, ◌≡◌, refl, ap, ◌∙◌, List, [], ◌∷◌, arith, ==_refl, Option, none,
  some, take, length,
}
use ceserver_pcileech.Memory.Backlog.{
  BacklogItem, Backlog, BacklogKey, Printing, backlog_key, request, find, select, next_batch,
  erase_all, dispatch_round, dispatch_rounds, max_bytes_per_dispatch,
}
use ceserver_pcileech.Memory.Backlog.Progress.{select-blocked, dispatch_rounds-blocked}
use ceserver_pcileech.Memory.Device.{Device, dispatch, sequential_read, get, copied}

abbrev pub items_of : Backlog → List BacklogItem
items_of [] = []
items_of (e ∷ b) = e.1 ∷ items_of b

-- A buffer of which every byte was written anew.
unfoldable pub overwritten : (ℕ → ℕ) → List ℕ → List ℕ
overwritten junk [] = []
overwritten junk (b ∷ bs) = junk 0 ∷ overwritten (λ i. junk (suc i)) bs

-- What the promised buffer holds when the caller copies it: what was read, or, if `dispatch` has
-- given it back by then, whatever the freed memory holds.
unfoldable pub found : Option (ℕ → ℕ) → List ℕ → List ℕ
found none bytes = bytes
found (some junk) bytes = overwritten junk bytes

-- What the caller gets from the first result: the count and the bytes.
abbrev pub taken_from : BacklogItem → Option (ℕ → ℕ) → List (ℕ × List ℕ) → Option (ℕ × List ℕ)
taken_from item freed [] = none
taken_from item freed (r ∷ rs) =
    elim (get (record { item = item; promise = some (r.0, found freed r.1); taken = none })) [
      | none ↦ none
      | some (result, w) ↦ some (result.0, copied result)
    ]

-- `freed` says whether the buffer is given back before the caller copies it, and what it holds then.
module _ (d : Device) (freed : BacklogItem → d.State → Option (ℕ → ℕ)) where
  -- The end of a round. With an empty batch nothing is dispatched and the loop goes on.
  abbrev pub after_batch :
      BacklogItem
      → Option ((ℕ × List ℕ) × d.State)
      → Backlog
      → d.State
      → Option ((ℕ × List ℕ) × d.State)
  after_batch item later [] s = later
  after_batch item later (e ∷ batch) s =
      let (results, s') = dispatch d e.1.pid (e.1 ∷ items_of batch) s in
      elim (taken_from item (freed item s) results) [ none ↦ none | some r ↦ some (r, s') ]

  -- The loop, for so many rounds. `none` if the caller waits after them.
  unfoldable pub waits_alone : ℕ → BacklogItem → Backlog → d.State → Option ((ℕ × List ℕ) × d.State)
  waits_alone zero item backlog s = none
  waits_alone (suc n) item backlog s =
      let later = waits_alone n item (dispatch_round backlog).1 s in
      after_batch item later (dispatch_round backlog).0 s

  unfoldable pub read_alone :
      Printing → ℕ → ℕ → BacklogItem → d.State → Option ((ℕ × List ℕ) × d.State)
  read_alone printing place rounds item s =
      let (own, backlog) = request printing place item [] in waits_alone rounds own backlog s

pub request-alone :
    (printing : Printing) (place : ℕ) (item : BacklogItem)
    → request printing place item [] ≡ (item, (backlog_key printing item, item) ∷ [])
unfolding request find
request-alone printing zero item = refl
request-alone printing (suc place) item = refl

round-alone :
    (key : BacklogKey) (item : BacklogItem)
    → item.size < max_bytes_per_dispatch
    → (dispatch_round ((key, item) ∷ [])).0 ≡ (key, item) ∷ []
unfolding dispatch_round next_batch select
round-alone key item lt = ground (arith, ==_refl item.pid)

round-blocked :
    (key : BacklogKey) (item : BacklogItem)
    → max_bytes_per_dispatch ≤ item.size
    → item.size < 2 ^ 64
    → dispatch_round ((key, item) ∷ []) ≡ ([], (key, item) ∷ [])
unfolding dispatch_round next_batch erase_all
round-blocked key item le lt = rw (select-blocked (key, item) [] le lt) refl

-- The request of a caller for a gigabyte or more stays in a backlog that had no other.
pub requested-blocked :
    (printing : Printing) (place : ℕ) (item : BacklogItem)
    → max_bytes_per_dispatch ≤ item.size
    → item.size < 2 ^ 64
    → (k : ℕ)
    → let backlog = (request printing place item []).1 in dispatch_rounds k backlog ≡ backlog
requested-blocked printing place item le lt k =
    rw (request-alone printing place item)
      (dispatch_rounds-blocked k (backlog_key printing item, item) [] le lt)

length-overwritten : (junk : ℕ → ℕ) (bs : List ℕ) → length (overwritten junk bs) ≡ length bs
unfolding overwritten
length-overwritten junk [] = refl
length-overwritten junk (b ∷ bs) = omega (arith, length-overwritten (λ i. junk (suc i)) bs)

pub length-found : (freed : Option (ℕ → ℕ)) (bs : List ℕ) → length (found freed bs) ≡ length bs
unfolding found
length-found none bs = refl
length-found (some junk) bs = length-overwritten junk bs

module _ (d : Device) (freed : BacklogItem → d.State → Option (ℕ → ℕ)) where
  after_batch-alone :
      (key : BacklogKey) (item : BacklogItem) (later : Option ((ℕ × List ℕ) × d.State))
      (s : d.State)
      → let r = d.mem_read_ex item.pid item.address (item.size % 2 ^ 32) s in
        after_batch d freed item later ((key, item) ∷ []) s
        ≡ some ((r.0.0, take r.0.0 (take item.size (found (freed item s) r.0.1))), d.mem_free r.1)
  unfolding dispatch sequential_read get copied
  after_batch-alone key item later s = refl

  -- A caller that is alone and asks for less than a gigabyte gets its answer in the first round,
  -- wherever the map puts its request: the count that the device reports for its process, address and
  -- size, and as many bytes of the promised buffer as it holds when the caller copies it. These are the
  -- bytes that the device read if the copy comes first, and what the freed memory holds if `dispatch`
  -- gives the buffer back first.
  pub read_alone_lem :
      (printing : Printing) (place rounds : ℕ) (item : BacklogItem) (s : d.State)
      → item.size < max_bytes_per_dispatch
      → let r = d.mem_read_ex item.pid item.address item.size s in
        read_alone d freed printing place (suc rounds) item s
        ≡ some ((r.0.0, take r.0.0 (take item.size (found (freed item s) r.0.1))), d.mem_free r.1)
  unfolding read_alone waits_alone
  read_alone_lem printing place rounds item s lt =
      let key = backlog_key printing item in
      let later = waits_alone d freed rounds item (dispatch_round ((key, item) ∷ [])).1 s in
      ap (λ q. waits_alone d freed (suc rounds) q.0 q.1 s) (request-alone printing place item)
      ∙ ap (λ b. after_batch d freed item later b s) (round-alone key item lt)
      ∙ after_batch-alone key item later s
      ∙ ap
          (λ n.
            let r = d.mem_read_ex item.pid item.address n s in
            some
              ((r.0.0, take r.0.0 (take item.size (found (freed item s) r.0.1))), d.mem_free r.1))
          {x = item.size % 2 ^ 32} {y = item.size} (omega arith)

  waits_alone-blocked :
      (rounds : ℕ) (key : BacklogKey) (item : BacklogItem) (s : d.State)
      → max_bytes_per_dispatch ≤ item.size
      → item.size < 2 ^ 64
      → waits_alone d freed rounds item ((key, item) ∷ []) s ≡ none
  unfolding waits_alone
  waits_alone-blocked zero key item s le lt = refl
  waits_alone-blocked (suc n) key item s le lt =
      ap (λ q. after_batch d freed item (waits_alone d freed n item q.1 s) q.0 s)
        (round-blocked key item le lt)
      ∙ waits_alone-blocked n key item s le lt

  -- A caller that asks for a gigabyte or more waits after any number of rounds.
  pub read_alone-blocked :
      (printing : Printing) (place rounds : ℕ) (item : BacklogItem) (s : d.State)
      → max_bytes_per_dispatch ≤ item.size
      → item.size < 2 ^ 64
      → read_alone d freed printing place rounds item s ≡ none
  unfolding read_alone
  read_alone-blocked printing place rounds item s le lt =
      ap (λ q. waits_alone d freed rounds q.0 q.1 s) (request-alone printing place item)
      ∙ waits_alone-blocked rounds (backlog_key printing item) item s le lt
