-- ===== src/Memory/Backlog/Progress.antt =====
-- What a round leaves of the backlog, and how many rounds empty it.
use ceserver_pcileech.Prelude.{
  ℕ, zero, suc, ◌%◌, ◌^◌, ◌≤◌, ◌<◌, ◌≡◌, refl, ap, ◌∙◌, [], ◌∷◌, ==_refl, leb, if◌then◌else◌, none,
  arith, length, Bool-cases, inl, inr,
}
use ceserver_pcileech.Prelude.Maps.{is_some}
use ceserver_pcileech.Memory.Backlog.{
  BacklogItem, BacklogKey, Backlog, same_text, find, erase, erase_all, select, next_batch,
  dispatch_round, dispatch_rounds, max_bytes_per_dispatch, max_dispatch_size,
}
use ceserver_pcileech.Memory.Backlog.Batch.{AllBelow, same_text_refl, same_text_sound}

pub find-erase :
    (j k : BacklogKey) (b : Backlog)
    → find j (erase k b) ≡ (if same_text j k then none else find j b)
unfolding find erase
find-erase j k [] = ground arith
find-erase j k (e ∷ b) = ground (
  arith,
  find-erase j k b,
  same_text_sound j k,
  same_text_sound k e.0,
  same_text_sound j e.0,
  same_text_refl j,
  same_text_refl k,
)

find-erase_all :
    (j : BacklogKey) (batch b : Backlog)
    → find j (erase_all batch b) ≡ (if is_some (find j batch) then none else find j b)
unfolding find erase_all
find-erase_all j [] b = refl
find-erase_all j (e ∷ batch) b =
    ground (arith, find-erase_all j batch (erase e.0 b), find-erase j e.0 b)

-- A round erases from the backlog exactly the keys of its batch: a key of the batch is found no
-- more, and under every other key stands what stood there before.
pub find-dispatch_round :
    (j : BacklogKey) (b : Backlog)
    → find j (dispatch_round b).1
      ≡ (if is_some (find j (dispatch_round b).0) then none else find j b)
unfolding dispatch_round
find-dispatch_round j b = find-erase_all j (next_batch b) b

length-erase : (k : BacklogKey) (b : Backlog) → length (erase k b) ≤ length b
unfolding erase
length-erase k [] = omega arith
length-erase k (e ∷ b) = ground (arith, length-erase k b)

length-erase_all : (batch b : Backlog) → length (erase_all batch b) ≤ length b
unfolding erase_all
length-erase_all [] b = omega arith
length-erase_all (e ∷ batch) b =
    omega (arith, length-erase_all batch (erase e.0 b), length-erase e.0 b)

AllBelow-erase : (n : ℕ) (k : BacklogKey) (b : Backlog) → AllBelow n b → AllBelow n (erase k b)
unfolding erase
AllBelow-erase n k [] a = tt
AllBelow-erase n k (e ∷ b) a = elim (Bool-cases (same_text k e.0)) [
  | inl p ↦ rw p (AllBelow-erase n k b a.1)
  | inr p ↦ rw p (a.0, AllBelow-erase n k b a.1)
]

AllBelow-erase_all : (n : ℕ) (batch b : Backlog) → AllBelow n b → AllBelow n (erase_all batch b)
unfolding erase_all
AllBelow-erase_all n [] b a = a
AllBelow-erase_all n (e ∷ batch) b a =
    AllBelow-erase_all n batch (erase e.0 b) (AllBelow-erase n e.0 b a)

-- The first entry is in the batch unless it alone is too large.
select-first :
    (e : BacklogKey × BacklogItem) (b : Backlog)
    → e.1.size < max_bytes_per_dispatch
    → (more : Backlog) × (select e.1.pid 0 0 (e ∷ b) ≡ e ∷ more)
unfolding select
select-first e b lt = (
  (if leb max_dispatch_size 1 then [] else select e.1.pid (e.1.size % 2 ^ 64) 1 b),
  ground (arith, ==_refl e.1.pid),
)

length-erase_first :
    (e : BacklogKey × BacklogItem) (b : Backlog) → length (erase e.0 (e ∷ b)) ≤ length b
unfolding erase
length-erase_first e b = ground (arith, same_text_refl e.0, length-erase e.0 b)

pub length-dispatch_round :
    (e : BacklogKey × BacklogItem) (b : Backlog)
    → e.1.size < max_bytes_per_dispatch
    → length (dispatch_round (e ∷ b)).1 ≤ length b
unfolding dispatch_round next_batch erase_all
length-dispatch_round e b lt =
    let (more, p) = select-first e b lt in
    rw p (omega (arith, length-erase_all more (erase e.0 (e ∷ b)), length-erase_first e b))

dispatch_rounds-nil : (n : ℕ) → dispatch_rounds n [] ≡ []
unfolding dispatch_rounds dispatch_round next_batch erase_all
dispatch_rounds-nil zero = refl
dispatch_rounds-nil (suc n) = dispatch_rounds-nil n

pub AllBelow-dispatch_round : (n : ℕ) (b : Backlog) → AllBelow n b → AllBelow n (dispatch_round b).1
unfolding dispatch_round
AllBelow-dispatch_round n b small = AllBelow-erase_all n (next_batch b) b small

-- When no request asks for a gigabyte or more and none is added, as many rounds as there are requests
-- empty the backlog: every request is dispatched.
pub dispatch_rounds-empty :
    (n : ℕ) (b : Backlog)
    → AllBelow max_bytes_per_dispatch b
    → length b ≤ n
    → dispatch_rounds n b ≡ []
unfolding dispatch_rounds
dispatch_rounds-empty n [] small le = dispatch_rounds-nil n
dispatch_rounds-empty zero (e ∷ b) small le = absurd (omega arith)
dispatch_rounds-empty (suc n) (e ∷ b) small le =
    dispatch_rounds-empty n (dispatch_round (e ∷ b)).1
      (AllBelow-dispatch_round max_bytes_per_dispatch (e ∷ b) small)
      (omega (arith, length-dispatch_round e b small.0))

pub select-blocked :
    (e : BacklogKey × BacklogItem) (b : Backlog)
    → max_bytes_per_dispatch ≤ e.1.size
    → e.1.size < 2 ^ 64
    → select e.1.pid 0 0 (e ∷ b) ≡ []
unfolding select
select-blocked e b le lt = ground (arith, ==_refl e.1.pid)

dispatch_round-blocked :
    (e : BacklogKey × BacklogItem) (b : Backlog)
    → max_bytes_per_dispatch ≤ e.1.size
    → e.1.size < 2 ^ 64
    → (dispatch_round (e ∷ b)).1 ≡ e ∷ b
unfolding dispatch_round next_batch erase_all
dispatch_round-blocked e b le lt = rw (select-blocked e b le lt) refl

-- A request for a gigabyte or more at the head of the backlog is never dispatched, and nothing
-- behind it is: after any number of rounds with no new request the backlog is as it was.
pub dispatch_rounds-blocked :
    (n : ℕ) (e : BacklogKey × BacklogItem) (b : Backlog)
    → max_bytes_per_dispatch ≤ e.1.size
    → e.1.size < 2 ^ 64
    → dispatch_rounds n (e ∷ b) ≡ e ∷ b
unfolding dispatch_rounds
dispatch_rounds-blocked zero e b le lt = refl
dispatch_rounds-blocked (suc n) e b le lt =
    ap (dispatch_rounds n) (dispatch_round-blocked e b le lt) ∙ dispatch_rounds-blocked n e b le lt
