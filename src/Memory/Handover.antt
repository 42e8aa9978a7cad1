-- ===== src/Memory/Handover.antt =====
-- One result on its way from Memory::dispatch to BacklogItem::get: the thread of the dispatcher and
-- the thread of a reader, in any order that the promise allows. Only the first branch of dispatch
-- gives its buffer back, right after `set_value`; the second never does.
use ceserver_pcileech.Prelude.{
  ◌≡◌, ◌↔◌, refl, List, ◌∷◌, Bool, true, false, leb, length, arith, Bool-cases, inl, inr,
}
use ceserver_pcileech.Memory.Backlog.{BacklogItem}

pub record Handover : Type 0 where
  -- The promise has its value.
  pub set : Bool
  -- The buffer was given back.
  pub freed : Bool
  -- The reader has the pointer from its future.
  pub taken : Bool
  -- The reader has copied, and whether it copied from a buffer that was given back.
  pub copied : Bool
  pub read_freed : Bool

abbrev pub start : Handover
start = record { set = false; freed = false; taken = false; copied = false; read_freed = false }

-- The test of `dispatch` for its first branch.
unfoldable pub frees_buffer : List BacklogItem → Bool
frees_buffer items = leb (length items) 1

pub data Step (items : List BacklogItem) : Handover → Handover → Type 0 where
  -- `promise.set_value`
  sets : (s : Handover) → s.set ≡ false → Step items s (record s { set = true })
  -- `VMMDLL_MemFree(promiseBuffer)`, in the first branch
  frees :
      (s : Handover)
      → frees_buffer items ≡ true
      → s.set ≡ true
      → s.freed ≡ false
      → Step items s (record s { freed = true })
  -- `promise.get_future().get()`
  takes : (s : Handover) → s.set ≡ true → s.taken ≡ false → Step items s (record s { taken = true })
  -- `memcpy(data, result.second, size)`
  copies :
      (s : Handover)
      → s.taken ≡ true
      → s.copied ≡ false
      → Step items s (record s { copied = true; read_freed = s.freed })

-- What the two threads can come to.
pub data Reachable (items : List BacklogItem) : Handover → Type 0 where
  begins : Reachable items start
  steps : {s t : Handover} → Reachable items s → Step items s t → Reachable items t

-- Where the buffer is kept, it is never given back nor read after that.
record IsKept (s : Handover) : Type 0 where
  unfreed : s.freed ≡ false
  unread : s.read_freed ≡ false

Step-IsKept :
    (items : List BacklogItem) {s t : Handover}
    → frees_buffer items ≡ false
    → Step items s t
    → IsKept s
    → IsKept t
Step-IsKept items e (sets s p) k = record { unfreed = k.unfreed; unread = k.unread }
Step-IsKept items e (frees s f p q) k = cc
Step-IsKept items e (takes s p q) k = record { unfreed = k.unfreed; unread = k.unread }
Step-IsKept items e (copies s p q) k = record { unfreed = k.unfreed; unread = k.unfreed }

Reachable-IsKept :
    (items : List BacklogItem) {s : Handover}
    → frees_buffer items ≡ false
    → Reachable items s
    → IsKept s
Reachable-IsKept items e begins = record { unfreed = refl; unread = refl }
Reachable-IsKept items e (steps r p) = Step-IsKept items e p (Reachable-IsKept items e r)

-- The run in which the dispatcher is faster.
freed_first :
    (items : List BacklogItem)
    → frees_buffer items ≡ true
    → Reachable items
        (record { set = true; freed = true; taken = true; copied = true; read_freed = true })
freed_first items e =
    steps (steps (steps (steps begins (sets _ refl)) (frees _ e refl refl)) (takes _ refl refl))
      (copies _ refl refl)

-- A state in which the reader of a request has copied from a buffer that was given back can be
-- reached exactly when the request is alone in its batch, so that the first branch of dispatch reads
-- it.
pub read_freed_iff :
    (item : BacklogItem) (others : List BacklogItem)
    → ((s : Handover) × Reachable (item ∷ others) s × (s.read_freed ≡ true)) ↔ (length others ≡ 0)
unfolding frees_buffer
read_freed_iff item others = (
  (λ found. elim (Bool-cases (leb (length (item ∷ others)) 1)) [
    | inl e ↦ ground arith
    | inr e ↦ absurd (clash (Reachable-IsKept (item ∷ others) e found.1) found.2)
  ]),
  (λ alone. (_, freed_first (item ∷ others) (ground arith), refl)),
)
  where
    clash : {s : Handover} → IsKept s → s.read_freed ≡ true → ⊥
    clash k e = ground (arith, k.unread)
