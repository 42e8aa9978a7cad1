-- ===== src/Memory/Traffic/Delivery.antt =====
-- What the invariant and the rounds come to: every call of `read` gets its value.
use ceserver_pcileech.Prelude.{
  ℕ, ==_refl, ◌≤◌, ◌≡◌, refl, ap, ◌∙◌, List, [], ◌∷◌, true, false, arith, length,
}
use ceserver_pcileech.Prelude.Maps.{is_some}
use ceserver_pcileech.Memory.Backlog.{BacklogItem, Printing, find, max_bytes_per_dispatch}
use ceserver_pcileech.Memory.Backlog.Batch.{AllBelow}
use ceserver_pcileech.Memory.Traffic.{Traffic, enters, works, Reachable, begins, steps, waited}
use ceserver_pcileech.Memory.Traffic.Invariant.{
  occurs, Waits, is_set, in_batch, in_backlog, IsSound, at_start-IsSound,
}
use ceserver_pcileech.Memory.Traffic.Entering.{enter-IsSound}
use ceserver_pcileech.Memory.Backlog.Keys.{PrintingLaws}
use ceserver_pcileech.Memory.Traffic.Requests.{
  AllAsked, IsMatched, at_start-IsMatched, Step-IsMatched,
}
use ceserver_pcileech.Memory.Traffic.Working.{Works-IsSound}
use ceserver_pcileech.Memory.Traffic.Runs.{
  Runs, both, rounds, rounds-both, Runs-IsSound, finish_batch, drain,
}

pub Reachable-IsSound : {printing : Printing} {t : Traffic} → Reachable printing t → IsSound t
Reachable-IsSound begins = at_start-IsSound
Reachable-IsSound {printing} (steps r (enters place item t fits)) =
    enter-IsSound printing place item t (Reachable-IsSound r)
Reachable-IsSound (steps r (works w)) = Works-IsSound w (Reachable-IsSound r)

pub Reachable-IsMatched :
    {printing : Printing} {t : Traffic}
    → PrintingLaws printing
    → Reachable printing t
    → IsMatched printing t
Reachable-IsMatched {printing} laws begins = at_start-IsMatched printing
Reachable-IsMatched laws (steps r q) =
    Step-IsMatched laws q (Reachable-IsSound r) (Reachable-IsMatched laws r)

-- Something holds of what each call asked for and of the item that it waits for.
abbrev pub AllCalls : (BacklogItem → ℕ → Type 0) → List (BacklogItem × ℕ) → Type 0
AllCalls P [] = Unit
AllCalls P (c ∷ cs) = P c.0 c.1 × AllCalls P cs

pub all_calls :
    (P : BacklogItem → ℕ → Type 0) (contents : ℕ → BacklogItem) (made : ℕ)
    (calls : List (BacklogItem × ℕ))
    → AllAsked contents made calls
    → ((item : BacklogItem) (n : ℕ) → contents n ≡ item → occurs n (waited calls) ≡ true → P item n)
    → AllCalls P calls
all_calls P contents made [] asked f = tt
all_calls P contents made (c ∷ cs) ((same, below), asked) f = (
  f c.0 c.1 same (rw (==_refl c.1) refl),
  all_calls P contents made cs asked λ item n q o. f item n q (ground arith),
)

-- However the steps of readers and dispatcher follow each other, no promise is ever set twice, and
-- every call of `read` waits for a BacklogItem that was made for the process, the address and the size
-- that it asked for, and that is not forgotten: it has its value, or is in the batch that runs, or an
-- entry of the backlog still points to it. `std::to_string` writes no colon and different numbers
-- differently.
pub Reachable-Waits :
    {printing : Printing} {t : Traffic}
    → PrintingLaws printing
    → Reachable printing t
    → (t.rejected ≡ false) × AllCalls (λ item n. (t.contents n ≡ item) × Waits t n) t.calls
Reachable-Waits {printing} {t} laws r =
    let s = Reachable-IsSound r in
    (
      s.unrejected,
      all_calls (λ item n. (t.contents n ≡ item) × Waits t n) t.contents t.made t.calls
          (Reachable-IsMatched laws r).asked λ item n q o. (q, s.waits n o),
    )

-- Where nothing is left to dispatch or to set, who waits has a value.
answered :
    (t : Traffic) (n : ℕ) → t.running ≡ [] → t.backlog ≡ [] → Waits t n → t.has_value n ≡ true
unfolding find
answered t n idle empty (is_set e) = e
answered t n idle empty (in_batch e) = ground (arith, ap (occurs n) idle)
answered t n idle empty (in_backlog key f e) = ground (arith, ap (λ b. is_some (find key b)) empty)

every_call :
    (P : ℕ → Type 0) (calls : List (BacklogItem × ℕ))
    → ((n : ℕ) → occurs n (waited calls) ≡ true → P n)
    → AllCalls (λ item n. P n) calls
every_call P [] f = tt
every_call P (c ∷ cs) f = (f c.1 (rw (==_refl c.1) refl), every_call P cs λ n o. f n (ground arith))

-- From whatever state readers and dispatcher have come to, steps of the dispatcher alone lead to one
-- in which every call of `read` made so far has its value, behind the batch that runs in no more
-- batches than the backlog has entries. No request in the backlog is for a gigabyte or more.
pub Reachable-delivers :
    {printing : Printing} (t : Traffic)
    → Reachable printing t
    → AllBelow max_bytes_per_dispatch t.backlog
    → (t' : Traffic) × (runs : Runs t t') × (rounds runs ≤ length t.backlog)
      × (t'.calls ≡ t.calls)
      × AllCalls (λ item n. t'.has_value n ≡ true) t.calls
Reachable-delivers t r small =
    let batch = finish_batch t.running t refl in
    let rest =
      drain (length t.backlog) t.backlog batch.after batch.backlog batch.idle small (omega arith) in
    let runs = both batch.runs rest.runs in
    let same = rest.calls ∙ batch.calls in
    let s = Runs-IsSound runs (Reachable-IsSound r) in
    (
      rest.after,
      runs,
      omega (arith, rounds-both batch.runs rest.runs, batch.few, rest.few),
      same,
      every_call (λ n. rest.after.has_value n ≡ true) t.calls
          λ n o.
            answered rest.after n rest.idle rest.backlog
              (s.waits n (ap (λ c. occurs n (waited c)) same ∙ o)),
    )
