-- ===== src/Memory/Traffic/Integrity.antt =====
-- What each call of `read` gets is what the device read for it.
use ceserver_pcileech.Prelude.{
  ◌≤◌, ℕ, ◌%◌, ◌^◌, ◌<◌, ◌≡◌, refl, sym, ap, subst, ◌∙◌, List, [], ◌∷◌, true, ◌==◌, ==_refl, ==_iff,
  if◌then◌else◌, some, Option-cases, arith, Bool-cases, inl, inr,
}
use ceserver_pcileech.Prelude.Maps.{is_some}
use ceserver_pcileech.Memory.Backlog.{BacklogItem, BacklogKey, Printing, backlog_key, find, request}
use ceserver_pcileech.Memory.Backlog.Keys.{PrintingLaws}
use ceserver_pcileech.Memory.Device.{Device}
use ceserver_pcileech.Memory.Device.Results.{DeviceLaws}
use ceserver_pcileech.Memory.Traffic.{Traffic, fill, enter, pointers, start_dispatch, set_value}
use ceserver_pcileech.Memory.Traffic
use ceserver_pcileech.Memory.Traffic.Invariant.{IsSound, occurs}
use ceserver_pcileech.Memory.Traffic.Requests.{IsMatched, fill-old}
use ceserver_pcileech.Memory.Traffic.Delivery.{
  AllCalls, all_calls, Reachable-IsSound, Reachable-IsMatched,
}
use ceserver_pcileech.Memory.Traffic.Values.{
  Valued, run_dispatch, deliver, Step, enters, dispatches, sets, Reachable, begins, steps, IsRead,
  on_its_own, scattered,
}
use ceserver_pcileech.Memory.Traffic.Reads.{round-AllReads, AllHold-find, AllReads}
use ceserver_pcileech.Memory.Traffic.Entering.{added}

Traffic-Reachable :
    {d : Device} {printing : Printing} {v : Valued d}
    → Reachable d printing v
    → ceserver_pcileech.Memory.Traffic.Reachable printing v.traffic
unfolding run_dispatch deliver
Traffic-Reachable (begins s) = ceserver_pcileech.Memory.Traffic.begins
Traffic-Reachable (steps r (enters place item v fits)) =
    ceserver_pcileech.Memory.Traffic.steps (Traffic-Reachable r)
      (ceserver_pcileech.Memory.Traffic.enters place item v.traffic fits)
Traffic-Reachable (steps r (dispatches v idle)) =
    ceserver_pcileech.Memory.Traffic.steps (Traffic-Reachable r) (
      ceserver_pcileech.Memory.Traffic.works
        (ceserver_pcileech.Memory.Traffic.dispatches v.traffic idle))
Traffic-Reachable (steps r (sets v n x running results p q)) =
    ceserver_pcileech.Memory.Traffic.steps (Traffic-Reachable r) (
      ceserver_pcileech.Memory.Traffic.works
        (ceserver_pcileech.Memory.Traffic.sets v.traffic n running p))

-- What is set, and what will be, was read for the item it is set on.
record IsFaithful (d : Device) (v : Valued d) : Type 0 where
  running_reads : AllReads d v.traffic.contents v.traffic.running v.results
  value_reads : (n : ℕ) (r : ℕ × List ℕ) → v.value n ≡ some r → IsRead d (v.traffic.contents n) r
  value_set : (n : ℕ) → is_some (v.value n) ≡ v.traffic.has_value n

AllReads-fill :
    (d : Device) (made : ℕ) (item : BacklogItem) (contents : ℕ → BacklogItem) (ns : List ℕ)
    (rs : List (ℕ × List ℕ))
    → ((n : ℕ) → occurs n ns ≡ true → n < made)
    → AllReads d contents ns rs
    → AllReads d (fill made item contents) ns rs
AllReads-fill d made item contents [] [] below h = tt
AllReads-fill d made item contents [] (r ∷ rs) below h = h
AllReads-fill d made item contents (n ∷ ns) [] below h = h
AllReads-fill d made item contents (n ∷ ns) (r ∷ rs) below (first, h) = (
  subst (λ i. IsRead d i r) (sym (fill-old made n item contents (below n (rw (==_refl n) refl))))
      first,
  AllReads-fill d made item contents ns rs (λ k o. below k (ground arith)) h,
)

module _ {d : Device} (v : Valued d) (s : IsSound v.traffic) (f : IsFaithful d v) where
  set_below : (n : ℕ) (r : ℕ × List ℕ) → v.value n ≡ some r → n < v.traffic.made
  set_below n r e = s.set_below n (sym (f.value_set n) ∙ ap is_some e)

  added-IsFaithful :
      (place : ℕ) (key : BacklogKey) (item : BacklogItem)
      → IsFaithful d (record v { traffic = added place key item v.traffic })
  added-IsFaithful place key item = record {
    running_reads =
        AllReads-fill d v.traffic.made item v.traffic.contents v.traffic.running v.results
          s.running_below f.running_reads;
    value_reads = λ n r e.
        subst (λ i. IsRead d i r)
          (sym (fill-old v.traffic.made n item v.traffic.contents (set_below n r e)))
          (f.value_reads n r e);
    value_set = f.value_set;
  }

  enter-IsFaithful :
      (printing : Printing) (place : ℕ) (item : BacklogItem)
      → IsFaithful d (record v { traffic = enter printing place item v.traffic })
  unfolding enter request
  enter-IsFaithful printing place item =
      let key = backlog_key printing item in
      elim (Option-cases (find key v.traffic.backlog)) [
        | inl e ↦ rw (e, request) (added-IsFaithful place key item)
        | inr (old, e) ↦
            rw (e, request)
              (record {
                running_reads = f.running_reads;
                value_reads = f.value_reads;
                value_set = f.value_set;
              })
      ]

  run_dispatch-IsFaithful :
      {printing : Printing} → IsMatched printing v.traffic → IsFaithful d (run_dispatch v)
  unfolding run_dispatch start_dispatch
  run_dispatch-IsFaithful m = record {
    running_reads =
        round-AllReads d v.traffic.contents v.traffic.pointer v.traffic.backlog v.device (
          AllHold-find (λ k. v.traffic.contents (v.traffic.pointer k)) v.traffic.backlog s.distinct
            m.holds);
    value_reads = f.value_reads;
    value_set = f.value_set;
  }

  module _ (n : ℕ) (r : ℕ × List ℕ) (running : List ℕ) (results : List (ℕ × List ℕ)) where
    deliver-IsFaithful :
        v.traffic.running ≡ n ∷ running
        → v.results ≡ r ∷ results
        → IsFaithful d (deliver n r running results v)
    unfolding deliver set_value
    deliver-IsFaithful p q =
        let (now, later) =
          subst (λ rs. AllReads d v.traffic.contents (n ∷ running) rs) q
            (subst (λ ns. AllReads d v.traffic.contents ns v.results) p f.running_reads) in
        record {
          running_reads = later;
          value_reads = λ k x e. elim (Bool-cases (k == n)) [
            | inl same ↦
                subst (λ i. IsRead d (v.traffic.contents i) x) (sym ((==_iff k n).0 same))
                  (subst (IsRead d (v.traffic.contents n)) (value_of k x same e) now)
            | inr other ↦ f.value_reads k x (ground arith)
          ];
          value_set = λ k. ground (arith, f.value_set k);
        }
      where
        value_of :
            (k : ℕ) (x : ℕ × List ℕ)
            → (k == n) ≡ true
            → (if k == n then some r else v.value k) ≡ some x
            → r ≡ x
        value_of k x same e = ground arith

Step-IsFaithful :
    {d : Device} {printing : Printing} {v v' : Valued d}
    → Step d printing v v'
    → IsSound v.traffic
    → IsMatched printing v.traffic
    → IsFaithful d v
    → IsFaithful d v'
Step-IsFaithful {d} {printing} (enters place item v fits) s m f =
    enter-IsFaithful v s f printing place item
Step-IsFaithful (dispatches v idle) s m f = run_dispatch-IsFaithful v s f m
Step-IsFaithful (sets v n r running results p q) s m f =
    deliver-IsFaithful v s f n r running results p q

Reachable-IsFaithful :
    {d : Device} {printing : Printing} {v : Valued d}
    → PrintingLaws printing
    → Reachable d printing v
    → IsFaithful d v
Reachable-IsFaithful laws (begins s) = record {
  running_reads = tt;
  value_reads = λ n r e. cc;
  value_set = λ n. refl;
}
Reachable-IsFaithful laws (steps r q) =
    let t = Traffic-Reachable r in
    Step-IsFaithful q (Reachable-IsSound t) (Reachable-IsMatched laws t)
      (Reachable-IsFaithful laws r)

IsRead-le :
    {d : Device} (device : DeviceLaws d) (item : BacklogItem) (r : ℕ × List ℕ)
    → IsRead d item r
    → r.0 ≤ item.size
IsRead-le device item r (on_its_own s e) =
    omega
      (arith, ap (λ x. x.0) e, device.mem_read_ex-le item.pid item.address (item.size % 2 ^ 32) s)
IsRead-le {d} device item r (scattered s t e) = omega (
  arith,
  ap (λ x. x.0) e,
  device.scatter_read-le (d.scatter_initialize item.pid s).0 item.address (item.size % 2 ^ 32) t,
)

-- A call that has a value has the value of its promise, read by the device for what was asked, and not
-- longer than that.
abbrev pub IsServed : {d : Device} → Valued d → BacklogItem → ℕ → Type 0
IsServed {d} v item n =
    (is_some (v.value n) ≡ v.traffic.has_value n)
    × ((r : ℕ × List ℕ) → v.value n ≡ some r → IsRead d item r × (r.0 ≤ item.size))

-- However the steps of any number of readers and of the dispatcher follow each other, a call of `read`
-- has a value exactly once its promise was set, and that value is what the device read for the process,
-- the address and the size that this call asked for, whether it was read alone or with others, and
-- whoever asked for it first; its count is not above the size of the caller's buffer.
-- `std::to_string` writes no colon and different numbers differently, and the device does not report
-- more bytes than it was asked for.
pub Reachable-AllCalls :
    {d : Device} {printing : Printing} {v : Valued d}
    → PrintingLaws printing
    → DeviceLaws d
    → Reachable d printing v
    → AllCalls (IsServed v) v.traffic.calls
Reachable-AllCalls {d} {printing} {v} laws device r =
    let t = Traffic-Reachable r in
    let f = Reachable-IsFaithful laws r in
    all_calls (IsServed v) v.traffic.contents v.traffic.made v.traffic.calls
      (Reachable-IsMatched laws t).asked
      λ item n same o. (
        f.value_set n,
        λ x e.
            let q = subst (λ i. IsRead d i x) same (f.value_reads n x e) in
            (q, IsRead-le device item x q),
      )
