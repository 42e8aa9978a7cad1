-- ===== src/Memory/Traffic/Requests.antt =====
-- Calls that share a BacklogItem asked for the same: what a call waits for was made for its own
-- process, address and size.
use ceserver_pcileech.Prelude.{
  ℕ, suc, ◌<◌, ◌≡◌, refl, sym, ◌∙◌, List, [], ◌∷◌, ==_refl, none, some, Option-cases, arith,
  Bool-cases, inl, inr,
}
use ceserver_pcileech.Memory.Backlog.{
  BacklogItem, BacklogKey, Backlog, Printing, backlog_key, same_text, find, erase, erase_all,
  request, next_batch, dispatch_round,
}
use ceserver_pcileech.Memory.Backlog.Keys.{
  PrintingLaws, ItemFits, Keyed, find-Keyed, put-Keyed, backlog_key-injective,
}
use ceserver_pcileech.Memory.Backlog.Progress.{find-dispatch_round}
use ceserver_pcileech.Memory.Backlog.Distinct.{find-put_new}
use ceserver_pcileech.Memory.Traffic.{
  Traffic, at_start, fill, enter, start_dispatch, set_value, Works, dispatches, sets, Step, enters,
  works,
}
use ceserver_pcileech.Memory.Traffic.Invariant.{IsSound}
use ceserver_pcileech.Memory.Traffic.Entering.{joined, added}

-- Each call waits for an item that was made, for what it asked for.
abbrev pub AllAsked : (ℕ → BacklogItem) → ℕ → List (BacklogItem × ℕ) → Type 0
AllAsked contents made [] = Unit
AllAsked contents made (c ∷ cs) = ((contents c.1 ≡ c.0) × (c.1 < made)) × AllAsked contents made cs

pub record IsMatched (printing : Printing) (t : Traffic) : Type 0 where
  pub keyed : Keyed printing t.backlog
  pub holds :
      (key : BacklogKey) (item : BacklogItem)
      → find key t.backlog ≡ some item
      → t.contents (t.pointer key) ≡ item
  pub asked : AllAsked t.contents t.made t.calls

pub fill-old :
    (n m : ℕ) (item : BacklogItem) (contents : ℕ → BacklogItem)
    → m < n
    → fill n item contents m ≡ contents m
fill-old n m item contents lt = ground arith

AllAsked-fill :
    (made : ℕ) (item : BacklogItem) (contents : ℕ → BacklogItem) (calls : List (BacklogItem × ℕ))
    → AllAsked contents made calls
    → AllAsked (fill made item contents) (suc made) calls
AllAsked-fill made item contents [] asked = tt
AllAsked-fill made item contents (c ∷ cs) ((same, below), asked) = (
  (fill-old made c.1 item contents below ∙ same, omega arith),
  AllAsked-fill made item contents cs asked,
)

Keyed-erase :
    (printing : Printing) (key : BacklogKey) (b : Backlog)
    → Keyed printing b
    → Keyed printing (erase key b)
unfolding erase
Keyed-erase printing key [] k = tt
Keyed-erase printing key (e ∷ b) (own, f, k) = elim (Bool-cases (same_text key e.0)) [
  | inl p ↦ rw p (Keyed-erase printing key b k)
  | inr p ↦ rw p (own, f, Keyed-erase printing key b k)
]

Keyed-erase_all :
    (printing : Printing) (batch b : Backlog)
    → Keyed printing b
    → Keyed printing (erase_all batch b)
unfolding erase_all
Keyed-erase_all printing [] b k = k
Keyed-erase_all printing (e ∷ batch) b k =
    Keyed-erase_all printing batch (erase e.0 b) (Keyed-erase printing e.0 b k)

module _ {printing : Printing} (laws : PrintingLaws printing) where
  joined-IsMatched :
      (item old : BacklogItem) (t : Traffic)
      → ItemFits item
      → find (backlog_key printing item) t.backlog ≡ some old
      → IsSound t
      → IsMatched printing t
      → IsMatched printing (joined (backlog_key printing item) item t)
  joined-IsMatched item old t fits e s m =
      let key = backlog_key printing item in
      let (same, fits') = find-Keyed laws key t.backlog old m.keyed e in
      record {
        keyed = m.keyed;
        holds = m.holds;
        asked = (
          (
            m.holds key old e ∙ sym (backlog_key-injective laws item old fits fits' same),
            s.backlog_below key (rw e refl),
          ),
          m.asked,
        );
      }

  added-IsMatched :
      (place : ℕ) (item : BacklogItem) (t : Traffic)
      → ItemFits item
      → find (backlog_key printing item) t.backlog ≡ none
      → IsSound t
      → IsMatched printing t
      → IsMatched printing (added place (backlog_key printing item) item t)
  added-IsMatched place item t fits e s m =
      let key = backlog_key printing item in
      record {
        keyed = put-Keyed laws place item t.backlog fits m.keyed;
        holds = λ k i f. ground (
          arith,
          find-put_new place k (key, item) t.backlog e,
          m.holds k i,
          s.backlog_below k,
          ==_refl t.made,
        );
        asked = (
          (rw (==_refl t.made) refl, omega arith),
          AllAsked-fill t.made item t.contents t.calls m.asked,
        );
      }

  enter-IsMatched :
      (place : ℕ) (item : BacklogItem) (t : Traffic)
      → ItemFits item
      → IsSound t
      → IsMatched printing t
      → IsMatched printing (enter printing place item t)
  unfolding enter request
  enter-IsMatched place item t fits s m =
      elim (Option-cases (find (backlog_key printing item) t.backlog)) [
        | inl e ↦ rw (e, request) (added-IsMatched place item t fits e s m)
        | inr (old, e) ↦ rw (e, request) (joined-IsMatched item old t fits e s m)
      ]

Works-IsMatched :
    {printing : Printing} {t t' : Traffic}
    → Works t t'
    → IsMatched printing t
    → IsMatched printing t'
unfolding start_dispatch set_value dispatch_round
Works-IsMatched {printing} (dispatches t idle) m = record {
  keyed = Keyed-erase_all printing (next_batch t.backlog) t.backlog m.keyed;
  holds = λ key item e. m.holds key item (ground (arith, find-dispatch_round key t.backlog));
  asked = m.asked;
}
Works-IsMatched (sets t n running next) m = record {
  keyed = m.keyed;
  holds = m.holds;
  asked = m.asked;
}

pub at_start-IsMatched : (printing : Printing) → IsMatched printing at_start
unfolding find
at_start-IsMatched printing = record { keyed = tt; holds = λ key item e. cc; asked = tt }

pub Step-IsMatched :
    {printing : Printing} {t t' : Traffic}
    → PrintingLaws printing
    → Step printing t t'
    → IsSound t
    → IsMatched printing t
    → IsMatched printing t'
Step-IsMatched laws (enters place item t fits) s m = enter-IsMatched laws place item t fits s m
Step-IsMatched laws (works w) s m = Works-IsMatched w m
