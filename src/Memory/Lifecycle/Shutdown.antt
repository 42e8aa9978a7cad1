-- ===== src/Memory/Lifecycle/Shutdown.antt =====
-- Memory::shutdown against a dispatch loop that has nothing to do: shutdown sets `bStop` and notifies
-- without the mutex, and then joins the thread. No reader comes, and no thread wakes up without a
-- notification.
use ceserver_pcileech.Prelude.{◌≡◌, refl}

-- Where the dispatch loop is: at the test of its while; before the test of the condition; behind the
-- test, which has found false, but not yet asleep; asleep; at its end.
pub data Dispatcher : Type 0 where
  at_while before_test behind_test asleep ended : Dispatcher

-- Where shutdown is: before it has set `bStop`, behind that, behind `notify_all`, behind `join`.
pub data Stopper : Type 0 where
  before flagged notified joined : Stopper

pub record Ending : Type 0 where
  pub dispatcher : Dispatcher
  pub stopper : Stopper

abbrev pub Flagged : Stopper → Type 0
Flagged before = ⊥
Flagged flagged = Unit
Flagged notified = Unit
Flagged joined = Unit

-- `notify_all` wakes who is asleep, to test the condition again.
abbrev pub woken : Dispatcher → Dispatcher
woken at_while = at_while
woken before_test = before_test
woken behind_test = behind_test
woken asleep = before_test
woken ended = ended

pub data Step : Ending → Ending → Type 0 where
  leaves :
      (s : Stopper)
      → Flagged s
      → Step
          (record { dispatcher = at_while; stopper = s })
          (record { dispatcher = ended; stopper = s })
  finds_nothing :
      Step
        (record { dispatcher = at_while; stopper = before })
        (record { dispatcher = before_test; stopper = before })
  finds_flag :
      (s : Stopper)
      → Flagged s
      → Step
          (record { dispatcher = before_test; stopper = s })
          (record { dispatcher = at_while; stopper = s })
  finds_none :
      Step
        (record { dispatcher = before_test; stopper = before })
        (record { dispatcher = behind_test; stopper = before })
  falls_asleep :
      (s : Stopper)
      → Step
          (record { dispatcher = behind_test; stopper = s })
          (record { dispatcher = asleep; stopper = s })
  sets_flag :
      (p : Dispatcher)
      → Step
          (record { dispatcher = p; stopper = before })
          (record { dispatcher = p; stopper = flagged })
  notifies :
      (p : Dispatcher)
      → Step
          (record { dispatcher = p; stopper = flagged })
          (record { dispatcher = woken p; stopper = notified })
  joins :
      Step
        (record { dispatcher = ended; stopper = notified })
        (record { dispatcher = ended; stopper = joined })

pub data Reachable : Ending → Type 0 where
  begins : Reachable (record { dispatcher = at_while; stopper = before })
  steps : {s t : Ending} → Reachable s → Step s t → Reachable t

-- The thread is asleep, and shutdown waits for it.
abbrev pub lost : Ending
lost = record { dispatcher = asleep; stopper = notified }

lost-Reachable : Reachable lost
lost-Reachable =
    steps
      (steps (steps (steps (steps begins finds_nothing) finds_none) (sets_flag behind_test))
        (notifies behind_test))
      (falls_asleep notified)

pub data Progress (s : Ending) : Type 0 where
  moves : (t : Ending) → Step s t → Progress s
  is_lost : s ≡ lost → Progress s
  has_joined : s.stopper ≡ joined → Progress s

progress : (p : Dispatcher) (s : Stopper) → Progress (record { dispatcher = p; stopper = s })
progress p joined = has_joined refl
progress p before = moves _ (sets_flag p)
progress p flagged = moves _ (notifies p)
progress at_while notified = moves _ (leaves notified tt)
progress before_test notified = moves _ (finds_flag notified tt)
progress behind_test notified = moves _ (falls_asleep notified)
progress asleep notified = is_lost refl
progress ended notified = moves _ joins

Step-moves : {s t : Ending} → Step s t → s.dispatcher ≡ asleep → s.stopper ≡ notified → ⊥
Step-moves (leaves s f) p q = cc
Step-moves finds_nothing p q = cc
Step-moves (finds_flag s f) p q = cc
Step-moves finds_none p q = cc
Step-moves (falls_asleep s) p q = cc
Step-moves (sets_flag d) p q = cc
Step-moves (notifies d) p q = cc
Step-moves joins p q = cc

-- Shutdown can wait for good: the thread can find that nothing is to be done, then shutdown sets its
-- flag and notifies nobody, and then the thread falls asleep, with no step left to either. This is the
-- only way: in every other state one of the two can go on, or shutdown has joined the thread.
pub lost_wakeup : Reachable lost × ((t : Ending) → Step lost t → ⊥) × ((s : Ending) → Progress s)
lost_wakeup =
    (lost-Reachable, (λ t w. Step-moves w refl refl), λ s. progress s.dispatcher s.stopper)
