-- ===== src/Memory/Lifecycle.antt =====
-- Memory::init, start, shutdown and the destructor: the handle of the VMM library and the thread of
-- the dispatch loop. A thread object that was deleted stays where `dispatchThread` points.
pub mod Shutdown
use ceserver_pcileech.Prelude.{
  ℕ, suc, ◌≤◌, ◌↔◌, List, [], ◌∷◌, arith, ◌∙◌, ap, sym, ◌≡◌, refl, Bool, true, false, not,
  if◌then◌else◌, Option, none, some, Option-cases, Bool-cases, inl, inr,
}
use ceserver_pcileech.Prelude.Maps.{is_some}
use ceserver_pcileech.Memory.Device.{Device, memory_arguments, generate_memory_map}

-- `dispatchThread`: a null pointer, a thread that runs, or one that was joined and deleted.
pub data DispatchThread : Type 0 where
  null runs deleted : DispatchThread

pub record Lifecycle (d : Device) : Type 0 where
  pub h_vmm : Option d.Handle
  pub dispatch_thread : DispatchThread
  pub b_stop : Bool
  pub device : d.State
  -- How many threads were started, and how many were joined.
  pub started : ℕ
  pub ended : ℕ

-- What a client of class Memory calls.
pub data Call : Type 0 where
  inits starts : Call

module _ (d : Device) where
  abbrev pub created : d.State → Lifecycle d
  created s = record {
    h_vmm = none;
    dispatch_thread = null;
    b_stop = false;
    device = s;
    started = 0;
    ended = 0;
  }

  start_from : DispatchThread → Lifecycle d → Lifecycle d
  start_from null l = record l { b_stop = false; dispatch_thread = runs; started = suc l.started }
  start_from runs l = l
  start_from deleted l = l

  unfoldable pub start : Lifecycle d → Lifecycle d
  unfolding start_from
  start l = start_from l.dispatch_thread l

  unfoldable pub init : Lifecycle d → Bool × Lifecycle d
  init l =
      let ((generated, events), s) = generate_memory_map d l.device in
      let (handle, s') = d.initialize (memory_arguments d.mmap_path) s in
      if not generated
      then (false, record l { device = s })
      else (is_some handle, start (record l { h_vmm = handle; device = s' }))

  -- Joining and deleting; `none` is a use of the deleted object.
  join_dispatch : DispatchThread → Lifecycle d → Option (Lifecycle d)
  join_dispatch null l = some l
  join_dispatch runs l = some (record l { dispatch_thread = deleted; ended = suc l.ended })
  join_dispatch deleted l = none

  unfoldable pub shutdown : Lifecycle d → Option (Lifecycle d)
  unfolding join_dispatch
  shutdown l = join_dispatch l.dispatch_thread (record l { b_stop = true })

  close_vmm : Lifecycle d → Lifecycle d
  close_vmm l = elim l.h_vmm [ none ↦ l | some h ↦ record l { device = d.close h l.device } ]

  unfoldable pub destroy : Lifecycle d → Option (Lifecycle d)
  unfolding close_vmm
  destroy l = elim (shutdown l) [ none ↦ none | some l' ↦ some (close_vmm l') ]

  -- Calls of `init` and `start`, whatever the device answers.
  unfoldable pub prepare : List Call → Lifecycle d → Lifecycle d
  prepare [] l = l
  prepare (inits ∷ calls) l = prepare calls (init l).1
  prepare (starts ∷ calls) l = prepare calls (start l)

  -- The thread and the counts of a class Memory that was never shut down.
  data IsFresh (l : Lifecycle d) : Type 0 where
    without : l.dispatch_thread ≡ null → l.started ≡ 0 → l.ended ≡ 0 → IsFresh l
    running : l.dispatch_thread ≡ runs → l.started ≡ 1 → l.ended ≡ 0 → IsFresh l

  start_from-IsFresh :
      (t : DispatchThread) (l : Lifecycle d)
      → l.dispatch_thread ≡ t
      → IsFresh l
      → IsFresh (start_from t l)
  unfolding start_from
  start_from-IsFresh null l e (without p q r) = running refl (ap suc q) r
  start_from-IsFresh null l e (running p q r) = cc
  start_from-IsFresh runs l e f = f
  start_from-IsFresh deleted l e f = f

  start-IsFresh : (l : Lifecycle d) → IsFresh l → IsFresh (start l)
  unfolding start
  start-IsFresh l f = start_from-IsFresh l.dispatch_thread l refl f

  init-IsFresh : (l : Lifecycle d) → IsFresh l → IsFresh (init l).1
  unfolding init
  init-IsFresh l f = elim (Bool-cases (generate_memory_map d l.device).0.0) [
    | inr e ↦ rw e (moved l (generate_memory_map d l.device).1 f)
    | inl e ↦
        let (handle, s) =
          d.initialize (memory_arguments d.mmap_path) (generate_memory_map d l.device).1 in
        rw e (
          start-IsFresh (record l { h_vmm = handle; device = s })
            (moved (record l { h_vmm = handle }) s (held l handle f)))
  ]
    where
      moved : (l : Lifecycle d) (s : d.State) → IsFresh l → IsFresh (record l { device = s })
      moved l s (without p q r) = without p q r
      moved l s (running p q r) = running p q r

      held :
          (l : Lifecycle d) (handle : Option d.Handle)
          → IsFresh l
          → IsFresh (record l { h_vmm = handle })
      held l handle (without p q r) = without p q r
      held l handle (running p q r) = running p q r

  -- Where `init` reports success, the dispatch thread runs.
  pub init-started : (s : d.State) → (init (created s)).0 ≡ true → (init (created s)).1.started ≡ 1
  unfolding init start start_from
  init-started s e = elim (Bool-cases (generate_memory_map d s).0.0) [
    | inl p ↦ rw p refl
    | inr p ↦ absurd (clash (ground arith))
  ]
    where
      clash : false ≡ true → ⊥
      clash q = cc

  prepare-IsFresh : (calls : List Call) (l : Lifecycle d) → IsFresh l → IsFresh (prepare calls l)
  unfolding prepare
  prepare-IsFresh [] l f = f
  prepare-IsFresh (inits ∷ calls) l f = prepare-IsFresh calls (init l).1 (init-IsFresh l f)
  prepare-IsFresh (starts ∷ calls) l f = prepare-IsFresh calls (start l) (start-IsFresh l f)

  close_vmm-counts :
      (l : Lifecycle d) → ((close_vmm l).started ≡ l.started) × ((close_vmm l).ended ≡ l.ended)
  unfolding close_vmm
  close_vmm-counts l = elim (Option-cases l.h_vmm) [
    | inl e ↦ rw e (refl, refl)
    | inr (h, e) ↦ rw e (refl, refl)
  ]

  -- The end of a life: the thread is joined once, if there is one, and a second end would use the
  -- deleted thread.
  abbrev pub EndsWell : Lifecycle d → Type 0
  EndsWell l =
      (l.started ≤ 1)
      × ((l' : Lifecycle d) × (destroy l ≡ some l')
          × (l'.started ≡ l.started)
          × (l'.ended ≡ l'.started))
      × ((elim (shutdown l) [ none ↦ none | some l' ↦ destroy l' ] ≡ none) ↔ (l.started ≡ 1))

  shutdown_null :
      (l : Lifecycle d) → l.dispatch_thread ≡ null → shutdown l ≡ some (record l { b_stop = true })
  unfolding shutdown join_dispatch
  shutdown_null l p = ap (λ t. join_dispatch t (record l { b_stop = true })) p

  shutdown_runs :
      (l : Lifecycle d)
      → l.dispatch_thread ≡ runs
      → shutdown l
        ≡ some (record l { b_stop = true; dispatch_thread = deleted; ended = suc l.ended })
  unfolding shutdown join_dispatch
  shutdown_runs l p = ap (λ t. join_dispatch t (record l { b_stop = true })) p

  abbrev destroyed : Option (Lifecycle d) → Option (Lifecycle d)
  destroyed r = elim r [ none ↦ none | some l ↦ some (close_vmm l) ]

  abbrev again : Option (Lifecycle d) → Option (Lifecycle d)
  again r = elim r [ none ↦ none | some l ↦ destroy l ]

  ends : (l : Lifecycle d) → IsFresh l → EndsWell l
  unfolding destroy shutdown join_dispatch
  ends l (without p q r) =
      let l1 = record l { b_stop = true } in
      let some_again = ap again (shutdown_null l p) ∙ ap destroyed (shutdown_null l1 p) in
      (
        omega (arith, q),
        (
          close_vmm l1,
          ap destroyed (shutdown_null l p),
          (close_vmm-counts l1).0,
          omega (arith, close_vmm-counts l1, r, q),
        ),
        ((λ e. absurd (clash (sym some_again ∙ e))), λ e. absurd (omega (arith, e, q))),
      )
    where
      clash : {l' : Lifecycle d} → some l' ≡ none → ⊥
      clash e = cc
  ends l (running p q r) =
      let l1 = record l { b_stop = true; dispatch_thread = deleted; ended = suc l.ended } in
      (
        omega (arith, q),
        (
          close_vmm l1,
          ap destroyed (shutdown_runs l p),
          (close_vmm-counts l1).0,
          omega (arith, close_vmm-counts l1, r, q),
        ),
        ((λ e. q), λ e. ap again (shutdown_runs l p)),
      )

  -- However often `init` and `start` are called and whatever the device answers, one dispatch thread at
  -- most is started, and the destructor joins it. A call of `shutdown` before that makes the destructor
  -- use the thread object that shutdown has deleted, exactly if a thread was started.
  pub prepare-EndsWell : (calls : List Call) (s : d.State) → EndsWell (prepare calls (created s))
  prepare-EndsWell calls s =
      ends (prepare calls (created s)) (prepare-IsFresh calls (created s) (without refl refl refl))
