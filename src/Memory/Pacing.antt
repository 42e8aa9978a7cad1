-- ===== src/Memory/Pacing.antt =====
-- The wait of dispatchLoop between two rounds, which gives readers time to fill the backlog. The times
-- are nanoseconds. The size of the backlog is read without the mutex.
use ceserver_pcileech.Prelude.{
  ℕ, zero, suc, ◌+◌, ◌-◌, ◌≤◌, ◌≡◌, refl, false, if◌then◌else◌, leb, Option, none, some, arith,
  Bool-cases, inl, inr,
}
use ceserver_pcileech.Memory.Backlog.{max_dispatch_size}

-- What the loop asks of the clock and of the backlog that others fill.
pub record Surroundings : Type 1 where
  pub World : Type 0
  pub backlog_size : World → ℕ × World
  pub now : World → ℕ × World
  pub sleep_for : ℕ → World → World

abbrev pub dma_max_backlog_build_time_ns : ℕ
dma_max_backlog_build_time_ns = 2000000

abbrev pub dma_backoff_timer_extend_ns : ℕ
dma_backoff_timer_extend_ns = 500000

-- The test that ended the wait, with what it read.
pub data Waited : Type 0 where
  full : ℕ → Waited
  backed_off : ℕ → Waited
  built_up : ℕ → Waited

module _ (around : Surroundings) where
  -- `none` where the rounds are used up.
  unfoldable pub wait_for_backlog : ℕ → ℕ → ℕ → around.World → Option (Waited × ℕ × around.World)
  wait_for_backlog zero next_dispatch_time last_dispatch_time w = none
  wait_for_backlog (suc fuel) next_dispatch_time last_dispatch_time w =
      let (size, w0) = around.backlog_size w in
      let (first, w1) = around.now w0 in
      let (second, w2) = around.now w1 in
      let rest =
        wait_for_backlog fuel next_dispatch_time last_dispatch_time
          (around.sleep_for dma_max_backlog_build_time_ns w2) in
      if leb max_dispatch_size size
      then some (full size, fuel, w0)
      else if leb next_dispatch_time first
      then some (backed_off first, fuel, w1)
      else if leb dma_max_backlog_build_time_ns (second - last_dispatch_time)
      then some (built_up second, fuel, w2)
      else rest

-- What the C++ library documents of the clock: it does not go back, and a sleep lasts as long as
-- asked.
pub record PaceLaws (around : Surroundings) : Type 0 where
  pub time : around.World → ℕ
  pub now_lem : (w : around.World) → (around.now w).0 ≡ time w
  pub time-now : (w : around.World) → time w ≤ time (around.now w).1
  pub time-backlog_size : (w : around.World) → time w ≤ time (around.backlog_size w).1
  pub time-sleep_for : (n : ℕ) (w : around.World) → time w + n ≤ time (around.sleep_for n w)

-- A wait that is over for a reason: a full batch was waiting, or the time to back off had passed.
abbrev pub IsDue : ℕ → Waited → Type 0
IsDue next (full size) = max_dispatch_size ≤ size
IsDue next (backed_off time) = next ≤ time
IsDue next (built_up time) = next ≤ time

module _ (around : Surroundings) (laws : PaceLaws around) (last : ℕ) where
  abbrev pub next : ℕ
  next = last + dma_backoff_timer_extend_ns

  abbrev pub Due : Option (Waited × ℕ × around.World) → Type 0
  Due r = (x : Waited) × (left : ℕ) × (w' : around.World) × (r ≡ some (x, left, w')) × IsDue next x

  -- The times that a round reads.
  abbrev first : around.World → ℕ
  first w = (around.now (around.backlog_size w).1).0

  abbrev second : around.World → ℕ
  second w = (around.now (around.now (around.backlog_size w).1).1).0

  abbrev behind : around.World → around.World
  behind w =
      around.sleep_for dma_max_backlog_build_time_ns
        (around.now (around.now (around.backlog_size w).1).1).1

  second-ge : (w : around.World) → laws.time w ≤ second w
  second-ge w =
      let w0 = (around.backlog_size w).1 in
      let w1 = (around.now w0).1 in
      omega (arith, laws.now_lem w1, laws.time-now w0, laws.time-backlog_size w)

  behind-ge :
      (w : around.World) → laws.time w + dma_max_backlog_build_time_ns ≤ laws.time (behind w)
  behind-ge w =
      let w0 = (around.backlog_size w).1 in
      let w1 = (around.now w0).1 in
      let w2 = (around.now w1).1 in
      omega (
        arith,
        laws.time-now w1,
        laws.time-now w0,
        laws.time-backlog_size w,
        laws.time-sleep_for dma_max_backlog_build_time_ns w2,
      )

  round :
      (fuel : ℕ) (w : around.World)
      → (leb dma_max_backlog_build_time_ns (second w - last) ≡ false
          → Due (wait_for_backlog around fuel next last (behind w)))
      → Due (wait_for_backlog around (suc fuel) next last w)
  unfolding wait_for_backlog
  round fuel w k =
      let (size, w0) = around.backlog_size w in
      elim (Bool-cases (leb max_dispatch_size size)) [
        | inl e ↦ rw e (full size, fuel, w0, refl, ground arith)
        | inr e ↦ elim (Bool-cases (leb next (first w))) [
          | inl e' ↦ rw (e, e') (backed_off (first w), fuel, (around.now w0).1, refl, ground arith)
          | inr e' ↦ elim (Bool-cases (leb dma_max_backlog_build_time_ns (second w - last))) [
            | inl e'' ↦
                rw (e, e', e'')
                  (built_up (second w), fuel, (around.now (around.now w0).1).1, refl, ground arith)
            | inr e'' ↦ rw (e, e', e'') (k e'')
          ]
        ]
      ]

  -- The wait before a round of the dispatch loop sleeps once at most, and when it ends either as many
  -- readers wait as a batch can hold, or half a millisecond has passed since the last round began. The
  -- last round is not in the future, the clock does not go back and a sleep lasts as long as asked.
  pub wait_for_backlog-Due :
      (w : around.World) → last ≤ laws.time w → Due (wait_for_backlog around 2 next last w)
  wait_for_backlog-Due w le =
      round 1 w
        λ e. round 0 (behind w) λ e'. absurd (late le (second-ge (behind w)) (behind-ge w) e')
    where
      late :
          {a b c : ℕ}
          → last ≤ c
          → b ≤ a
          → c + dma_max_backlog_build_time_ns ≤ b
          → leb dma_max_backlog_build_time_ns (a - last) ≡ false
          → ⊥
      late p q r e = ground arith
