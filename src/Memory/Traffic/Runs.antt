-- ===== src/Memory/Traffic/Runs.antt =====
-- Runs of the dispatcher alone, and how many batches empty the backlog.
use ceserver_pcileech.Prelude.{
  ℕ, zero, suc, ◌+◌, ◌≤◌, ◌≡◌, refl, ap, ◌∙◌, List, [], ◌∷◌, arith, length,
}
use ceserver_pcileech.Memory.Backlog.{Backlog, dispatch_round, max_bytes_per_dispatch}
use ceserver_pcileech.Memory.Backlog.Batch.{AllBelow}
use ceserver_pcileech.Memory.Backlog.Progress.{length-dispatch_round, AllBelow-dispatch_round}
use ceserver_pcileech.Memory.Traffic.{Traffic, start_dispatch, set_value, Works, dispatches, sets}
use ceserver_pcileech.Memory.Traffic.Invariant.{IsSound}
use ceserver_pcileech.Memory.Traffic.Working.{Works-IsSound}

-- Some steps of the dispatcher alone.
pub data Runs : Traffic → Traffic → Type 0 where
  done : (t : Traffic) → Runs t t
  then_works : {t t' t'' : Traffic} → Works t t' → Runs t' t'' → Runs t t''

pub both : {t t' t'' : Traffic} → Runs t t' → Runs t' t'' → Runs t t''
both (done t) r = r
both (then_works w r) r' = then_works w (both r r')

pub Runs-IsSound : {t t' : Traffic} → Runs t t' → IsSound t → IsSound t'
Runs-IsSound (done t) s = s
Runs-IsSound (then_works w r) s = Runs-IsSound r (Works-IsSound w s)

-- How many batches a run of the dispatcher takes.
abbrev pub rounds : {t t' : Traffic} → Runs t t' → ℕ
rounds (done t) = 0
rounds (then_works (dispatches t e) r) = suc (rounds r)
rounds (then_works (sets t n running e) r) = rounds r

pub rounds-both :
    {t t' t'' : Traffic} (r : Runs t t') (r' : Runs t' t'')
    → rounds (both r r') ≡ rounds r + rounds r'
unfolding both
rounds-both (done t) r' = omega arith
rounds-both (then_works (dispatches t e) r) r' = omega (arith, rounds-both r r')
rounds-both (then_works (sets t n running e) r) r' = rounds-both r r'

-- The dispatcher comes to a state without a running dispatch, with this backlog, in
-- so many batches at most.
pub record Idle (n : ℕ) (b : Backlog) (t : Traffic) : Type 0 where
  pub after : Traffic
  pub runs : Runs t after
  pub few : rounds runs ≤ n
  pub idle : after.running ≡ []
  pub backlog : after.backlog ≡ b
  pub calls : after.calls ≡ t.calls

pub finish_batch : (running : List ℕ) (t : Traffic) → t.running ≡ running → Idle 0 t.backlog t
unfolding set_value
finish_batch [] t e = record {
  after = t;
  runs = done t;
  few = omega arith;
  idle = e;
  backlog = refl;
  calls = refl;
}
finish_batch (n ∷ running) t e =
    let rest = finish_batch running (set_value n running t) refl in
    record {
      after = rest.after;
      runs = then_works (sets t n running e) rest.runs;
      few = omega (arith, rest.few);
      idle = rest.idle;
      backlog = rest.backlog;
      calls = rest.calls;
    }

pub drain :
    (fuel : ℕ) (b : Backlog) (t : Traffic)
    → t.backlog ≡ b
    → t.running ≡ []
    → AllBelow max_bytes_per_dispatch b
    → length b ≤ fuel
    → Idle (length b) [] t
unfolding start_dispatch
drain fuel [] t e idle small le = record {
  after = t;
  runs = done t;
  few = omega arith;
  idle = idle;
  backlog = e;
  calls = refl;
}
drain zero (d ∷ b) t e idle small le = absurd (omega arith)
drain (suc fuel) (d ∷ b) t e idle small le =
    let batch = finish_batch (start_dispatch t).running (start_dispatch t) refl in
    let rest =
      drain fuel (dispatch_round (d ∷ b)).1 batch.after
        (batch.backlog ∙ ap (λ c. (dispatch_round c).1) e) batch.idle
        (AllBelow-dispatch_round max_bytes_per_dispatch (d ∷ b) small)
        (omega (arith, length-dispatch_round d b small.0)) in
    record {
      after = rest.after;
      runs = then_works (dispatches t idle) (both batch.runs rest.runs);
      few = omega (
        arith,
        rounds-both batch.runs rest.runs,
        batch.few,
        rest.few,
        length-dispatch_round d b small.0,
      );
      idle = rest.idle;
      backlog = rest.backlog;
      calls = rest.calls ∙ batch.calls;
    }
