-- ===== src/Client/Polling.antt =====
-- CMD_GETARCHITECTURE, the one handler of Client.cpp that polls its connection.
use ceserver_pcileech.Prelude.{
  ℕ, zero, suc, ◌+◌, ◌%◌, ◌*◌, ◌^◌, ◌≤◌, ◌<◌, ◌≡◌, refl, ap, ◌∙◌, subst, List, [], ◌∷◌, ◌++◌, Bool,
  true, false, not, ◌==◌, arith, if◌then◌else◌, take, leb, Bool-cases, inl, inr,
}
use ceserver_pcileech.Prelude.Bytes.{le_bytes}
use ceserver_pcileech.Machine.{Machine, ClockLaws}
use ceserver_pcileech.Client.Monad.{
  asks, send, send_word, M, Ctx, Outcome, ok, fault, ◌>>=◌, overlay, pure,
}
use ceserver_pcileech.ClientState.{
  contains_process_id_handle, get_process_handle_legacy_ce, minus_one,
}
use ceserver_pcileech.Client.Protection.{get_architecture_from_memory_model}
use ceserver_pcileech.ClientState.{get_process_id}
use ceserver_pcileech.Client.Process.{
  handle_command_get_architecture, would_block, send_architecture, poll_handle, poll_rounds,
  is_positive,
}

-- The same facts, but for the connection.
abbrev pub Same : {m : Machine} → Ctx m → Ctx m → Type 0
Same c d = (d.sent ≡ c.sent) × ((d.state ≡ c.state) × (d.mem ≡ c.mem))

-- A computation that ends with a result and has sent and changed nothing.
abbrev Ends : {m : Machine} {A : Type 0} → Ctx m → Outcome m A → Type 0
Ends c (ok _ d) = Same c d
Ends c (fault _) = ⊥

Ends-ok :
    {m : Machine} {A : Type 0} (c : Ctx m) (o : Outcome m A)
    → Ends c o
    → (a : A) × (d : Ctx m) × (o ≡ ok a d)
Ends-ok c (ok a d) e = (a, d, refl)
Ends-ok c (fault x) e = absurd e

module _ {m : Machine} where
  -- The variable and the connection after a round that found nothing.
  abbrev next_handle : List ℕ → Ctx m → List ℕ
  next_handle handle c = overlay (take 4 (m.recv_non_blocking c.world 4).0.written) handle

  abbrev slept : Ctx m → Ctx m
  slept c = record c { world = m.sleep (m.now (m.recv_non_blocking c.world 4).1).1 100 }

  poll_step :
      (fuel timeout : ℕ) (handle : List ℕ) (c : Ctx m)
      → ((m.now (m.recv_non_blocking c.world 4).1).0 < timeout
          → Ends c (poll_handle fuel timeout (next_handle handle c) (slept c)))
      → Ends c (poll_handle (suc fuel) timeout handle c)
  unfolding poll_handle
  poll_step fuel timeout handle c later =
      let polled = m.recv_non_blocking c.world 4 in
      let now = m.now polled.1 in
      elim (Bool-cases (is_positive polled.0.count)) [
        | inl e ↦ rw e (refl, (refl, refl))
        | inr e ↦ elim (Bool-cases (leb timeout now.0)) [
          | inl e' ↦ rw (e, e') (refl, (refl, refl))
          | inr e' ↦ rw (e, e') (later (ground arith))
        ]
      ]

module _ {m : Machine} (clock : ClockLaws m) where
  poll_handle-Ends :
      (fuel timeout : ℕ) (handle : List ℕ) (c : Ctx m)
      → timeout ≤ clock.time c.world + 100 * fuel
      → Ends c (poll_handle (suc fuel) timeout handle c)
  poll_handle-Ends zero timeout handle c le = poll_step zero timeout handle c λ early.
      absurd
        (omega (arith, clock.time-poll c.world 4, clock.now_lem (m.recv_non_blocking c.world 4).1))
  poll_handle-Ends (suc fuel) timeout handle c le = poll_step (suc fuel) timeout handle c λ early.
      poll_handle-Ends fuel timeout (next_handle handle c) (slept c) (
        omega (
          arith,
          clock.time-poll c.world 4,
          clock.time-now (m.recv_non_blocking c.world 4).1,
          clock.time-sleep (m.now (m.recv_non_blocking c.world 4).1).1 100,
        ))

  -- Polling for the handle of a request for the architecture ends with a result within eleven
  -- rounds, whatever the connection delivers and when, if the time limit is at most a second away,
  -- the clock does not go back and a sleep lasts as long as asked.
  pub poll_handle-ends :
      (timeout : ℕ) (handle : List ℕ) (c : Ctx m)
      → timeout ≤ clock.time c.world + 1000
      → (h : ℕ) × (c' : Ctx m) × (poll_handle poll_rounds timeout handle c ≡ ok h c')
  poll_handle-ends timeout handle c le =
      Ends-ok c (poll_handle poll_rounds timeout handle c)
        (poll_handle-Ends 10 timeout handle c (omega arith))

-- The byte for the architecture of the process that a handle stands for.
abbrev pub architecture_byte : {m : Machine} → ℕ → Ctx m → ℕ
architecture_byte {m} h c =
    get_architecture_from_memory_model (m.get_memory_model (get_process_id h c.state) c.mem).0
    % 2 ^ 8

-- The reply is the byte of a process that is open, and the shared state is as it was.
abbrev pub Answers : {m : Machine} → Ctx m → Ctx m → Type 0
Answers c d =
    (h : ℕ) × (contains_process_id_handle h c.state ≡ true)
    × (d.sent ≡ c.sent ++ architecture_byte h c ∷ [])
    × (d.state ≡ c.state)

-- A handler that ends, with one such byte more sent where its result is true, and with nothing sent
-- and nothing changed where it is false.
abbrev pub Replied : {m : Machine} → Ctx m → Outcome m Bool → Type 0
Replied c (ok true d) = Answers c d
Replied c (ok false d) = Same c d
Replied c (fault _) = ⊥

bind-Replied :
    {m : Machine} {A : Type 0} (b : Ctx m) (e : M m A) (f : A → M m Bool) (c : Ctx m)
    → Ends b (e c)
    → ((a : A) (c' : Ctx m) → Same b c' → Replied b (f a c'))
    → Replied b ((e >>= f) c)
bind-Replied {m} {A} b e f c ends k = go (e c) ends
  where
    go : (o : Outcome m A) → Ends b o → Replied b (((λ d. o) >>= f) c)
    go (ok a c') p = k a c' p
    go (fault x) p = absurd p

-- Of the connection behind the polling.
Answers-Same : {m : Machine} (b c d : Ctx m) → Same b c → Answers c d → Answers b d
Answers-Same {m} b c d (sent, (state, mem)) (h, known, reply, kept) = (
  h,
  subst (λ s. contains_process_id_handle h s ≡ true) state known,
  reply
      ∙ ap (λ r. r ++ architecture_byte h c ∷ []) sent
      ∙ ap (λ s. b.sent ++ architecture_byte h (record c { state = s }) ∷ []) state
      ∙ ap (λ x. b.sent ++ architecture_byte h (record b { mem = x }) ∷ []) mem,
  kept ∙ state,
)

send_architecture-Answers :
    {m : Machine} (handle : ℕ) (c : Ctx m)
    → contains_process_id_handle handle c.state ≡ true
    → Replied c (send_architecture handle c)
unfolding send_architecture send_word send le_bytes
send_architecture-Answers handle c known = (handle, known, refl, refl)

-- What follows the polling.
abbrev pub after_poll : {m : Machine} → ℕ → M m Bool
after_poll {m} polled = do
  legacy ← would_block
  legacy_handle ← asks (get_process_handle_legacy_ce m.first)
  let handle = if legacy then legacy_handle else polled
  known ← asks (contains_process_id_handle handle)
  if not known then pure false else send_architecture handle

known-Replied :
    {m : Machine} (handle : ℕ) (known : Bool) (c : Ctx m)
    → contains_process_id_handle handle c.state ≡ known
    → Replied c ((if not known then pure false else send_architecture handle) c)
known-Replied handle true c e = send_architecture-Answers handle c e
known-Replied handle false c e = (refl, (refl, refl))

Replied-Same :
    {m : Machine} (b c : Ctx m) (o : Outcome m Bool) → Same b c → Replied c o → Replied b o
Replied-Same b c (ok true d) same r = Answers-Same b c d same r
Replied-Same b c (ok false d) (sent, (state, mem)) (sent', (state', mem')) =
    (sent' ∙ sent, (state' ∙ state, mem' ∙ mem))
Replied-Same b c (fault x) same r = r

after_poll-Replied : {m : Machine} (polled : ℕ) (c : Ctx m) → Replied c (after_poll polled c)
after_poll-Replied {m} polled c =
    let handle =
      if m.last_error c.world == m.ewouldblock
      then get_process_handle_legacy_ce m.first c.state
      else polled in
    known-Replied handle (contains_process_id_handle handle c.state) c refl

-- The handler of a request for the architecture ends on every connection, whatever is delivered and
-- when, and without a fault. Where it keeps the connection open, it has sent one byte: the architecture
-- for the memory model of the process that some open handle stands for. Where it closes the connection,
-- it has sent nothing and left the device alone. The shared state is as it was. The clock does not go
-- back, and a sleep lasts as long as asked.
pub get_architecture-Replied :
    {m : Machine} (clock : ClockLaws m) (c : Ctx m) → Replied c (handle_command_get_architecture c)
unfolding handle_command_get_architecture
get_architecture-Replied {m} clock c =
    let (now, w) = m.now c.world in
    let d : Ctx m = record c { world = w } in
    bind-Replied d (poll_handle poll_rounds (now + 1000) (le_bytes 4 minus_one)) after_poll d
      (poll_handle-Ends clock 10 (now + 1000) (le_bytes 4 minus_one) d
        (omega (arith, clock.now_lem c.world, clock.time-now c.world)))
      (λ polled e same. Replied-Same d e (after_poll polled e) same (after_poll-Replied polled e))
