-- ===== src/Sockets/LinuxPoll.antt =====
-- CMD_GETARCHITECTURE on a socket of Linux.
use ceserver_pcileech.Prelude.{
  ℕ, zero, suc, ◌+◌, ◌-◌, ◌^◌, ◌≡◌, refl, sym, ap, ◌∙◌, List, [], Bool, true, false, not, Option,
  arith, if◌then◌else◌, leb, Bool-cases, inl, inr, ◌==◌,
}
use ceserver_pcileech.Prelude.Bytes.{le_bytes, of_le}
use ceserver_pcileech.Prelude.Maps.{Map}
use ceserver_pcileech.ClientState.{
  ClientState, contains_process_id_handle, get_process_handle_legacy_ce, minus_one,
}
use ceserver_pcileech.ClientState.Handles.{IsValid}
use ceserver_pcileech.Machine.{Machine, MemoryApi}
use ceserver_pcileech.Client.Monad.{M, Ctx, Outcome, ok, fault, ◌>>=◌, pure}
use ceserver_pcileech.Client.Monad.{send, send_word}
use ceserver_pcileech.Client.Polling.{after_poll}
use ceserver_pcileech.Client.Process.{
  poll_handle, poll_rounds, is_positive, handle_command_get_architecture, send_architecture,
}
use ceserver_pcileech.Sockets.Linux.{Posix, LinuxSocketWrapper, linux, recv_non_blocking}

-- Polling that has a result left the state alone and the variable with its four bytes.
abbrev KeepsHandle : {m : Machine} → List ℕ → ClientState → Outcome m ℕ → Type 0
KeepsHandle handle s (ok h c) = (h ≡ of_le handle) × (c.state ≡ s)
KeepsHandle handle s (fault _) = Unit

-- A handler that keeps the connection open only where `P` holds.
abbrev pub OpenOnlyIf : {m : Machine} → Type 0 → Outcome m Bool → Type 0
OpenOnlyIf P (ok true c) = P
OpenOnlyIf P (ok false c) = Unit
OpenOnlyIf P (fault _) = Unit

module _ {m : Machine} (unwritten : (w : m.World) → (m.recv_non_blocking w 4).0.written ≡ []) where
  poll_handle-KeepsHandle :
      (fuel timeout : ℕ) (handle : List ℕ) (c : Ctx m)
      → KeepsHandle handle c.state (poll_handle fuel timeout handle c)
  unfolding poll_handle
  poll_handle-KeepsHandle zero timeout handle c = tt
  poll_handle-KeepsHandle (suc fuel) timeout handle c =
      let polled = m.recv_non_blocking c.world 4 in
      let now = m.now polled.1 in
      let ih =
        poll_handle-KeepsHandle fuel timeout handle (record c { world = m.sleep now.1 100 }) in
      elim (Bool-cases (is_positive polled.0.count)) [
        | inl e ↦ rw (unwritten c.world, e) (refl, refl)
        | inr e ↦ elim (Bool-cases (leb timeout now.0)) [
          | inl e' ↦ rw (unwritten c.world, e, e') (refl, refl)
          | inr e' ↦ rw (unwritten c.world, e, e') ih
        ]
      ]

bind-OpenOnlyIf :
    {m : Machine} (P : Type 0) (handle : List ℕ) (s : ClientState) (e : M m ℕ) (f : ℕ → M m Bool)
    (c : Ctx m)
    → KeepsHandle handle s (e c)
    → ((c' : Ctx m) → c'.state ≡ s → OpenOnlyIf P (f (of_le handle) c'))
    → OpenOnlyIf P ((e >>= f) c)
bind-OpenOnlyIf {m} P handle s e f c kept k = go (e c) kept
  where
    go : (o : Outcome m ℕ) → KeepsHandle handle s o → OpenOnlyIf P (((λ d. o) >>= f) c)
    go (ok h c') (p, q) = rw p (k c' q)
    go (fault x) p = tt

if-OpenOnlyIf :
    {m : Machine} (P : Type 0) (b : Bool) (e : M m Bool) (c : Ctx m)
    → (b ≡ true → OpenOnlyIf P (e c))
    → OpenOnlyIf P ((if not b then pure false else e) c)
if-OpenOnlyIf P true e c k = k refl
if-OpenOnlyIf P false e c k = tt

sends-OpenOnlyIf :
    {m : Machine} (P : Type 0) (handle : ℕ) (c : Ctx m)
    → P
    → OpenOnlyIf P (send_architecture handle c)
unfolding send_architecture send_word send
sends-OpenOnlyIf P handle c p = p

-- The handle of an older client: the process id of the first entry of the map.
abbrev pub LegacyIsOpen : (Map ℕ → Option (ℕ × ℕ)) → ClientState → Type 0
LegacyIsOpen first s = contains_process_id_handle (get_process_handle_legacy_ce first s) s ≡ true

after_poll-OpenOnlyIf :
    {m : Machine} (polled : ℕ) (s : ClientState) (c : Ctx m)
    → contains_process_id_handle polled s ≡ false
    → c.state ≡ s
    → OpenOnlyIf (LegacyIsOpen m.first s) (after_poll polled c)
after_poll-OpenOnlyIf {m} polled s c closed same =
    let legacy = get_process_handle_legacy_ce m.first c.state in
    elim (Bool-cases (m.last_error c.world == m.ewouldblock)) [
      | inl e ↦ rw e (
          if-OpenOnlyIf (LegacyIsOpen m.first s) (contains_process_id_handle legacy c.state)
            (send_architecture legacy) c
            λ known. sends-OpenOnlyIf (LegacyIsOpen m.first s) legacy c (
              ap (λ t. contains_process_id_handle (get_process_handle_legacy_ce m.first t) t)
                (sym same)
              ∙ known))
      | inr e ↦ rw e (
          if-OpenOnlyIf (LegacyIsOpen m.first s) (contains_process_id_handle polled c.state)
            (send_architecture polled) c
            λ known.
              absurd (clash (sym (ap (contains_process_id_handle polled) same ∙ closed) ∙ known)))
    ]
  where
    clash : false ≡ true → ⊥
    clash e = cc

minus_one-closed :
    (s : ClientState)
    → IsValid s
    → contains_process_id_handle (of_le (le_bytes 4 minus_one)) s ≡ false
unfolding contains_process_id_handle le_bytes of_le
minus_one-closed s v = ground (arith, v.in_range, v.ids_below (2 ^ 32 - 1))

module _ (os : Posix) (socket : LinuxSocketWrapper) (memory : MemoryApi) where
  module _ (junk : ℕ → List ℕ) (past_end : List ℕ) (first : List (ℕ × ℕ) → Option (ℕ × ℕ)) where
    abbrev here : Machine
    here = linux os socket memory junk past_end first

    -- On Linux a request for the architecture keeps the connection open only where the process id of
    -- some opened process happens to be an open handle itself: the handle that the client sends is
    -- never read, since the wrapper receives it over its own parameter. The state is valid.
    pub get_architecture-OpenOnlyIf :
        (c : Ctx here)
        → IsValid c.state
        → OpenOnlyIf (LegacyIsOpen first c.state) (handle_command_get_architecture c)
    unfolding handle_command_get_architecture recv_non_blocking
    get_architecture-OpenOnlyIf c v =
        let (now, w) = os.now c.world in
        let d : Ctx here = record c { world = w } in
        bind-OpenOnlyIf (LegacyIsOpen first c.state) (le_bytes 4 minus_one) c.state
          (poll_handle poll_rounds (now + 1000) (le_bytes 4 minus_one)) after_poll d
          (poll_handle-KeepsHandle (λ w. refl) poll_rounds (now + 1000) (le_bytes 4 minus_one) d)
          λ c' same.
            after_poll-OpenOnlyIf (of_le (le_bytes 4 minus_one)) c.state c'
              (minus_one-closed c.state v) same
