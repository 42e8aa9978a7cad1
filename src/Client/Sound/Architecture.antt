-- ===== src/Client/Sound/Architecture.antt =====
-- The handler of CMD_GETARCHITECTURE, and the dispatcher.
use ceserver_pcileech.Prelude.{ℕ, zero, suc, List, Bool-cases, inl, inr, leb, take}
use ceserver_pcileech.ClientState.{ClientState}
use ceserver_pcileech.Machine.{Machine}
use ceserver_pcileech.Client.Monad.{Ctx, overlay}
use ceserver_pcileech.Client.Process.{
  poll_handle, get_timeout, would_block, send_architecture, handle_command_get_architecture,
  is_positive,
}
use ceserver_pcileech.Client.Sound.{Sound, Ends, Texts, Leads, Anything}
use ceserver_pcileech.Client.Sound.Steps.{leads_rules}

module _ {m : Machine} (IsText : List ℕ → Type 0) (s : ClientState) where
  -- The loop that polls changes the connection and the clock only.
  Ends-poll :
      {n : ℕ} (fuel timeout : ℕ) (handle : List ℕ) (c : Ctx m)
      → Sound IsText s n c
      → Ends {m = m} IsText s n Anything (poll_handle fuel timeout handle c)
  unfolding poll_handle
  Ends-poll zero timeout handle c i = tt
  Ends-poll {n} (suc fuel) timeout handle c i =
      let (polled, w) = m.recv_non_blocking c.world 4 in
      let (time, w') = m.now w in
      let handle' = overlay (take 4 polled.written) handle in
      let rest =
        Ends-poll {n = n} fuel timeout handle' (record c { world = m.sleep w' 100 })
          (record { sent = i.sent; names = i.names; called = i.called }) in
      elim (Bool-cases (is_positive polled.count)) [
        | inl e ↦ rw e (tt, record { sent = i.sent; names = i.names; called = i.called })
        | inr e ↦ elim (Bool-cases (leb timeout time)) [
          | inl e' ↦ rw (e, e') (tt, record { sent = i.sent; names = i.names; called = i.called })
          | inr e' ↦ rw (e, e') rest
        ]
      ]

module _ {m : Machine} {IsText : List ℕ → Type 0} (texts : Texts IsText) {s : ClientState} where
  poll_handle-Leads :
      {n : ℕ} (fuel timeout : ℕ) (handle : List ℕ)
      → Leads {m = m} IsText s n n Anything (poll_handle fuel timeout handle)
  poll_handle-Leads fuel timeout handle = record {
    at = λ c i. Ends-poll IsText s fuel timeout handle c i;
  }

  timeout-Leads : {n : ℕ} → Leads {m = m} IsText s n n Anything get_timeout
  timeout-Leads = record {
    at = λ c i. (tt, record { sent = i.sent; names = i.names; called = i.called });
  }

  would_block-Leads : {n : ℕ} → Leads {m = m} IsText s n n Anything would_block
  would_block-Leads = record {
    at = λ c i. (tt, record { sent = i.sent; names = i.names; called = i.called });
  }

  send_architecture-Leads :
      {n : ℕ} (h : ℕ) → Leads {m = m} IsText s n n Anything (send_architecture h)
  unfolding send_architecture
  send_architecture-Leads h = search leads_rules depth 7

  pub architecture-Leads :
      {n : ℕ} → Leads {m = m} IsText s n n Anything handle_command_get_architecture
  unfolding handle_command_get_architecture
  architecture-Leads =
      search
        (leads_rules, poll_handle-Leads, timeout-Leads, would_block-Leads, send_architecture-Leads)
        depth 9
