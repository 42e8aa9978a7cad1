-- ===== src/Client/Blocking.antt =====
-- A read of memory that the device does not answer.
use ceserver_pcileech.Prelude.{
  ℕ, ◌<◌, ◌^◌, ◌≡◌, refl, ap, ◌∙◌, List, ◌++◌, Bool, true, false, not, none, arith, append_assoc,
  leb, if◌then◌else◌,
}
use ceserver_pcileech.Prelude.Bytes.{le_bytes}
use ceserver_pcileech.ClientState.{contains_process_id_handle, get_process_id}
use ceserver_pcileech.Machine.{Machine, NetLaws}
use ceserver_pcileech.Client.Monad.{
  M, Ctx, fault, never_returns, ◌>>=◌, ◌>>◌, pure, asks, waits, send_word,
}
use ceserver_pcileech.Client.Facts.{Facts, facts}
use ceserver_pcileech.Client.Faulting.{bind-fault, bind-stops, read-fault}
use ceserver_pcileech.Client.Process.{
  read_memory, handle_command_read_process_memory, send_memory_contents,
}
use ceserver_pcileech.Client.Spec.{payload, reads_memory}

module _ {m : Machine} (h a n : ℕ) (s : Facts m) where
  -- The device does not answer a read for the process of the handle.
  abbrev pub NoAnswer : Type 0
  NoAnswer = m.read (get_process_id h s.state) a n s.mem ≡ none

  -- What follows the steps of the handler, as it stands in its blocks.
  abbrev sends : ℕ × List ℕ → M m Bool
  sends read = send_memory_contents n read.0 read.1

  abbrev awaits : ℕ → M m Bool
  awaits pid = waits (m.read pid a n) >>= sends

  abbrev guarded : Bool → M m Bool
  guarded known =
      if not known
      then pure false
      else if leb a 0
      then send_word 4 0 >> pure true
      else if leb n 0
      then send_word 4 0 >> pure true
      else read_memory h a n

  read_memory-never_returns :
      (c : Ctx m)
      → c.state ≡ s.state
      → c.mem ≡ s.mem
      → NoAnswer
      → read_memory h a n c ≡ fault never_returns
  unfolding read_memory
  read_memory-never_returns c p q e =
      bind-fault (asks (get_process_id h)) awaits c c (get_process_id h c.state) never_returns refl
        (bind-stops (waits (m.read (get_process_id h c.state) a n)) sends c never_returns
          (rw (p, q, e, waits) refl))

  guards-never_returns :
      (c : Ctx m)
      → c.state ≡ s.state
      → c.mem ≡ s.mem
      → contains_process_id_handle h s.state ≡ true
      → 0 < a
      → 0 < n
      → NoAnswer
      → guarded (contains_process_id_handle h c.state) c ≡ fault never_returns
  guards-never_returns c p q known some_a some_n e =
      let known' : contains_process_id_handle h c.state ≡ true =
        ap (contains_process_id_handle h) p ∙ known in
      let test_a : leb a 0 ≡ false = ground arith in
      let test_n : leb n 0 ≡ false = ground arith in
      rw (known', test_a, test_n) (read_memory-never_returns c p q e)

module _ {m : Machine} (laws : NetLaws m) (h a n : ℕ) (rest : List ℕ) where
  -- A request to read for a known handle waits as long as the device does.
  pub read_process_memory-never_returns :
      (c : Ctx m) (s : Facts m)
      → facts laws c ≡ s
      → s.pending ≡ payload (reads_memory h a n 0) ++ rest
      → (h < 256 ^ 4) × (a < 256 ^ 8) × (n < 256 ^ 4)
      → contains_process_id_handle h s.state ≡ true
      → 0 < a
      → 0 < n
      → NoAnswer h a n s
      → handle_command_read_process_memory c ≡ fault never_returns
  unfolding handle_command_read_process_memory
  read_process_memory-never_returns c s p q fits known some_a some_n e =
      read-fault laws 4 h _ _ c s never_returns p (q ∙ append_assoc (le_bytes 4 h) _ rest) fits.0
        λ c1 p1.
          read-fault laws 8 a _ _ c1 _ never_returns p1 (append_assoc (le_bytes 8 a) _ rest) fits.1
            λ c2 p2.
              read-fault laws 4 n _ _ c2 _ never_returns p2 (append_assoc (le_bytes 4 n) _ rest)
                fits.2
                λ c3 p3.
                  read-fault laws 1 0 rest _ c3 _ never_returns p3 refl (omega arith) λ c4 p4.
                    bind-fault (asks (contains_process_id_handle h)) (guarded h a n s) c4 c4
                      (contains_process_id_handle h c4.state) never_returns refl
                      (guards-never_returns h a n s c4 (ap (λ t. t.state) p4) (ap (λ t. t.mem) p4)
                        known some_a some_n e)
