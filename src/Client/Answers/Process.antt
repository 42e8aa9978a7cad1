-- ===== src/Client/Answers/Process.antt =====
-- The handlers of CMD_OPENPROCESS and CMD_GETSYMBOLLISTFROMFILE answer as the specification says, and
-- what fills an array.
use ceserver_pcileech.Prelude.{
  ℕ, ◌<◌, ◌^◌, ◌≡◌, refl, ap, List, ◌++◌, true, arith, ◌∙◌, append-nil, length, take, drop_all,
  length-take, inl, inr, Option-cases,
}
use ceserver_pcileech.Prelude.Bytes.{le_bytes}
use ceserver_pcileech.Prelude.Maps.{is_some}
use ceserver_pcileech.ClientState.{store_open_process}
use ceserver_pcileech.Machine.{Machine, NetLaws}
use ceserver_pcileech.Client.Monad.{
  Ctx, ◌>>◌, updates, send_word, new_array, read_into, until_nul, or_raise, overlay, unterminated,
}
use ceserver_pcileech.Client.Facts.{
  Facts, facts, Does, bind-Does, updates-Does, send_word-Does, read_into-Does,
}
use ceserver_pcileech.Client.Facts.Blocks.{read-Does, then-Does}
use ceserver_pcileech.Client.Process.{
  handle_command_open_process, handle_command_get_symbol_list_from_file,
}
use ceserver_pcileech.Client.Spec.{answer, opens_process, asks_symbols}

module _ {m : Machine} (laws : NetLaws m) where
  -- A new array that the peer has filled holds what the peer sent.
  pub read_all-Does :
      (n : ℕ) (bs rest : List ℕ) (c : Ctx m) (s : Facts m)
      → facts laws c ≡ s
      → s.pending ≡ bs ++ rest
      → length bs ≡ n
      → Does laws (read_into n n) c bs (record s { pending = rest })
  read_all-Does n bs rest c s p q len =
      rw (← filled) (read_into-Does laws n n bs rest c s p q len (omega arith))
    where
      filled : overlay bs (take n (m.junk n)) ≡ bs
      filled =
          ap (λ r. bs ++ r)
            (drop_all (length bs) (take n (m.junk n)) (omega (arith, length-take n (m.junk n))))
          ∙ append-nil bs

  pub new_array-Does :
      (n : ℕ) (c : Ctx m) (s : Facts m)
      → facts laws c ≡ s
      → n < 2 ^ 31
      → Does laws (new_array n) c tt s
  unfolding new_array
  new_array-Does n c s p fits = (c, ground arith, p)

  module _ (rest : List ℕ) (c : Ctx m) (s : Facts m) (p : facts laws c ≡ s) where
    pub open_process-Does :
        (pid : ℕ)
        → s.pending ≡ le_bytes 4 pid ++ rest
        → pid < 256 ^ 4
        → Does laws handle_command_open_process c tt
            (answer (opens_process pid) (record s { pending = rest })).1
    unfolding handle_command_open_process
    open_process-Does pid q fits = read-Does laws 4 pid rest _ c s tt _ p q fits λ c' p'.
        bind-Does laws (updates (store_open_process pid)) (λ h. send_word 4 h) c' _ _ _ _
          (updates-Does laws (store_open_process pid) c' _ p')
          λ c'' p''. send_word-Does laws 4 _ c'' _ p''

    pub symbols-Does :
        (path : List ℕ)
        → s.pending ≡ le_bytes 4 (length path) ++ (path ++ rest)
        → (length path < 2 ^ 31) × (is_some (until_nul path) ≡ true)
        → Does laws handle_command_get_symbol_list_from_file c tt
            (answer (asks_symbols path) (record s { pending = rest })).1
    unfolding handle_command_get_symbol_list_from_file
    symbols-Does path q fits =
        read-Does laws 4 (length path) _ _ c s tt _ p q (omega (arith, fits.0)) λ c' p'.
          then-Does laws (new_array (length path)) _ c' tt _ _
            (new_array-Does (length path) c' _ p' fits.0)
            λ c'' p''.
              bind-Does laws (read_into (length path) (length path))
                (λ text. or_raise (until_nul text) unterminated >> send_word 8 0) c'' path tt _ _
                (read_all-Does (length path) path rest c'' _ p'' refl refl)
                λ d r. elim (Option-cases (until_nul path)) [
                  | inl e ↦ ground (arith, fits.1)
                  | inr (t, e) ↦ rw e (send_word-Does laws 8 0 d _ r)
                ]
