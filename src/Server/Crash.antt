-- ===== src/Server/Crash.antt =====
-- Requests that end the program: what a handler throws is caught nowhere, and an exception that
-- leaves the function of a thread ends the process.
use ceserver_pcileech.Prelude.{ℕ, ◌≤◌, ◌^◌, ◌≡◌, refl, List, [], ◌∷◌, ◌++◌, Bool, false}
use ceserver_pcileech.Commands.{command_code}
use ceserver_pcileech.Machine.{Machine, NetLaws}
use ceserver_pcileech.Client.Monad.{Ctx, bad_array_new_length, after_recv}
use ceserver_pcileech.Client.Facts.{facts, after_recv-facts}
use ceserver_pcileech.Client.Lengths.{
  Lengthy, lengthy_command, lengthy_head, lengthy_size, LengthyFits, dispatch_command-throws,
}
use ceserver_pcileech.Server.{crashed, handle_client_connection}

module _ {m : Machine} (laws : NetLaws m) where
  -- A client needs no handle to end the server: where the next bytes are the start of a write or of a
  -- request for symbols with a length of 2 ^ 31 or more, the handler throws bad_array_new_length, and
  -- nothing in the loop of the connection catches it.
  pub handle_client_connection-throws :
      (r : Lengthy) (rest : List ℕ) (stops : List Bool) (c : Ctx m)
      → laws.pending c.world ≡ command_code (lengthy_command r) ∷ (lengthy_head r ++ rest)
      → LengthyFits r
      → 2 ^ 31 ≤ lengthy_size r
      → handle_client_connection (false ∷ stops) c ≡ crashed bad_array_new_length
  unfolding handle_client_connection
  handle_client_connection-throws r rest stops c q fits le =
      let code = command_code (lengthy_command r) in
      let behind = lengthy_head r ++ rest in
      let (byte, p) = after_recv-facts laws 1 (code ∷ []) behind c refl q in
      rw (
        byte,
        dispatch_command-throws laws r rest (after_recv 1 c)
            (record (facts laws c) { pending = behind }) p refl fits le,
      )
