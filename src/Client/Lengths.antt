-- ===== src/Client/Lengths.antt =====
-- Requests whose length is negative as an `int`: `new char[size]` throws.
use ceserver_pcileech.Prelude.{ℕ, ◌≤◌, ◌<◌, ◌^◌, ◌≡◌, refl, ◌∙◌, List, ◌++◌, arith, append_assoc}
use ceserver_pcileech.Prelude.Bytes.{le_bytes}
use ceserver_pcileech.Commands.{Command, command_code, writeprocessmemory, getsymbollistfromfile}
use ceserver_pcileech.Commands.Codes.{command_of-command_code}
use ceserver_pcileech.Machine.{Machine, NetLaws}
use ceserver_pcileech.Client.Monad.{Ctx, fault, new_array, bad_array_new_length}
use ceserver_pcileech.Client.Facts.{Facts, facts}
use ceserver_pcileech.Client.Faulting.{bind-stops, read-fault}
use ceserver_pcileech.Client.Process.{
  handle_command_write_process_memory, handle_command_get_symbol_list_from_file,
}
use ceserver_pcileech.Client.Dispatch.{dispatch_named, dispatch_command}

-- The start of a request up to its length: a write with its handle and address, and a list of
-- symbols.
pub data Lengthy : Type 0 where
  writes : ℕ → ℕ → ℕ → Lengthy
  lists_symbols : ℕ → Lengthy

abbrev pub lengthy_command : Lengthy → Command
lengthy_command (writes _ _ _) = writeprocessmemory
lengthy_command (lists_symbols _) = getsymbollistfromfile

abbrev pub lengthy_head : Lengthy → List ℕ
lengthy_head (writes h a n) = le_bytes 4 h ++ (le_bytes 8 a ++ le_bytes 4 n)
lengthy_head (lists_symbols n) = le_bytes 4 n

abbrev pub lengthy_size : Lengthy → ℕ
lengthy_size (writes _ _ n) = n
lengthy_size (lists_symbols n) = n

abbrev pub LengthyFits : Lengthy → Type 0
LengthyFits (writes h a n) = (h < 256 ^ 4) × (a < 256 ^ 8) × (n < 256 ^ 4)
LengthyFits (lists_symbols n) = n < 256 ^ 4

new_array-fault :
    {m : Machine} (n : ℕ) (c : Ctx m) → 2 ^ 31 ≤ n → new_array n c ≡ fault bad_array_new_length
unfolding new_array
new_array-fault n c le = ground arith

module _ {m : Machine} (laws : NetLaws m) where
  pub dispatch_named-throws :
      (r : Lengthy) (rest : List ℕ) (c : Ctx m) (s : Facts m)
      → facts laws c ≡ s
      → s.pending ≡ lengthy_head r ++ rest
      → LengthyFits r
      → 2 ^ 31 ≤ lengthy_size r
      → dispatch_named (lengthy_command r) c ≡ fault bad_array_new_length
  unfolding dispatch_named handle_command_write_process_memory
      handle_command_get_symbol_list_from_file
  dispatch_named-throws (writes h a n) rest c s p q fits le =
      read-fault laws 4 h _ _ c s bad_array_new_length p
        (q ∙ append_assoc (le_bytes 4 h) (le_bytes 8 a ++ le_bytes 4 n) rest) fits.0
        λ c1 p1.
          read-fault laws 8 a _ _ c1 _ bad_array_new_length p1
            (append_assoc (le_bytes 8 a) (le_bytes 4 n) rest) fits.1
            λ c2 p2.
              read-fault laws 4 n rest _ c2 _ bad_array_new_length p2 refl fits.2 λ c3 p3.
                bind-stops (new_array n) _ c3 bad_array_new_length (new_array-fault n c3 le)
  dispatch_named-throws (lists_symbols n) rest c s p q fits le =
      bind-stops handle_command_get_symbol_list_from_file _ c bad_array_new_length (
        read-fault laws 4 n rest _ c s bad_array_new_length p q fits
          λ c' p'. bind-stops (new_array n) _ c' bad_array_new_length (new_array-fault n c' le))

  pub dispatch_command-throws :
      (r : Lengthy) (rest : List ℕ) (c : Ctx m) (s : Facts m)
      → facts laws c ≡ s
      → s.pending ≡ lengthy_head r ++ rest
      → LengthyFits r
      → 2 ^ 31 ≤ lengthy_size r
      → dispatch_command (command_code (lengthy_command r)) c ≡ fault bad_array_new_length
  unfolding dispatch_command
  dispatch_command-throws r rest c s p q fits le =
      rw (command_of-command_code (lengthy_command r), dispatch_command)
        (dispatch_named-throws r rest c s p q fits le)
