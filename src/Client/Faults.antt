-- ===== src/Client/Faults.antt =====
-- CMD_SET_CONNECTION_NAME with a name that is too long.
use ceserver_pcileech.Prelude.{
  ℕ, ◌-◌, ◌^◌, ◌≡◌, refl, List, ◌++◌, arith, if◌then◌else◌, length, take, leb, ltb, Bool-cases, inl,
  inr, ◌⊎◌,
}
use ceserver_pcileech.Prelude.Bytes.{le_bytes}
use ceserver_pcileech.Machine.{Machine, NetLaws}
use ceserver_pcileech.Client.Monad.{
  M, Ctx, ok, fault, ◌>>=◌, ◌>>◌, out_of_bounds, read_into, overlay, received, after_recv, pure,
  raise, or_raise, until_nul, unterminated,
}
use ceserver_pcileech.Client.Facts.{facts}
use ceserver_pcileech.Client.Faulting.{bind-fault, bind-stops, read-fault}
use ceserver_pcileech.Client.Snapshots.{handle_command_set_connection_name, terminated, set_name}

-- What follows the length of a name of 2 ^ 32 - 1 bytes.
abbrev after_length : {m : Machine} → M m (Unit {0})
after_length = do
  name ← read_into 0 (2 ^ 32 - 1)
  if ltb (2 ^ 32 - 1) 0 then pure tt else raise out_of_bounds
  name ← or_raise (until_nul (terminated (2 ^ 32 - 1) name)) unterminated
  set_name name

-- Reading into an array ends with a result or outside the array.
read_into-cases :
    {m : Machine} (capacity n : ℕ) (c : Ctx m)
    → ((bs : List ℕ) × (c' : Ctx m) × (read_into capacity n c ≡ ok bs c'))
      ⊎ (read_into capacity n c ≡ fault out_of_bounds)
unfolding read_into
read_into-cases {m} capacity n c =
    elim (Bool-cases (leb (length (received n (m.recv c.world n).0)) capacity)) [
      | inl e ↦ inl (
        overlay (received n (m.recv c.world n).0) (take capacity (m.junk capacity)),
        after_recv n c,
        rw e refl,
      )
      | inr e ↦ inr (rw e refl)
    ]

after_length_lem : {m : Machine} (c : Ctx m) → after_length c ≡ fault out_of_bounds
after_length_lem c = elim (read_into-cases 0 (2 ^ 32 - 1) c) [
  | inl (bs, c', e) ↦ bind-fault (read_into 0 (2 ^ 32 - 1)) _ c c' bs out_of_bounds e refl
  | inr e ↦ bind-stops (read_into 0 (2 ^ 32 - 1)) _ c out_of_bounds e
]

module _ {m : Machine} (laws : NetLaws m) (rest : List ℕ) (c : Ctx m) where
  -- Where the next four bytes are the length 2 ^ 32 - 1 of a name, the addition of the byte for
  -- the zero wraps to an array of no bytes, and the handler ends with an access outside it,
  -- whatever of the name arrives.
  pub set_connection_name-out_of_bounds :
      laws.pending c.world ≡ le_bytes 4 (2 ^ 32 - 1) ++ rest
      → handle_command_set_connection_name c ≡ fault out_of_bounds
  unfolding handle_command_set_connection_name
  set_connection_name-out_of_bounds q =
      read-fault laws 4 (2 ^ 32 - 1) rest _ c (facts laws c) out_of_bounds refl q (omega arith)
        λ c' p. after_length_lem c'
