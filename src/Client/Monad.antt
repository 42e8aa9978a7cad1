-- ===== src/Client/Monad.antt =====
-- The state of a handler, and the private `read` and `send` of class Client.
use ceserver_pcileech.Prelude.{
  ℕ, ◌^◌, List, [], ◌∷◌, ◌++◌, Bool, true, false, Option, none, some, if◌then◌else◌, length, take,
  drop, leb, ◌==◌,
}
use ceserver_pcileech.Prelude.Bytes.{le_bytes, of_le}
use ceserver_pcileech.ClientState.{ClientState}
use ceserver_pcileech.Machine.{Machine, Received, failed, got}

-- `sent` is all that the handler has handed to the socket, in order.
pub record Ctx (m : Machine) : Type 0 where
  pub state : ClientState
  pub connection_name : List ℕ
  pub world : m.World
  pub mem : m.Mem
  pub sent : List ℕ

-- Why a computation has no result: an exception that nothing catches, an access outside an array, a
-- text with no zero in its array, a call of the device that does not return, or (in the model only) a loop that has used up its fuel.
pub data Fault : Type 0 where
  bad_array_new_length out_of_bounds unterminated never_returns out_of_fuel : Fault

pub data Outcome (m : Machine) (A : Type 0) : Type 0 where
  ok : A → Ctx m → Outcome m A
  fault : Fault → Outcome m A

abbrev pub M : Machine → Type 0 → Type 0
M m A = Ctx m → Outcome m A

infixl 5 ◌>>=◌ ◌>>◌
abbrev pub ◌>>=◌ : {m : Machine} {A B : Type 0} → M m A → (A → M m B) → M m B
◌>>=◌ e f c = elim (e c) [ ok a c' ↦ f a c' | fault x ↦ fault x ]

abbrev pub ◌>>◌ : {m : Machine} {A B : Type 0} → M m A → M m B → M m B
e >> k = e >>= λ _. k

module _ {m : Machine} where
  abbrev pub pure : {A : Type 0} → A → M m A
  pure a c = ok a c

  abbrev pub raise : {A : Type 0} → Fault → M m A
  raise x c = fault x

  abbrev pub when : Bool → M m (Unit {0}) → M m (Unit {0})
  when true e = e
  when false e = pure tt

  -- A method of ClientState that only looks.
  abbrev pub asks : {A : Type 0} → (ClientState → A) → M m A
  asks f c = ok (f c.state) c

  -- One that changes the state, with and without a result.
  abbrev pub updates : {A : Type 0} → (ClientState → A × ClientState) → M m A
  updates f c = let (a, s) = f c.state in ok a (record c { state = s })

  abbrev pub modifies : (ClientState → ClientState) → M m (Unit {0})
  modifies f c = ok tt (record c { state = f c.state })

  -- A call of the memory device.
  abbrev pub calls : {A : Type 0} → (m.Mem → A × m.Mem) → M m A
  calls f c = let (a, d) = f c.mem in ok a (record c { mem = d })

  -- One that may not return.
  abbrev pub waits : {A : Type 0} → (m.Mem → Option (A × m.Mem)) → M m A
  waits f c = elim (f c.mem) [
    | some (a, d) ↦ ok a (record c { mem = d })
    | none ↦ fault never_returns
  ]

-- The bytes that a `recv` put into the buffer, which holds `n`.
abbrev pub received : ℕ → Received → List ℕ
received n failed = []
received n (got bs) = take n bs

-- A connection after one `recv` of `n` bytes.
abbrev pub after_recv : {m : Machine} → ℕ → Ctx m → Ctx m
after_recv {m} n c = record c { world = (m.recv c.world n).1 }

-- `read<T>()` for a T of `n` bytes: the bytes are received over a value that is all zero, so those
-- that do not come are zero. The count is dropped.
unfoldable pub read_word : {m : Machine} → ℕ → M m ℕ
read_word {m} n c = ok (of_le (received n (m.recv c.world n).0)) (after_recv n c)

-- An array after the first bytes of it were overwritten.
abbrev pub overlay : List ℕ → List ℕ → List ℕ
overlay written old = written ++ drop (length written) old

-- `read(buffer, size)` into a new array of `capacity` bytes; the result is what the array holds.
unfoldable pub read_into : {m : Machine} → ℕ → ℕ → M m (List ℕ)
read_into {m} capacity size c =
    let bs = received size (m.recv c.world size).0 in
    if leb (length bs) capacity
    then ok (overlay bs (take capacity (m.junk capacity))) (after_recv size c)
    else fault out_of_bounds

-- `send(buffer, size)`; the count is dropped by every caller.
unfoldable pub send : {m : Machine} → List ℕ → M m (Unit {0})
send {m} bs c = ok tt (record c { world = m.send c.world bs; sent = c.sent ++ bs })

-- `send<T>(v)` for a T of `n` bytes.
unfoldable pub send_word : {m : Machine} → ℕ → ℕ → M m (Unit {0})
unfolding send
send_word n v = send (le_bytes n v)

-- `new char[size]` for a `size` of type int: a negative size is an exception.
unfoldable pub new_array : {m : Machine} → ℕ → M m (Unit {0})
new_array size = if leb (2 ^ 31) size then raise bad_array_new_length else pure tt

-- The text that begins at the start of an array, up to its first zero, if it has one.
unfoldable pub until_nul : List ℕ → Option (List ℕ)
until_nul [] = none
until_nul (b ∷ bs) =
    let rest = until_nul bs in
    if b == 0 then some [] else elim rest [ none ↦ none | some t ↦ some (b ∷ t) ]

abbrev pub or_raise : {m : Machine} {A : Type 0} → Option A → Fault → M m A
or_raise none x = raise x
or_raise (some a) x = pure a

-- A `for` over a vector.
unfoldable pub for_each :
    {m : Machine} {A : Type 0} → List A → (A → M m (Unit {0})) → M m (Unit {0})
for_each [] f = pure tt
for_each (x ∷ xs) f = f x >> for_each xs f
