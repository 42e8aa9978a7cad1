-- ===== src/Client/Process.antt =====
-- The handlers of Client.cpp for an opened process: its memory and its architecture.
use ceserver_pcileech.Prelude.{
  ℕ, zero, suc, ◌+◌, List, Bool, true, false, Option, none, some, not, if◌then◌else◌, take, ltb,
  leb, ◌==◌,
}
use ceserver_pcileech.Prelude.Bytes.{le_bytes, of_le}
use ceserver_pcileech.ClientState.{
  store_open_process, contains_process_id_handle, get_process_id, get_process_handle_legacy_ce,
  minus_one,
}
use ceserver_pcileech.Machine.{Machine}
use ceserver_pcileech.Client.Monad.{
  M, ok, fault, ◌>>=◌, ◌>>◌, pure, raise, asks, updates, calls, waits, read_word, read_into, send,
  send_word, new_array, until_nul, or_raise, out_of_bounds, unterminated, out_of_fuel, overlay,
}
use ceserver_pcileech.Client.Protection.{get_architecture_from_memory_model}

abbrev pub is_positive : Option ℕ → Bool
is_positive none = false
is_positive (some n) = not (n == 0)

-- Ten sleeps of 100 ms use up the time, so the loop has at most eleven rounds.
abbrev pub poll_rounds : ℕ
poll_rounds = 11

module _ {m : Machine} where
  unfoldable pub handle_command_open_process : M m (Unit {0})
  handle_command_open_process = do
    pid ← read_word 4
    handle ← updates (store_open_process pid)
    send_word 4 handle

  -- The reply to a read that returned `count`: at most `size` bytes may be copied to the buffer and
  -- sent from it.
  unfoldable pub send_memory_contents : ℕ → ℕ → List ℕ → M m Bool
  send_memory_contents size count memory_contents =
      if leb count 0
      then send_word 4 0 >> pure true
      else if leb count size
      then send_word 4 count >> send (take count memory_contents) >> pure true
      else raise out_of_bounds

  unfoldable pub read_memory : ℕ → ℕ → ℕ → M m Bool
  unfolding send_memory_contents
  read_memory handle address size = do
    pid ← asks (get_process_id handle)
    read ← waits (m.read pid address size)
    send_memory_contents size read.0 read.1

  unfoldable pub handle_command_read_process_memory : M m Bool
  handle_command_read_process_memory = do
    handle ← read_word 4
    address ← read_word 8
    size ← read_word 4
    compress ← read_word 1
    known ← asks (contains_process_id_handle handle)
    if not (compress == 0)
        then pure false
        else if not known
        then pure false
        else if leb address 0
        then send_word 4 0 >> pure true
        else if leb size 0
        then send_word 4 0 >> pure true
        else read_memory handle address size

  -- `written` is a size_t, so the test `written < 0` is one between unsigned numbers.
  unfoldable pub write_memory : ℕ → ℕ → ℕ → List ℕ → M m Bool
  write_memory handle address size buffer = do
    pid ← asks (get_process_id handle)
    written ← calls (m.write buffer pid address size)
    if ltb written 0
        then send_word 4 0 >> pure false
        else send_word 4 written >> pure (written == size)

  unfoldable pub handle_command_write_process_memory : M m Bool
  handle_command_write_process_memory = do
    handle ← read_word 4
    address ← read_word 8
    size ← read_word 4
    new_array size
    buffer ← read_into size size
    known ← asks (contains_process_id_handle handle)
    if not known then pure false else write_memory handle address size buffer

  -- The loop that polls for the handle until a byte has come or the time is over; `handle` is the
  -- four bytes of the variable.
  unfoldable pub poll_handle : ℕ → ℕ → List ℕ → M m ℕ
  poll_handle zero timeout handle c = fault out_of_fuel
  poll_handle (suc fuel) timeout handle c =
      let (polled, w) = m.recv_non_blocking c.world 4 in
      let handle' = overlay (take 4 polled.written) handle in
      let (time, w') = m.now w in
      let rest = poll_handle fuel timeout handle' (record c { world = m.sleep w' 100 }) in
      if is_positive polled.count
      then ok (of_le handle') (record c { world = w })
      else if leb timeout time
      then ok (of_le handle') (record c { world = w' })
      else rest

  abbrev pub get_timeout : M m ℕ
  get_timeout c = let (time, w) = m.now c.world in ok (time + 1000) (record c { world = w })

  abbrev pub would_block : M m Bool
  would_block c = ok (m.last_error c.world == m.ewouldblock) c

  unfoldable pub send_architecture : ℕ → M m Bool
  send_architecture handle = do
    pid ← asks (get_process_id handle)
    memory_model ← calls (m.get_memory_model pid)
    send_word 1 (get_architecture_from_memory_model memory_model)
    pure true

  unfoldable pub handle_command_get_architecture : M m Bool
  unfolding poll_handle
  handle_command_get_architecture = do
    timeout ← get_timeout
    polled ← poll_handle poll_rounds timeout (le_bytes 4 minus_one)
    legacy ← would_block
    legacy_handle ← asks (get_process_handle_legacy_ce m.first)
    let handle = if legacy then legacy_handle else polled
    known ← asks (contains_process_id_handle handle)
    if not known then pure false else send_architecture handle

  -- The path is logged as a text, so it must have a zero in its array.
  unfoldable pub handle_command_get_symbol_list_from_file : M m (Unit {0})
  handle_command_get_symbol_list_from_file = do
    symbol_path_size ← read_word 4
    new_array symbol_path_size
    symbol_path ← read_into symbol_path_size symbol_path_size
    or_raise (until_nul symbol_path) unterminated
    send_word 8 0
