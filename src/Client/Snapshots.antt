-- ===== src/Client/Snapshots.antt =====
-- The handlers of Client.cpp that make, walk and close snapshots, and those with a fixed answer.
use ceserver_pcileech.Prelude.{
  ℕ, ◌%◌, ◌+◌, ◌^◌, suc, ◌==◌, List, [], ◌++◌, Bool, true, false, Option, none, some, if◌then◌else◌,
  length, ltb, take, drop, ◌∷◌,
}
use ceserver_pcileech.Prelude.Bytes.{codes}
use ceserver_pcileech.Memory.Region.{ProcessInfo, MemoryRegion}
use ceserver_pcileech.ClientState.{
  store_process_snapshot, store_module_snapshot, contains_process_info_handle,
  contains_memory_region_handle, reset_process_iterator, reset_module_iterator, next_process_info,
  next_memory_region, close_handle,
}
use ceserver_pcileech.Commands.Layout.{version_bytes}
use ceserver_pcileech.Machine.{Machine}
use ceserver_pcileech.Client.Monad.{
  M, ◌>>=◌, ◌>>◌, pure, raise, when, asks, updates, modifies, calls, read_word, read_into, send,
  send_word, until_nul, or_raise, for_each, out_of_bounds, unterminated, ok,
}
use ceserver_pcileech.Client.Protection.{has_bits}
use ceserver_pcileech.Client.Send.{
  send_process32_entry, send_module32_entry, send_thread32_entry, send_module_region,
}

abbrev pub th32cs_snapprocess : ℕ
th32cs_snapprocess = 0x0000_0002

abbrev pub th32cs_snapthread : ℕ
th32cs_snapthread = 0x0000_0004

abbrev pub th32cs_snapmodule : ℕ
th32cs_snapmodule = 0x0000_0008

-- The length of a text up to its first zero, and the text up to there.
unfoldable pub strlen : List ℕ → ℕ
strlen [] = 0
strlen (c ∷ text) = let rest = strlen text in if c == 0 then 0 else suc rest

abbrev pub c_str : List ℕ → List ℕ
c_str text = take (strlen text) text

module _ {m : Machine} where
  -- The handle of the snapshot that the flags ask for, 0 for other flags.
  unfoldable pub make_snapshot : ℕ → ℕ → M m ℕ
  make_snapshot flags proc_id =
      if has_bits flags th32cs_snapprocess
      then calls m.get_process_snapshot >>= (λ snapshot. updates (store_process_snapshot snapshot))
      else if has_bits flags th32cs_snapmodule
      then calls (m.get_module_snapshot proc_id)
        >>= (λ snapshot. updates (store_module_snapshot snapshot))
      else pure 0

  unfoldable pub handle_command_tool_help32_snapshot : M m (Unit {0})
  unfolding make_snapshot
  handle_command_tool_help32_snapshot = do
    flags ← read_word 4
    proc_id ← read_word 4
    handle ← make_snapshot flags proc_id
    send_word 4 handle

  unfoldable pub send_thread_list : ℕ → M m (Unit {0})
  send_thread_list proc_id = do
    snapshot ← calls (m.get_thread_snapshot proc_id)
    send_word 4 (length snapshot)
    for_each snapshot (λ thread. send_thread32_entry thread.tid)

  unfoldable pub send_module_list : ℕ → M m (Unit {0})
  send_module_list proc_id = do
    snapshot ← calls (m.get_module_snapshot proc_id)
    for_each snapshot send_module_region
    send_module32_entry false 0 0 0 0 []

  unfoldable pub send_process_snapshot : M m (Unit {0})
  send_process_snapshot = do
    snapshot ← calls m.get_process_snapshot
    handle ← updates (store_process_snapshot snapshot)
    send_word 4 handle

  unfoldable pub handle_command_tool_help32_snapshot_ex : M m (Unit {0})
  handle_command_tool_help32_snapshot_ex = do
    flags ← read_word 4
    proc_id ← read_word 4
    if has_bits flags th32cs_snapthread
        then send_thread_list proc_id
        else if has_bits flags th32cs_snapmodule
        then send_module_list proc_id
        else send_process_snapshot

  -- The name goes through a `char *`, which ends at the first zero.
  abbrev pub send_process_entry : Option ProcessInfo → M m (Unit {0})
  send_process_entry none = send_process32_entry false 0 []
  send_process_entry (some p) = send_process32_entry true p.pid (c_str p.name)

  -- The rest of the handler, for a handle that has a snapshot.
  unfoldable pub send_next_process : Bool → ℕ → M m (Unit {0})
  send_next_process from_start handle = do
    when from_start (modifies (reset_process_iterator handle))
    proc_info ← updates (next_process_info handle)
    send_process_entry proc_info

  unfoldable pub handle_command_iterate_processes_next : Bool → M m (Unit {0})
  unfolding send_next_process
  handle_command_iterate_processes_next from_start = do
    handle ← read_word 4
    known ← asks (contains_process_info_handle handle)
    if known then send_next_process from_start handle else send_process32_entry false 0 []

  abbrev pub send_module_entry : Option MemoryRegion → M m (Unit {0})
  send_module_entry none = send_module32_entry false 0 0 0 0 []
  send_module_entry (some r) = send_module_region r

  unfoldable pub send_next_module : Bool → ℕ → M m (Unit {0})
  send_next_module from_start handle = do
    when from_start (modifies (reset_module_iterator handle))
    memory_region ← updates (next_memory_region handle)
    send_module_entry memory_region

  unfoldable pub handle_command_iterate_modules_next : Bool → M m (Unit {0})
  unfolding send_next_module
  handle_command_iterate_modules_next from_start = do
    handle ← read_word 4
    known ← asks (contains_memory_region_handle handle)
    if known then send_next_module from_start handle else send_module32_entry false 0 0 0 0 []

  unfoldable pub handle_command_close_handle : M m (Unit {0})
  handle_command_close_handle = do
    handle ← read_word 4
    modifies (close_handle handle)
    send_word 4 1

abbrev pub version_string : List ℕ
version_string = codes "CHEATENGINE Network 2.3"

abbrev pub ce_server_version : ℕ
ce_server_version = 6

abbrev pub abi_windows : ℕ
abi_windows = 0

-- `name[n] = 0` in an array that is long enough.
abbrev pub terminated : ℕ → List ℕ → List ℕ
terminated n name = take n name ++ (0 ∷ drop (n + 1) name)

module _ {m : Machine} where
  unfoldable pub handle_command_get_version : M m (Unit {0})
  unfolding version_bytes
  handle_command_get_version = do
    send (
        version_bytes
          (record { version = ce_server_version; stringsize = length version_string % 2 ^ 8 }))
    send version_string

  unfoldable pub handle_command_get_abi : M m (Unit {0})
  handle_command_get_abi = send_word 1 abi_windows

  abbrev pub set_name : List ℕ → M m (Unit {0})
  set_name name c = ok tt (record c { connection_name = name })

  -- `new char[nameLength + 1]` adds in 32 bits, and the zero is stored at `name[nameLength]`.
  unfoldable pub handle_command_set_connection_name : M m (Unit {0})
  handle_command_set_connection_name = do
    name_length ← read_word 4
    let capacity = (name_length + 1) % 2 ^ 32
    name ← read_into capacity name_length
    if ltb name_length capacity then pure tt else raise out_of_bounds
    name ← or_raise (until_nul (terminated name_length name)) unterminated
    set_name name

  unfoldable pub handle_command_start_debug : M m (Unit {0})
  handle_command_start_debug = do handle ← read_word 4; send_word 4 handle

  unfoldable pub handle_command_get_options : M m (Unit {0})
  handle_command_get_options = send_word 2 0
