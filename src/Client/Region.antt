-- ===== src/Client/Region.antt =====
-- The handlers of Client.cpp that describe the regions of a process.
use ceserver_pcileech.Prelude.{
  ℕ, List, [], ◌∷◌, Bool, true, false, ◌&&◌, Option, none, some, not, if◌then◌else◌, length, take,
  leb, min,
}
use ceserver_pcileech.Memory.Region.{MemoryRegion}
use ceserver_pcileech.ClientState.{contains_process_id_handle, get_process_id}
use ceserver_pcileech.Machine.{Machine}
use ceserver_pcileech.Client.Monad.{
  M, ◌>>=◌, ◌>>◌, pure, asks, calls, when, read_word, send, send_word, for_each,
}
use ceserver_pcileech.Client.Send.{send_virtual_query_ex_result, send_virtual_query_ex_full_result}

-- `vaStart <= address && address <= vaEnd`
abbrev pub covers : ℕ → MemoryRegion → Bool
covers address r = leb r.vad_entry.va_start address && leb address r.vad_entry.va_end

-- The loop for the first region that covers the address.
unfoldable pub find_region : ℕ → List MemoryRegion → Option MemoryRegion
find_region address [] = none
find_region address (r ∷ rs) = if covers address r then some r else find_region address rs

-- `name.substr(0, std::min(127, name.size()))`, empty without a region.
unfoldable pub truncated_name : Option MemoryRegion → List ℕ
truncated_name none = []
truncated_name (some r) = take (min 127 (length r.name)) r.name

module _ {m : Machine} where
  unfoldable pub send_name : Option MemoryRegion → M m (Unit {0})
  unfolding truncated_name
  send_name region = do
    send_word 1 (length (truncated_name region))
    when (not (leb (length (truncated_name region)) 0)) (send (truncated_name region))

  unfoldable pub query_region : Bool → ℕ → ℕ → M m Bool
  unfolding find_region
  query_region with_name handle address = do
    pid ← asks (get_process_id handle)
    regions ← calls (m.get_module_snapshot pid)
    send_virtual_query_ex_result (find_region address regions)
    when with_name (send_name (find_region address regions))
    pure true

  -- `with_name` says that the command is CMD_GETREGIONINFO and not CMD_VIRTUALQUERYEX.
  unfoldable pub handle_command_get_region_info : Bool → M m Bool
  unfolding query_region
  handle_command_get_region_info with_name = do
    handle ← read_word 4
    address ← read_word 8
    known ← asks (contains_process_id_handle handle)
    if not known
        then pure false
        else if leb address 0
        then send_virtual_query_ex_result none >> pure true
        else query_region with_name handle address

  unfoldable pub send_regions : ℕ → M m Bool
  send_regions handle = do
    pid ← asks (get_process_id handle)
    regions ← calls (m.get_module_snapshot pid)
    send_word 4 (length regions)
    for_each regions send_virtual_query_ex_full_result
    pure true

  -- The flags are read and not used.
  unfoldable pub handle_command_virtual_query_ex_full : M m Bool
  unfolding send_regions
  handle_command_virtual_query_ex_full = do
    handle ← read_word 4
    flags ← read_word 1
    known ← asks (contains_process_id_handle handle)
    if not known then pure false else send_regions handle
