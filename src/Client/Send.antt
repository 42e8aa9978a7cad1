-- ===== src/Client/Send.antt =====
-- The replies that Client.cpp composes from the structs of Commands.h.
use ceserver_pcileech.Prelude.{
  ℕ, ◌%◌, ◌^◌, List, [], Bool, true, false, Option, none, some, if◌then◌else◌, length, not,
}
use ceserver_pcileech.Memory.Region.{MemoryRegion}
use ceserver_pcileech.ClientState.{sign_extend}
use ceserver_pcileech.Commands.Layout.{
  CeProcessEntry, CeModuleEntry, CeVirtualQueryExOutput, CeRegionInfo, process_entry_bytes,
  module_entry_bytes, query_output_bytes, region_info_bytes,
}
use ceserver_pcileech.Machine.{Machine}
use ceserver_pcileech.Client.Monad.{M, ◌>>◌, when, send, send_word}
use ceserver_pcileech.Client.Protection.{vad_protection_to_win32_protection, vad_type_to_win32_type}

abbrev is_empty : List ℕ → Bool
is_empty [] = true
is_empty _ = false

abbrev pub flag : Bool → ℕ
flag b = if b then 1 else 0

-- `entry.pid = processID` and the like keep the 32 bits of an `int`.
abbrev pub process_entry : Bool → ℕ → List ℕ → CeProcessEntry
process_entry has_next process_id name = record {
  result = flag has_next;
  pid = process_id;
  processnamesize = length name % 2 ^ 32;
}

unfoldable pub send_process32_entry : {m : Machine} → Bool → ℕ → List ℕ → M m (Unit {0})
unfolding send
send_process32_entry has_next process_id name = do
  send (process_entry_bytes (process_entry has_next process_id name))
  when (not (is_empty name)) (send name)

abbrev pub module_entry : Bool → ℕ → ℕ → ℕ → List ℕ → CeModuleEntry
module_entry has_next module_base module_part memory_region_size name = record {
  result = flag has_next;
  modulebase = module_base;
  modulepart = module_part;
  modulesize = memory_region_size;
  modulenamesize = length name % 2 ^ 32;
}

-- The file offset is an argument that the struct has no field for.
unfoldable pub send_module32_entry : {m : Machine} → Bool → ℕ → ℕ → ℕ → ℕ → List ℕ → M m (Unit {0})
unfolding send
send_module32_entry has_next module_base module_part memory_region_size file_offset name = do
  send (module_entry_bytes (module_entry has_next module_base module_part memory_region_size name))
  when (not (is_empty name)) (send name)

unfoldable pub send_thread32_entry : {m : Machine} → ℕ → M m (Unit {0})
unfolding send_word
send_thread32_entry thread_id = send_word 4 thread_id

-- The regions's entry, as four of the handlers send it.
unfoldable pub send_module_region : {m : Machine} → MemoryRegion → M m (Unit {0})
unfolding send_module32_entry
send_module_region r =
    send_module32_entry true r.start_addr r.part r.region_size r.file_offset r.name

-- The answer to a region query; a null pointer is `none`. `regionSize` is an `int`, which is
-- sign-extended into the 64 bits of the field `size`.
abbrev pub query_output : List ℕ → Option MemoryRegion → CeVirtualQueryExOutput
query_output past_end none = record {
  result = 0;
  protection = 0;
  type = 0;
  baseaddress = 0;
  size = 0;
}
query_output past_end (some r) = record {
  result = 1;
  protection = vad_protection_to_win32_protection past_end r.vad_entry;
  type = vad_type_to_win32_type r.vad_entry;
  baseaddress = r.start_addr;
  size = sign_extend r.region_size;
}

unfoldable pub send_virtual_query_ex_result : {m : Machine} → Option MemoryRegion → M m (Unit {0})
unfolding send
send_virtual_query_ex_result {m} region = send (query_output_bytes (query_output m.past_end region))

abbrev pub region_info : List ℕ → MemoryRegion → CeRegionInfo
region_info past_end r = record {
  baseaddress = r.start_addr;
  size = sign_extend r.region_size;
  protection = vad_protection_to_win32_protection past_end r.vad_entry;
  type = vad_type_to_win32_type r.vad_entry;
}

unfoldable pub send_virtual_query_ex_full_result : {m : Machine} → MemoryRegion → M m (Unit {0})
unfolding send
send_virtual_query_ex_full_result {m} region =
    send (region_info_bytes (region_info m.past_end region))
