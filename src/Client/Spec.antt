-- ===== src/Client/Spec.antt =====
-- The protocol without its bytes: the requests that a client can make, how they are written on the
-- wire, and what the server answers, as a function on the facts of the connection. A request for the
-- architecture is not among these, since its handle may be missing on the wire.
pub mod Requests
pub use ceserver_pcileech.Client.Spec.Requests.{
  Request, request_command, payload, Fits, makes_snapshot, makes_snapshot_ex, asks_process,
  asks_module, closes_handle, opens_process, starts_debug, asks_version, asks_abi, asks_options,
  closes_connection, terminates_server, sets_name, asks_symbols, reads_memory, writes_memory,
  asks_region, asks_regions,
}
use ceserver_pcileech.Prelude.{
  ℕ, ◌+◌, ◌<◌, ◌^◌, ◌%◌, ◌≡◌, List, [], ◌∷◌, ◌++◌, Bool, true, false, not, Option, none, some,
  length, take, leb, ◌==◌, if◌then◌else◌,
}
use ceserver_pcileech.Prelude.Bytes.{le_bytes}
use ceserver_pcileech.Prelude.Maps.{is_some, or_else}
use ceserver_pcileech.Memory.Region.{ProcessInfo, MemoryRegion}
use ceserver_pcileech.ClientState.{
  store_process_snapshot, store_module_snapshot, store_open_process, contains_process_info_handle,
  contains_memory_region_handle, contains_process_id_handle, reset_process_iterator,
  reset_module_iterator, next_process_info, next_memory_region, close_handle, get_process_id,
}
use ceserver_pcileech.Commands.{
  Command, getversion, closeconnection, terminateserver, openprocess, createtoolhelp32snapshot,
  process32first, process32next, closehandle, virtualqueryex, readprocessmemory, writeprocessmemory,
  startdebug, module32first, module32next, getsymbollistfromfile, virtualqueryexfull, getregioninfo,
  getabi, set_connection_name, createtoolhelp32snapshotex, getoptions,
}
use ceserver_pcileech.Commands.Layout.{
  version_bytes, process_entry_bytes, module_entry_bytes, query_output_bytes, region_info_bytes,
}
use ceserver_pcileech.Machine.{Machine}
use ceserver_pcileech.Client.Monad.{until_nul}
use ceserver_pcileech.Client.Facts.{Facts, concat_map}
use ceserver_pcileech.Client.Protection.{has_bits}
use ceserver_pcileech.Client.Send.{process_entry, module_entry, query_output, region_info}
use ceserver_pcileech.Client.Snapshots.{
  th32cs_snapprocess, th32cs_snapthread, th32cs_snapmodule, c_str, version_string,
  ce_server_version, abi_windows,
}
use ceserver_pcileech.Client.Region.{find_region, truncated_name}

module _ {m : Machine} where
  -- The facts with a reply sent.
  abbrev pub replying : List ℕ → Facts m → Facts m
  replying bs s = record s { sent = s.sent ++ bs }

  abbrev pub storing_processes : Facts m → ℕ × Facts m
  storing_processes s =
      let (snapshot, mem) = m.get_process_snapshot s.mem in
      let (h, state) = store_process_snapshot snapshot s.state in
      (h, record s { mem = mem; state = state })

  abbrev pub storing_modules : ℕ → Facts m → ℕ × Facts m
  storing_modules pid s =
      let (snapshot, mem) = m.get_module_snapshot pid s.mem in
      let (h, state) = store_module_snapshot snapshot s.state in
      (h, record s { mem = mem; state = state })

  abbrev pub making_snapshot : ℕ → ℕ → Facts m → ℕ × Facts m
  making_snapshot flags pid s =
      if has_bits flags th32cs_snapprocess
      then storing_processes s
      else if has_bits flags th32cs_snapmodule
      then storing_modules pid s
      else (0, s)

abbrev pub process_reply : Option ProcessInfo → List ℕ
process_reply none = process_entry_bytes (process_entry false 0 [])
process_reply (some p) =
    process_entry_bytes (process_entry true p.pid (c_str p.name)) ++ c_str p.name

abbrev pub region_reply : MemoryRegion → List ℕ
region_reply r =
    module_entry_bytes (module_entry true r.start_addr r.part r.region_size r.name) ++ r.name

abbrev pub end_of_modules : List ℕ
end_of_modules = module_entry_bytes (module_entry false 0 0 0 [])

abbrev pub module_reply : Option MemoryRegion → List ℕ
module_reply none = end_of_modules
module_reply (some r) = region_reply r

-- The name that a client gives to its connection ends at the first zero.
abbrev pub name_of : List ℕ → List ℕ
name_of bs = or_else (until_nul (bs ++ 0 ∷ [])) []

abbrev pub query_reply : Bool → List ℕ → Option MemoryRegion → List ℕ
query_reply with_name past_end region =
    query_output_bytes (query_output past_end region)
    ++ (if with_name
        then le_bytes 1 (length (truncated_name region)) ++ truncated_name region
        else [])

abbrev pub memory_reply : ℕ × List ℕ → List ℕ
memory_reply (count, bs) = if leb count 0 then le_bytes 4 0 else le_bytes 4 count ++ take count bs

module _ {m : Machine} where
  abbrev pub next_process_answer : Bool → ℕ → Facts m → Facts m
  next_process_answer from_start h s =
      if contains_process_info_handle h s.state
      then (let start = if from_start then reset_process_iterator h s.state else s.state in
          let (entry, state) = next_process_info h start in
          replying (process_reply entry) (record s { state = state }))
      else replying (process_reply none) s

  abbrev pub next_module_answer : Bool → ℕ → Facts m → Facts m
  next_module_answer from_start h s =
      if contains_memory_region_handle h s.state
      then (let start = if from_start then reset_module_iterator h s.state else s.state in
          let (entry, state) = next_memory_region h start in
          replying (module_reply entry) (record s { state = state }))
      else replying (module_reply none) s

  abbrev pub snapshot_ex_answer : ℕ → ℕ → Facts m → Facts m
  snapshot_ex_answer flags pid s =
      if has_bits flags th32cs_snapthread
      then (let (threads, mem) = m.get_thread_snapshot pid s.mem in
          replying (le_bytes 4 (length threads) ++ concat_map (λ t. le_bytes 4 t.tid) threads)
            (record s { mem = mem }))
      else if has_bits flags th32cs_snapmodule
      then (let (regions, mem) = m.get_module_snapshot pid s.mem in
          replying (concat_map region_reply regions ++ end_of_modules) (record s { mem = mem }))
      else (let (h, s') = storing_processes s in replying (le_bytes 4 h) s')

  -- A call that does not return has no reply.
  abbrev pub read_replied : Facts m → Option ((ℕ × List ℕ) × m.Mem) → Facts m
  read_replied s none = s
  read_replied s (some (read, mem)) = replying (memory_reply read) (record s { mem = mem })

  abbrev pub read_answer : ℕ → ℕ → ℕ → ℕ → Facts m → Bool × Facts m
  read_answer h a n z s =
      if not (z == 0)
      then (false, s)
      else if not (contains_process_id_handle h s.state)
      then (false, s)
      else if leb a 0
      then (true, replying (le_bytes 4 0) s)
      else if leb n 0
      then (true, replying (le_bytes 4 0) s)
      else (true, read_replied s (m.read (get_process_id h s.state) a n s.mem))

  abbrev pub write_answer : ℕ → ℕ → List ℕ → Facts m → Bool × Facts m
  write_answer h a bs s =
      if not (contains_process_id_handle h s.state)
      then (false, s)
      else (let (written, mem) = m.write bs (get_process_id h s.state) a (length bs) s.mem in
          (written == length bs, replying (le_bytes 4 written) (record s { mem = mem })))

  abbrev pub region_answer : Bool → ℕ → ℕ → Facts m → Bool × Facts m
  region_answer with_name h a s =
      if not (contains_process_id_handle h s.state)
      then (false, s)
      else if leb a 0
      then (true, replying (query_reply false m.past_end none) s)
      else (let (regions, mem) = m.get_module_snapshot (get_process_id h s.state) s.mem in
          (
            true,
            replying (query_reply with_name m.past_end (find_region a regions))
                (record s { mem = mem }),
          ))

  abbrev pub regions_answer : ℕ → Facts m → Bool × Facts m
  regions_answer h s =
      if not (contains_process_id_handle h s.state)
      then (false, s)
      else (let (regions, mem) = m.get_module_snapshot (get_process_id h s.state) s.mem in
          (
            true,
            replying
                (le_bytes 4 (length regions)
                  ++ concat_map (λ r. region_info_bytes (region_info m.past_end r)) regions)
                (record s { mem = mem }),
          ))

  -- The answer to a request: whether the connection stays open, and the facts behind it.
  abbrev pub answer : Request → Facts m → Bool × Facts m
  answer (makes_snapshot flags pid) s =
      let (h, s') = making_snapshot flags pid s in (true, replying (le_bytes 4 h) s')
  answer (makes_snapshot_ex flags pid) s = (true, snapshot_ex_answer flags pid s)
  answer (asks_process from_start h) s = (true, next_process_answer from_start h s)
  answer (asks_module from_start h) s = (true, next_module_answer from_start h s)
  answer (closes_handle h) s =
      (true, replying (le_bytes 4 1) (record s { state = close_handle h s.state }))
  answer (opens_process pid) s =
      let (h, state) = store_open_process pid s.state in
      (true, replying (le_bytes 4 h) (record s { state = state }))
  answer (starts_debug h) s = (true, replying (le_bytes 4 h) s)
  answer asks_version s = (
    true,
    replying
        (version_bytes
            (record { version = ce_server_version; stringsize = length version_string % 2 ^ 8 })
          ++ version_string)
        s,
  )
  answer asks_abi s = (true, replying (le_bytes 1 abi_windows) s)
  answer asks_options s = (true, replying (le_bytes 2 0) s)
  answer closes_connection s = (false, s)
  answer terminates_server s = (false, s)
  answer (sets_name name) s = (true, record s { connection_name = name_of name })
  answer (asks_symbols path) s = (true, replying (le_bytes 8 0) s)
  answer (reads_memory h a n z) s = read_answer h a n z s
  answer (writes_memory h a bs) s = write_answer h a bs s
  answer (asks_region with_name h a) s = region_answer with_name h a s
  answer (asks_regions h flags) s = regions_answer h s
