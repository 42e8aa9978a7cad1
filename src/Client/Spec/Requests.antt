-- ===== src/Client/Spec/Requests.antt =====
-- The requests of the protocol and how they are written on the wire.
use ceserver_pcileech.Prelude.{
  ℕ, ◌+◌, ◌<◌, ◌^◌, ◌≡◌, List, [], ◌++◌, Bool, true, length, if◌then◌else◌,
}
use ceserver_pcileech.Prelude.Bytes.{le_bytes}
use ceserver_pcileech.Prelude.Maps.{is_some}
use ceserver_pcileech.Commands.{
  Command, getversion, closeconnection, terminateserver, openprocess, createtoolhelp32snapshot,
  process32first, process32next, closehandle, virtualqueryex, readprocessmemory, writeprocessmemory,
  startdebug, module32first, module32next, getsymbollistfromfile, virtualqueryexfull, getregioninfo,
  getabi, set_connection_name, createtoolhelp32snapshotex, getoptions,
}
use ceserver_pcileech.Client.Monad.{until_nul}

pub data Request : Type 0 where
  -- Flags and process.
  makes_snapshot makes_snapshot_ex : ℕ → ℕ → Request
  -- Whether to begin again, and the handle.
  asks_process asks_module : Bool → ℕ → Request
  closes_handle opens_process starts_debug : ℕ → Request
  asks_version asks_abi asks_options closes_connection terminates_server : Request
  sets_name asks_symbols : List ℕ → Request
  -- Handle, address, size and the flag for compression.
  reads_memory : ℕ → ℕ → ℕ → ℕ → Request
  -- Handle, address and the bytes.
  writes_memory : ℕ → ℕ → List ℕ → Request
  -- Whether the name is wanted, the handle and the address.
  asks_region : Bool → ℕ → ℕ → Request
  -- Handle and flags.
  asks_regions : ℕ → ℕ → Request

abbrev pub request_command : Request → Command
request_command (makes_snapshot _ _) = createtoolhelp32snapshot
request_command (makes_snapshot_ex _ _) = createtoolhelp32snapshotex
request_command (asks_process b _) = if b then process32first else process32next
request_command (asks_module b _) = if b then module32first else module32next
request_command (closes_handle _) = closehandle
request_command (opens_process _) = openprocess
request_command (starts_debug _) = startdebug
request_command asks_version = getversion
request_command asks_abi = getabi
request_command asks_options = getoptions
request_command closes_connection = closeconnection
request_command terminates_server = terminateserver
request_command (sets_name _) = set_connection_name
request_command (asks_symbols _) = getsymbollistfromfile
request_command (reads_memory _ _ _ _) = readprocessmemory
request_command (writes_memory _ _ _) = writeprocessmemory
request_command (asks_region b _ _) = if b then getregioninfo else virtualqueryex
request_command (asks_regions _ _) = virtualqueryexfull

-- What follows the command's byte.
abbrev pub payload : Request → List ℕ
payload (makes_snapshot flags pid) = le_bytes 4 flags ++ le_bytes 4 pid
payload (makes_snapshot_ex flags pid) = le_bytes 4 flags ++ le_bytes 4 pid
payload (asks_process _ h) = le_bytes 4 h
payload (asks_module _ h) = le_bytes 4 h
payload (closes_handle h) = le_bytes 4 h
payload (opens_process pid) = le_bytes 4 pid
payload (starts_debug h) = le_bytes 4 h
payload asks_version = []
payload asks_abi = []
payload asks_options = []
payload closes_connection = []
payload terminates_server = []
payload (sets_name name) = le_bytes 4 (length name) ++ name
payload (asks_symbols path) = le_bytes 4 (length path) ++ path
payload (reads_memory h a n z) = le_bytes 4 h ++ (le_bytes 8 a ++ (le_bytes 4 n ++ le_bytes 1 z))
payload (writes_memory h a bs) = le_bytes 4 h ++ (le_bytes 8 a ++ (le_bytes 4 (length bs) ++ bs))
payload (asks_region _ h a) = le_bytes 4 h ++ le_bytes 8 a
payload (asks_regions h flags) = le_bytes 4 h ++ le_bytes 1 flags

-- The numbers of a request fit their fields; a name leaves room for the zero behind it, a path has a
-- zero in it, the length of an array is not negative as an `int`, and less than a gigabyte is read.
abbrev pub Fits : Request → Type 0
Fits (makes_snapshot flags pid) = (flags < 256 ^ 4) × (pid < 256 ^ 4)
Fits (makes_snapshot_ex flags pid) = (flags < 256 ^ 4) × (pid < 256 ^ 4)
Fits (asks_process _ h) = h < 256 ^ 4
Fits (asks_module _ h) = h < 256 ^ 4
Fits (closes_handle h) = h < 256 ^ 4
Fits (opens_process pid) = pid < 256 ^ 4
Fits (starts_debug h) = h < 256 ^ 4
Fits (sets_name name) = length name + 1 < 256 ^ 4
Fits (asks_symbols path) = (length path < 2 ^ 31) × (is_some (until_nul path) ≡ true)
Fits (reads_memory h a n z) = (h < 256 ^ 4) × (a < 256 ^ 8) × (n < 10 ^ 9) × (z < 256 ^ 1)
Fits (writes_memory h a bs) = (h < 256 ^ 4) × (a < 256 ^ 8) × (length bs < 2 ^ 31)
Fits (asks_region _ h a) = (h < 256 ^ 4) × (a < 256 ^ 8)
Fits (asks_regions h flags) = (h < 256 ^ 4) × (flags < 256 ^ 1)
Fits _ = Unit
