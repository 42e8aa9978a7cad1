-- ===== src/Client/Answers.antt =====
-- dispatchCommand against the specification of the answers.
pub mod Entries
pub mod Snapshots
pub mod Walks
pub mod Process
pub mod Transfers
pub mod Region
pub mod Fixed
use ceserver_pcileech.Prelude.{
  ℕ, ◌≡◌, refl, ap, ◌∙◌, List, [], ◌++◌, Bool, true, false, append_assoc, if◌then◌else◌, Option,
  none, some,
}
use ceserver_pcileech.Commands.{
  Command, command_code, command_of, getversion, closeconnection, terminateserver, openprocess,
  createtoolhelp32snapshot, process32first, process32next, closehandle, virtualqueryex,
  readprocessmemory, writeprocessmemory, startdebug, module32first, module32next,
  getsymbollistfromfile, virtualqueryexfull, getregioninfo, getabi, set_connection_name,
  createtoolhelp32snapshotex, getoptions,
}
use ceserver_pcileech.Commands.Codes.{command_of-command_code}
use ceserver_pcileech.Machine.{Machine, NetLaws, MemoryLaws}
use ceserver_pcileech.Client.Monad.{M, Ctx, pure, ◌>>◌}
use ceserver_pcileech.Client.Facts.{Facts, facts, Does, pure-Does}
use ceserver_pcileech.Client.Facts.Blocks.{then_pure-Does}
use ceserver_pcileech.Client.Snapshots.{
  handle_command_tool_help32_snapshot, handle_command_tool_help32_snapshot_ex,
  handle_command_close_handle, handle_command_start_debug, handle_command_get_version,
  handle_command_get_abi, handle_command_get_options, handle_command_set_connection_name,
  handle_command_iterate_processes_next, handle_command_iterate_modules_next,
}
use ceserver_pcileech.Client.Process.{
  handle_command_open_process, handle_command_get_symbol_list_from_file,
}
use ceserver_pcileech.Client.Dispatch.{dispatch_command, dispatch_named}
use ceserver_pcileech.Client.Spec.{
  Request, request_command, payload, Fits, answer, makes_snapshot, makes_snapshot_ex, asks_process,
  asks_module, closes_handle, opens_process, starts_debug, asks_version, asks_abi, asks_options,
  closes_connection, terminates_server, sets_name, asks_symbols, reads_memory, writes_memory,
  asks_region, asks_regions,
}
use Snapshots.{close_handle-Does, start_debug-Does, snapshot-Does, snapshot_ex_handler-Does}
use Walks.{processes_next-Does, modules_next-Does}
use Process.{open_process-Does, symbols-Does}
use Transfers.{read_process_memory-Does, write_process_memory-Does}
use Region.{region_info-Does, regions-Does}
use Fixed.{version-Does, abi-Does, options-Does, set_name-Does}

module _ {m : Machine} (laws : NetLaws m) (device : MemoryLaws m) where
  -- A handler with no result keeps the connection.
  keeps :
      (e : M m (Unit {0})) (c : Ctx m) (t : Facts m)
      → Does laws e c tt t
      → Does laws (e >> pure true) c true t
  keeps e c t d = then_pure-Does laws e true c tt t d

  named-answer :
      (r : Request) (rest : List ℕ) (c : Ctx m) (s : Facts m)
      → facts laws c ≡ s
      → s.pending ≡ payload r ++ rest
      → Fits r
      → let a = answer r (record s { pending = rest }) in
        Does laws (dispatch_named (request_command r)) c a.0 a.1
  unfolding dispatch_named
  named-answer (makes_snapshot flags pid) rest c s p q f =
      keeps handle_command_tool_help32_snapshot c _
        (snapshot-Does laws rest c s p flags pid (q ∙ append_assoc _ _ rest) f)
  named-answer (makes_snapshot_ex flags pid) rest c s p q f =
      keeps handle_command_tool_help32_snapshot_ex c _
        (snapshot_ex_handler-Does laws rest c s p flags pid (q ∙ append_assoc _ _ rest) f)
  named-answer (asks_process true h) rest c s p q f =
      keeps (handle_command_iterate_processes_next true) c _
        (processes_next-Does laws rest c s p true h q f)
  named-answer (asks_process false h) rest c s p q f =
      keeps (handle_command_iterate_processes_next false) c _
        (processes_next-Does laws rest c s p false h q f)
  named-answer (asks_module true h) rest c s p q f =
      keeps (handle_command_iterate_modules_next true) c _
        (modules_next-Does laws rest c s p true h q f)
  named-answer (asks_module false h) rest c s p q f =
      keeps (handle_command_iterate_modules_next false) c _
        (modules_next-Does laws rest c s p false h q f)
  named-answer (closes_handle h) rest c s p q f =
      keeps handle_command_close_handle c _ (close_handle-Does laws rest c s p h q f)
  named-answer (opens_process pid) rest c s p q f =
      keeps handle_command_open_process c _ (open_process-Does laws rest c s p pid q f)
  named-answer (starts_debug h) rest c s p q f =
      keeps handle_command_start_debug c _ (start_debug-Does laws rest c s p h q f)
  named-answer asks_version rest c s p q f =
      keeps handle_command_get_version c _
        (version-Does laws c _ (p ∙ ap (λ r. record s { pending = r }) q))
  named-answer asks_abi rest c s p q f =
      keeps handle_command_get_abi c _
        (abi-Does laws c _ (p ∙ ap (λ r. record s { pending = r }) q))
  named-answer asks_options rest c s p q f =
      keeps handle_command_get_options c _
        (options-Does laws c _ (p ∙ ap (λ r. record s { pending = r }) q))
  named-answer closes_connection rest c s p q f =
      pure-Does laws false c _ (p ∙ ap (λ r. record s { pending = r }) q)
  named-answer terminates_server rest c s p q f =
      pure-Does laws false c _ (p ∙ ap (λ r. record s { pending = r }) q)
  named-answer (sets_name name) rest c s p q f =
      keeps handle_command_set_connection_name c _
        (set_name-Does laws rest c s p name (q ∙ append_assoc _ _ rest) f)
  named-answer (asks_symbols path) rest c s p q f =
      keeps handle_command_get_symbol_list_from_file c _
        (symbols-Does laws rest c s p path (q ∙ append_assoc _ _ rest) f)
  named-answer (reads_memory h a n z) rest c s p q f =
      read_process_memory-Does laws rest c s p device h a n z (q ∙ simp append_assoc) f
  named-answer (writes_memory h a bs) rest c s p q f =
      write_process_memory-Does laws rest c s p h a bs (q ∙ simp append_assoc) f
  named-answer (asks_region true h a) rest c s p q f =
      region_info-Does laws rest c s p true h a (q ∙ append_assoc _ _ rest) f
  named-answer (asks_region false h a) rest c s p q f =
      region_info-Does laws rest c s p false h a (q ∙ append_assoc _ _ rest) f
  named-answer (asks_regions h flags) rest c s p q f =
      regions-Does laws rest c s p h flags (q ∙ append_assoc _ _ rest) f

  -- On a connection where the payload of a request comes next, the handler of its command ends without
  -- a fault, reads exactly that payload, and leaves the shared state, the device, the name and the bytes
  -- sent as the specification says; its result says whether the connection stays open. The request is
  -- one whose numbers fit their fields, of which a name is shorter by one byte than its length field
  -- holds, a path of symbols has a zero in it and less than 2 ^ 31 bytes, the bytes to write are less
  -- than 2 ^ 31, and a read asks for less than 10 ^ 9 bytes. Memory answers every read below 10 ^ 9
  -- bytes, with no more bytes than were asked for.
  pub dispatch_command-answer :
      (r : Request) (rest : List ℕ) (c : Ctx m) (s : Facts m)
      → facts laws c ≡ s
      → s.pending ≡ payload r ++ rest
      → Fits r
      → let a = answer r (record s { pending = rest }) in
        Does laws (dispatch_command (command_code (request_command r))) c a.0 a.1
  unfolding dispatch_command
  dispatch_command-answer r rest c s p q f =
      rw (command_of-command_code (request_command r), dispatch_command)
        (named-answer r rest c s p q f)
