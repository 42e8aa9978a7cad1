-- ===== src/Client/Dispatch.antt =====
-- dispatchCommand of Client.cpp. A handler that returns nothing keeps the connection; commands that
-- are known and not implemented, and unknown ones, are logged and close it.
use ceserver_pcileech.Prelude.{ℕ, Bool, true, false, none, some}
use ceserver_pcileech.Commands.{
  Command, command_of, getversion, closeconnection, terminateserver, openprocess,
  createtoolhelp32snapshot, process32first, process32next, closehandle, virtualqueryex,
  readprocessmemory, writeprocessmemory, startdebug, stopdebug, waitfordebugevent,
  continuefromdebugevent, setbreakpoint, removebreakpoint, suspendthread, resumethread,
  getthreadcontext, setthreadcontext, getarchitecture, module32first, module32next,
  getsymbollistfromfile, loadextension, alloc, free, createthread, loadmodule, speedhack_setspeed,
  virtualqueryexfull, getregioninfo, getabi, set_connection_name, createtoolhelp32snapshotex,
  changememoryprotection, getoptions, getoptionvalue, setoptionvalue, ptrace_mmap, opennamedpipe,
  piperead, pipewrite, getceserverpath, isandroid, loadmoduleex, setcurrentpath, getcurrentpath,
  enumfiles, getfilepermissions, setfilepermissions, getfile, putfile, createdir, deletefile,
  aobscan, commandlist2,
}
use ceserver_pcileech.Machine.{Machine}
use ceserver_pcileech.Client.Monad.{M, ◌>>◌, pure}
use ceserver_pcileech.Client.Snapshots.{
  handle_command_close_handle, handle_command_get_abi, handle_command_get_options,
  handle_command_get_version, handle_command_iterate_modules_next,
  handle_command_iterate_processes_next, handle_command_set_connection_name,
  handle_command_start_debug, handle_command_tool_help32_snapshot,
  handle_command_tool_help32_snapshot_ex,
}
use ceserver_pcileech.Client.Process.{
  handle_command_open_process, handle_command_read_process_memory,
  handle_command_write_process_memory, handle_command_get_architecture,
  handle_command_get_symbol_list_from_file,
}
use ceserver_pcileech.Client.Region.{
  handle_command_get_region_info, handle_command_virtual_query_ex_full,
}

module _ {m : Machine} where
  abbrev pub keeping : M m (Unit {0}) → M m Bool
  keeping e = e >> pure true

  -- handleUnknownCommand and handleKnownButUnimplementedCommand only log.
  unfoldable pub handle_unknown_command : M m Bool
  handle_unknown_command = pure false

  unfoldable pub handle_known_but_unimplemented_command : M m Bool
  handle_known_but_unimplemented_command = pure false

  -- The `switch`, for a byte that has a name.
  unfoldable pub dispatch_named : Command → M m Bool
  unfolding handle_known_but_unimplemented_command
  dispatch_named getversion = keeping handle_command_get_version
  dispatch_named closeconnection = pure false
  dispatch_named terminateserver = pure false
  dispatch_named openprocess = keeping handle_command_open_process
  dispatch_named createtoolhelp32snapshot = keeping handle_command_tool_help32_snapshot
  dispatch_named process32first = keeping (handle_command_iterate_processes_next true)
  dispatch_named process32next = keeping (handle_command_iterate_processes_next false)
  dispatch_named closehandle = keeping handle_command_close_handle
  dispatch_named virtualqueryex = handle_command_get_region_info false
  dispatch_named readprocessmemory = handle_command_read_process_memory
  dispatch_named writeprocessmemory = handle_command_write_process_memory
  dispatch_named startdebug = keeping handle_command_start_debug
  dispatch_named getarchitecture = handle_command_get_architecture
  dispatch_named module32first = keeping (handle_command_iterate_modules_next true)
  dispatch_named module32next = keeping (handle_command_iterate_modules_next false)
  dispatch_named getsymbollistfromfile = keeping handle_command_get_symbol_list_from_file
  dispatch_named virtualqueryexfull = handle_command_virtual_query_ex_full
  dispatch_named getregioninfo = handle_command_get_region_info true
  dispatch_named getabi = keeping handle_command_get_abi
  dispatch_named set_connection_name = keeping handle_command_set_connection_name
  dispatch_named createtoolhelp32snapshotex = keeping handle_command_tool_help32_snapshot_ex
  dispatch_named getoptions = keeping handle_command_get_options
  dispatch_named stopdebug = handle_known_but_unimplemented_command
  dispatch_named waitfordebugevent = handle_known_but_unimplemented_command
  dispatch_named continuefromdebugevent = handle_known_but_unimplemented_command
  dispatch_named setbreakpoint = handle_known_but_unimplemented_command
  dispatch_named removebreakpoint = handle_known_but_unimplemented_command
  dispatch_named suspendthread = handle_known_but_unimplemented_command
  dispatch_named resumethread = handle_known_but_unimplemented_command
  dispatch_named getthreadcontext = handle_known_but_unimplemented_command
  dispatch_named setthreadcontext = handle_known_but_unimplemented_command
  dispatch_named loadextension = handle_known_but_unimplemented_command
  dispatch_named alloc = handle_known_but_unimplemented_command
  dispatch_named free = handle_known_but_unimplemented_command
  dispatch_named createthread = handle_known_but_unimplemented_command
  dispatch_named loadmodule = handle_known_but_unimplemented_command
  dispatch_named speedhack_setspeed = handle_known_but_unimplemented_command
  dispatch_named changememoryprotection = handle_known_but_unimplemented_command
  dispatch_named getoptionvalue = handle_known_but_unimplemented_command
  dispatch_named setoptionvalue = handle_known_but_unimplemented_command
  dispatch_named ptrace_mmap = handle_known_but_unimplemented_command
  dispatch_named opennamedpipe = handle_known_but_unimplemented_command
  dispatch_named piperead = handle_known_but_unimplemented_command
  dispatch_named pipewrite = handle_known_but_unimplemented_command
  dispatch_named getceserverpath = handle_known_but_unimplemented_command
  dispatch_named isandroid = handle_known_but_unimplemented_command
  dispatch_named loadmoduleex = handle_known_but_unimplemented_command
  dispatch_named setcurrentpath = handle_known_but_unimplemented_command
  dispatch_named getcurrentpath = handle_known_but_unimplemented_command
  dispatch_named enumfiles = handle_known_but_unimplemented_command
  dispatch_named getfilepermissions = handle_known_but_unimplemented_command
  dispatch_named setfilepermissions = handle_known_but_unimplemented_command
  dispatch_named getfile = handle_known_but_unimplemented_command
  dispatch_named putfile = handle_known_but_unimplemented_command
  dispatch_named createdir = handle_known_but_unimplemented_command
  dispatch_named deletefile = handle_known_but_unimplemented_command
  dispatch_named aobscan = handle_known_but_unimplemented_command
  dispatch_named commandlist2 = handle_known_but_unimplemented_command

  -- The result says whether the connection stays open.
  unfoldable pub dispatch_command : ℕ → M m Bool
  unfolding dispatch_named handle_unknown_command
  dispatch_command command = elim (command_of command) [
    | none ↦ handle_unknown_command
    | some name ↦ dispatch_named name
  ]
