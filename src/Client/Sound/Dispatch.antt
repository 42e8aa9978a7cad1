-- ===== src/Client/Sound/Dispatch.antt =====
-- The dispatcher, on every byte.
use ceserver_pcileech.Prelude.{ℕ, suc, List, Bool, true, false, Option, none, some}
use ceserver_pcileech.Commands.{
  Command, command_of, getversion, closeconnection, terminateserver, openprocess,
  createtoolhelp32snapshot, process32first, process32next, closehandle, virtualqueryex,
  readprocessmemory, writeprocessmemory, startdebug, stopdebug, waitfordebugevent,
  continuefromdebugevent, setbreakpoint, removebreakpoint, suspendthread, resumethread,
  getthreadcontext, setthreadcontext, getarchitecture, module32first, module32next,
  getsymbollistfromfile, loadextension, alloc, free, createthread, loadmodule, speedhack_setspeed,
  virtualqueryexfull, getregioninfo, getabi, set_connection_name, createtoolhelp32snapshotex,
  changememoryprotection, getoptions, getoptionvalue, setoptionvalue, ptrace_mmap, opennamedpipe,
  piperead, pipewrite, getceserverpath, isandroid, loadmoduleex, setcurrentpath, getcurrentpath,
  enumfiles, getfilepermissions, setfilepermissions, getfile, putfile, createdir, deletefile,
  aobscan, commandlist2,
}
use ceserver_pcileech.ClientState.{ClientState}
use ceserver_pcileech.Machine.{Machine}
use ceserver_pcileech.Client.Monad.{M}
use ceserver_pcileech.Client.Dispatch.{
  keeping, handle_unknown_command, handle_known_but_unimplemented_command, dispatch_named,
  dispatch_command,
}
use ceserver_pcileech.Client.Sound.{
  Texts, DeviceTexts, Leads, Anything, more-Leads, bind-Leads, pure-Leads,
}
use ceserver_pcileech.Client.Sound.Replies.{version-Leads}
use ceserver_pcileech.Client.Sound.Snapshots.{
  tool_help32_snapshot-Leads, tool_help32_snapshot_ex-Leads, iterate_processes_next-Leads,
  iterate_modules_next-Leads, close_handle-Leads, abi-Leads, start_debug-Leads, options-Leads,
  set_connection_name-Leads,
}
use ceserver_pcileech.Client.Sound.Process.{
  open_process-Leads, read_process_memory-Leads, write_process_memory-Leads,
  symbol_list_from_file-Leads,
}
use ceserver_pcileech.Client.Sound.Region.{get_region_info-Leads, virtual_query_ex_full-Leads}
use ceserver_pcileech.Client.Sound.Architecture.{architecture-Leads}

module _ {m : Machine} {IsText : List ℕ → Type 0} (texts : Texts IsText)
    (device : DeviceTexts IsText m) {s : ClientState} where
  -- A handler without a result, which keeps the connection.
  stores-Leads :
      {n : ℕ} (e : M m (Unit {0}))
      → Leads IsText s n (suc n) Anything e
      → Leads IsText s n (suc n) Anything (keeping e)
  stores-Leads e l = bind-Leads e _ l (λ _ _. pure-Leads true tt)

  looks-Leads :
      {n : ℕ} (e : M m (Unit {0}))
      → Leads IsText s n n Anything e
      → Leads IsText s n (suc n) Anything (keeping e)
  looks-Leads e l = stores-Leads e (more-Leads e l)

  refused :
      {n : ℕ} → Leads {m = m} IsText s n (suc n) Anything handle_known_but_unimplemented_command
  unfolding handle_known_but_unimplemented_command
  refused = more-Leads _ (pure-Leads false tt)

  dispatch_named-Leads :
      {n : ℕ} (name : Command) → Leads {m = m} IsText s n (suc n) Anything (dispatch_named name)
  unfolding dispatch_named
  dispatch_named-Leads getversion = looks-Leads _ (version-Leads texts)
  dispatch_named-Leads closeconnection = more-Leads _ (pure-Leads false tt)
  dispatch_named-Leads terminateserver = more-Leads _ (pure-Leads false tt)
  dispatch_named-Leads openprocess = stores-Leads _ (open_process-Leads texts device)
  dispatch_named-Leads createtoolhelp32snapshot =
      stores-Leads _ (tool_help32_snapshot-Leads texts device)
  dispatch_named-Leads process32first =
      looks-Leads _ (iterate_processes_next-Leads texts device true)
  dispatch_named-Leads process32next =
      looks-Leads _ (iterate_processes_next-Leads texts device false)
  dispatch_named-Leads closehandle = looks-Leads _ (close_handle-Leads texts device)
  dispatch_named-Leads virtualqueryex = more-Leads _ (get_region_info-Leads texts device false)
  dispatch_named-Leads readprocessmemory = more-Leads _ (read_process_memory-Leads texts device)
  dispatch_named-Leads writeprocessmemory = more-Leads _ (write_process_memory-Leads texts device)
  dispatch_named-Leads startdebug = looks-Leads _ (start_debug-Leads texts device)
  dispatch_named-Leads getarchitecture = more-Leads _ (architecture-Leads texts)
  dispatch_named-Leads module32first = looks-Leads _ (iterate_modules_next-Leads texts device true)
  dispatch_named-Leads module32next = looks-Leads _ (iterate_modules_next-Leads texts device false)
  dispatch_named-Leads getsymbollistfromfile =
      looks-Leads _ (symbol_list_from_file-Leads texts device)
  dispatch_named-Leads virtualqueryexfull = more-Leads _ (virtual_query_ex_full-Leads texts device)
  dispatch_named-Leads getregioninfo = more-Leads _ (get_region_info-Leads texts device true)
  dispatch_named-Leads getabi = looks-Leads _ (abi-Leads texts device)
  dispatch_named-Leads set_connection_name = looks-Leads _ (set_connection_name-Leads texts device)
  dispatch_named-Leads createtoolhelp32snapshotex =
      stores-Leads _ (tool_help32_snapshot_ex-Leads texts device)
  dispatch_named-Leads getoptions = looks-Leads _ (options-Leads texts device)
  dispatch_named-Leads stopdebug = refused
  dispatch_named-Leads waitfordebugevent = refused
  dispatch_named-Leads continuefromdebugevent = refused
  dispatch_named-Leads setbreakpoint = refused
  dispatch_named-Leads removebreakpoint = refused
  dispatch_named-Leads suspendthread = refused
  dispatch_named-Leads resumethread = refused
  dispatch_named-Leads getthreadcontext = refused
  dispatch_named-Leads setthreadcontext = refused
  dispatch_named-Leads loadextension = refused
  dispatch_named-Leads alloc = refused
  dispatch_named-Leads free = refused
  dispatch_named-Leads createthread = refused
  dispatch_named-Leads loadmodule = refused
  dispatch_named-Leads speedhack_setspeed = refused
  dispatch_named-Leads changememoryprotection = refused
  dispatch_named-Leads getoptionvalue = refused
  dispatch_named-Leads setoptionvalue = refused
  dispatch_named-Leads ptrace_mmap = refused
  dispatch_named-Leads opennamedpipe = refused
  dispatch_named-Leads piperead = refused
  dispatch_named-Leads pipewrite = refused
  dispatch_named-Leads getceserverpath = refused
  dispatch_named-Leads isandroid = refused
  dispatch_named-Leads loadmoduleex = refused
  dispatch_named-Leads setcurrentpath = refused
  dispatch_named-Leads getcurrentpath = refused
  dispatch_named-Leads enumfiles = refused
  dispatch_named-Leads getfilepermissions = refused
  dispatch_named-Leads setfilepermissions = refused
  dispatch_named-Leads getfile = refused
  dispatch_named-Leads putfile = refused
  dispatch_named-Leads createdir = refused
  dispatch_named-Leads deletefile = refused
  dispatch_named-Leads aobscan = refused
  dispatch_named-Leads commandlist2 = refused

  command-Leads :
      {n : ℕ} (o : Option Command)
      → Leads IsText s n (suc n) Anything (elim o as (λ _. M m Bool) [
        | none ↦ handle_unknown_command
        | some name ↦ dispatch_named name
      ])
  unfolding handle_unknown_command
  command-Leads none = more-Leads _ (pure-Leads false tt)
  command-Leads (some name) = dispatch_named-Leads name

  -- One handle more at most, whatever the byte.
  pub dispatch_command-Leads :
      {n : ℕ} (command : ℕ) → Leads {m = m} IsText s n (suc n) Anything (dispatch_command command)
  unfolding dispatch_command
  dispatch_command-Leads command = command-Leads (command_of command)
