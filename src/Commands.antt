-- ===== src/Commands.antt =====
-- Commands.h and CommandsToString.h: the command bytes of the Cheat Engine network protocol, and the
-- table of their names that the log lines use. The packed structs are in Layout.
pub mod Layout
pub mod Codes
pub mod RoundTrip
pub mod Structs
use ceserver_pcileech.Prelude.{
  ℕ, List, [], ◌∷◌, Option, none, some, Bool, true, false, String, ◌==◌, if◌then◌else◌,
}
use ceserver_pcileech.Prelude.Maps.{Map}
use ceserver_pcileech.Prelude.Bytes.{codes}

-- The names that the header gives to command bytes.
pub data Command : Type 0 where
  getversion closeconnection terminateserver openprocess createtoolhelp32snapshot : Command
  process32first process32next closehandle virtualqueryex readprocessmemory : Command
  writeprocessmemory startdebug stopdebug waitfordebugevent continuefromdebugevent : Command
  setbreakpoint removebreakpoint suspendthread resumethread getthreadcontext : Command
  setthreadcontext getarchitecture module32first module32next getsymbollistfromfile : Command
  loadextension alloc free createthread loadmodule : Command
  speedhack_setspeed virtualqueryexfull getregioninfo getabi set_connection_name : Command
  createtoolhelp32snapshotex changememoryprotection getoptions getoptionvalue setoptionvalue :
      Command
  ptrace_mmap opennamedpipe piperead pipewrite getceserverpath : Command
  isandroid loadmoduleex setcurrentpath getcurrentpath enumfiles : Command
  getfilepermissions setfilepermissions getfile putfile createdir : Command
  deletefile aobscan commandlist2 : Command

-- The byte that each name stands for.
abbrev pub command_code : Command → ℕ
command_code getversion = 0
command_code closeconnection = 1
command_code terminateserver = 2
command_code openprocess = 3
command_code createtoolhelp32snapshot = 4
command_code process32first = 5
command_code process32next = 6
command_code closehandle = 7
command_code virtualqueryex = 8
command_code readprocessmemory = 9
command_code writeprocessmemory = 10
command_code startdebug = 11
command_code stopdebug = 12
command_code waitfordebugevent = 13
command_code continuefromdebugevent = 14
command_code setbreakpoint = 15
command_code removebreakpoint = 16
command_code suspendthread = 17
command_code resumethread = 18
command_code getthreadcontext = 19
command_code setthreadcontext = 20
command_code getarchitecture = 21
command_code module32first = 22
command_code module32next = 23
command_code getsymbollistfromfile = 24
command_code loadextension = 25
command_code alloc = 26
command_code free = 27
command_code createthread = 28
command_code loadmodule = 29
command_code speedhack_setspeed = 30
command_code virtualqueryexfull = 31
command_code getregioninfo = 32
command_code getabi = 33
command_code set_connection_name = 34
command_code createtoolhelp32snapshotex = 35
command_code changememoryprotection = 36
command_code getoptions = 37
command_code getoptionvalue = 38
command_code setoptionvalue = 39
command_code ptrace_mmap = 40
command_code opennamedpipe = 41
command_code piperead = 42
command_code pipewrite = 43
command_code getceserverpath = 44
command_code isandroid = 45
command_code loadmoduleex = 46
command_code setcurrentpath = 47
command_code getcurrentpath = 48
command_code enumfiles = 49
command_code getfilepermissions = 50
command_code setfilepermissions = 51
command_code getfile = 52
command_code putfile = 53
command_code createdir = 54
command_code deletefile = 55
command_code aobscan = 200
command_code commandlist2 = 255

abbrev pub commands : List Command
commands =
    getversion ∷ closeconnection ∷ terminateserver ∷ openprocess ∷ createtoolhelp32snapshot
    ∷ process32first ∷ process32next ∷ closehandle ∷ virtualqueryex ∷ readprocessmemory
    ∷ writeprocessmemory ∷ startdebug ∷ stopdebug ∷ waitfordebugevent ∷ continuefromdebugevent
    ∷ setbreakpoint ∷ removebreakpoint ∷ suspendthread ∷ resumethread ∷ getthreadcontext
    ∷ setthreadcontext ∷ getarchitecture ∷ module32first ∷ module32next ∷ getsymbollistfromfile
    ∷ loadextension ∷ alloc ∷ free ∷ createthread ∷ loadmodule ∷ speedhack_setspeed
    ∷ virtualqueryexfull ∷ getregioninfo ∷ getabi ∷ set_connection_name ∷ createtoolhelp32snapshotex
    ∷ changememoryprotection ∷ getoptions ∷ getoptionvalue ∷ setoptionvalue ∷ ptrace_mmap
    ∷ opennamedpipe ∷ piperead ∷ pipewrite ∷ getceserverpath ∷ isandroid ∷ loadmoduleex
    ∷ setcurrentpath ∷ getcurrentpath ∷ enumfiles ∷ getfilepermissions ∷ setfilepermissions
    ∷ getfile ∷ putfile ∷ createdir ∷ deletefile ∷ aobscan ∷ commandlist2 ∷ []

-- The name in a list that has a byte for its code.
unfoldable pub find_code : ℕ → List Command → Option Command
find_code n [] = none
find_code n (c ∷ cs) = if command_code c == n then some c else find_code n cs

-- The labels of the switch of `dispatchCommand`, in its order.
abbrev pub cases : List Command
cases =
    createtoolhelp32snapshot ∷ process32first ∷ process32next ∷ module32first ∷ module32next
    ∷ closehandle ∷ getversion ∷ getabi ∷ createtoolhelp32snapshotex ∷ set_connection_name
    ∷ closeconnection ∷ terminateserver ∷ openprocess ∷ readprocessmemory ∷ writeprocessmemory
    ∷ getarchitecture ∷ getsymbollistfromfile ∷ virtualqueryex ∷ getregioninfo ∷ virtualqueryexfull
    ∷ startdebug ∷ getoptions ∷ stopdebug ∷ waitfordebugevent ∷ continuefromdebugevent
    ∷ setbreakpoint ∷ removebreakpoint ∷ suspendthread ∷ resumethread ∷ getthreadcontext
    ∷ setthreadcontext ∷ loadextension ∷ alloc ∷ free ∷ createthread ∷ loadmodule
    ∷ speedhack_setspeed ∷ changememoryprotection ∷ getoptionvalue ∷ setoptionvalue ∷ ptrace_mmap
    ∷ opennamedpipe ∷ piperead ∷ pipewrite ∷ getceserverpath ∷ isandroid ∷ loadmoduleex
    ∷ setcurrentpath ∷ getcurrentpath ∷ enumfiles ∷ getfilepermissions ∷ setfilepermissions
    ∷ getfile ∷ putfile ∷ createdir ∷ deletefile ∷ aobscan ∷ commandlist2 ∷ []

-- The label that the switch takes for a byte, `none` for `default`.
unfoldable pub command_of : ℕ → Option Command
unfolding find_code
command_of n = find_code n cases

-- The table `commandToString`.
unfoldable pub command_to_string : Map (List ℕ)
command_to_string =
    (command_code getversion, codes "CMD_GETVERSION")
    ∷ (command_code closeconnection, codes "CMD_CLOSECONNECTION")
    ∷ (command_code terminateserver, codes "CMD_TERMINATESERVER")
    ∷ (command_code openprocess, codes "CMD_OPENPROCESS")
    ∷ (command_code createtoolhelp32snapshot, codes "CMD_CREATETOOLHELP32SNAPSHOT")
    ∷ (command_code process32first, codes "CMD_PROCESS32FIRST")
    ∷ (command_code process32next, codes "CMD_PROCESS32NEXT")
    ∷ (command_code closehandle, codes "CMD_CLOSEHANDLE")
    ∷ (command_code virtualqueryex, codes "CMD_VIRTUALQUERYEX")
    ∷ (command_code readprocessmemory, codes "CMD_READPROCESSMEMORY")
    ∷ (command_code writeprocessmemory, codes "CMD_WRITEPROCESSMEMORY")
    ∷ (command_code startdebug, codes "CMD_STARTDEBUG")
    ∷ (command_code stopdebug, codes "CMD_STOPDEBUG")
    ∷ (command_code waitfordebugevent, codes "CMD_WAITFORDEBUGEVENT")
    ∷ (command_code continuefromdebugevent, codes "CMD_CONTINUEFROMDEBUGEVENT")
    ∷ (command_code setbreakpoint, codes "CMD_SETBREAKPOINT")
    ∷ (command_code removebreakpoint, codes "CMD_REMOVEBREAKPOINT")
    ∷ (command_code suspendthread, codes "CMD_SUSPENDTHREAD")
    ∷ (command_code resumethread, codes "CMD_RESUMETHREAD")
    ∷ (command_code getthreadcontext, codes "CMD_GETTHREADCONTEXT")
    ∷ (command_code setthreadcontext, codes "CMD_SETTHREADCONTEXT")
    ∷ (command_code getarchitecture, codes "CMD_GETARCHITECTURE")
    ∷ (command_code module32first, codes "CMD_MODULE32FIRST")
    ∷ (command_code module32next, codes "CMD_MODULE32NEXT")
    ∷ (command_code getsymbollistfromfile, codes "CMD_GETSYMBOLLISTFROMFILE")
    ∷ (command_code loadextension, codes "CMD_LOADEXTENSION")
    ∷ (command_code alloc, codes "CMD_ALLOC")
    ∷ (command_code free, codes "CMD_FREE")
    ∷ (command_code createthread, codes "CMD_CREATETHREAD")
    ∷ (command_code loadmodule, codes "CMD_LOADMODULE")
    ∷ (command_code speedhack_setspeed, codes "CMD_SPEEDHACK_SETSPEED")
    ∷ (command_code virtualqueryexfull, codes "CMD_VIRTUALQUERYEXFULL")
    ∷ (command_code getregioninfo, codes "CMD_GETREGIONINFO")
    ∷ (command_code getabi, codes "CMD_GETABI")
    ∷ (command_code set_connection_name, codes "CMD_SET_CONNECTION_NAME")
    ∷ (command_code createtoolhelp32snapshotex, codes "CMD_CREATETOOLHELP32SNAPSHOTEX")
    ∷ (command_code changememoryprotection, codes "CMD_CHANGEMEMORYPROTECTION")
    ∷ (command_code getoptions, codes "CMD_GETOPTIONS")
    ∷ (command_code getoptionvalue, codes "CMD_GETOPTIONVALUE")
    ∷ (command_code setoptionvalue, codes "CMD_SETOPTIONVALUE")
    ∷ (command_code ptrace_mmap, codes "CMD_PTRACE_MMAP")
    ∷ (command_code opennamedpipe, codes "CMD_OPENNAMEDPIPE")
    ∷ (command_code piperead, codes "CMD_PIPEREAD")
    ∷ (command_code pipewrite, codes "CMD_PIPEWRITE")
    ∷ (command_code getceserverpath, codes "CMD_GETCESERVERPATH")
    ∷ (command_code isandroid, codes "CMD_ISANDROID")
    ∷ (command_code loadmoduleex, codes "CMD_LOADMODULEEX")
    ∷ (command_code setcurrentpath, codes "CMD_SETCURRENTPATH")
    ∷ (command_code getcurrentpath, codes "CMD_GETCURRENTPATH")
    ∷ (command_code enumfiles, codes "CMD_ENUMFILES")
    ∷ (command_code getfilepermissions, codes "CMD_GETFILEPERMISSIONS")
    ∷ (command_code setfilepermissions, codes "CMD_SETFILEPERMISSIONS")
    ∷ (command_code getfile, codes "CMD_GETFILE")
    ∷ (command_code putfile, codes "CMD_PUTFILE")
    ∷ (command_code createdir, codes "CMD_CREATEDIR")
    ∷ (command_code deletefile, codes "CMD_DELETEFILE")
    ∷ (command_code aobscan, codes "CMD_AOBSCAN")
    ∷ (command_code commandlist2, codes "CMD_COMMANDLIST2")
    ∷ []
