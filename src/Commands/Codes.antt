-- ===== src/Commands/Codes.antt =====
-- The command bytes of Commands.h against their names and the table of CommandsToString.h.
use ceserver_pcileech.Prelude.{
  ◌↔◌, ap, sym, ◌∙◌, subst, ℕ, List, [], ◌∷◌, ◌≡◌, refl, Bool, true, false, ◌&&◌, some, arith, ◌==◌,
  ==_iff, Bool-cases, inl, inr,
}
use ceserver_pcileech.Prelude.Maps.{lookup, contains, is_some, Map, or_else}
use ceserver_pcileech.Commands.{
  Command, command_code, command_of, find_code, commands, cases, command_to_string, getversion,
  closeconnection, terminateserver, openprocess, createtoolhelp32snapshot, process32first,
  process32next, closehandle, virtualqueryex, readprocessmemory, writeprocessmemory, startdebug,
  stopdebug, waitfordebugevent, continuefromdebugevent, setbreakpoint, removebreakpoint,
  suspendthread, resumethread, getthreadcontext, setthreadcontext, getarchitecture, module32first,
  module32next, getsymbollistfromfile, loadextension, alloc, free, createthread, loadmodule,
  speedhack_setspeed, virtualqueryexfull, getregioninfo, getabi, set_connection_name,
  createtoolhelp32snapshotex, changememoryprotection, getoptions, getoptionvalue, setoptionvalue,
  ptrace_mmap, opennamedpipe, piperead, pipewrite, getceserverpath, isandroid, loadmoduleex,
  setcurrentpath, getcurrentpath, enumfiles, getfilepermissions, setfilepermissions, getfile,
  putfile, createdir, deletefile, aobscan, commandlist2,
}

-- The byte of each command of the header is read back as that command.
pub command_of-command_code : (c : Command) → command_of (command_code c) ≡ some c
unfolding command_of
command_of-command_code getversion = refl
command_of-command_code closeconnection = refl
command_of-command_code terminateserver = refl
command_of-command_code openprocess = refl
command_of-command_code createtoolhelp32snapshot = refl
command_of-command_code process32first = refl
command_of-command_code process32next = refl
command_of-command_code closehandle = refl
command_of-command_code virtualqueryex = refl
command_of-command_code readprocessmemory = refl
command_of-command_code writeprocessmemory = refl
command_of-command_code startdebug = refl
command_of-command_code stopdebug = refl
command_of-command_code waitfordebugevent = refl
command_of-command_code continuefromdebugevent = refl
command_of-command_code setbreakpoint = refl
command_of-command_code removebreakpoint = refl
command_of-command_code suspendthread = refl
command_of-command_code resumethread = refl
command_of-command_code getthreadcontext = refl
command_of-command_code setthreadcontext = refl
command_of-command_code getarchitecture = refl
command_of-command_code module32first = refl
command_of-command_code module32next = refl
command_of-command_code getsymbollistfromfile = refl
command_of-command_code loadextension = refl
command_of-command_code alloc = refl
command_of-command_code free = refl
command_of-command_code createthread = refl
command_of-command_code loadmodule = refl
command_of-command_code speedhack_setspeed = refl
command_of-command_code virtualqueryexfull = refl
command_of-command_code getregioninfo = refl
command_of-command_code getabi = refl
command_of-command_code set_connection_name = refl
command_of-command_code createtoolhelp32snapshotex = refl
command_of-command_code changememoryprotection = refl
command_of-command_code getoptions = refl
command_of-command_code getoptionvalue = refl
command_of-command_code setoptionvalue = refl
command_of-command_code ptrace_mmap = refl
command_of-command_code opennamedpipe = refl
command_of-command_code piperead = refl
command_of-command_code pipewrite = refl
command_of-command_code getceserverpath = refl
command_of-command_code isandroid = refl
command_of-command_code loadmoduleex = refl
command_of-command_code setcurrentpath = refl
command_of-command_code getcurrentpath = refl
command_of-command_code enumfiles = refl
command_of-command_code getfilepermissions = refl
command_of-command_code setfilepermissions = refl
command_of-command_code getfile = refl
command_of-command_code putfile = refl
command_of-command_code createdir = refl
command_of-command_code deletefile = refl
command_of-command_code aobscan = refl
command_of-command_code commandlist2 = refl

find_code_sound :
    (n : ℕ) (cs : List Command) (c : Command) → find_code n cs ≡ some c → command_code c ≡ n
unfolding find_code
find_code_sound n [] c h = cc
find_code_sound n (d ∷ cs) c h = elim (Bool-cases (command_code d == n)) [
  | inl e ↦ ground (arith, (==_iff (command_code d) n).0 e)
  | inr e ↦ find_code_sound n cs c (ground arith)
]

-- A byte that is read as a command is the byte of that command.
pub command_of_sound : (n : ℕ) (c : Command) → command_of n ≡ some c → command_code c ≡ n
unfolding command_of
command_of_sound n c h = find_code_sound n cases c h

command_of_iff : (n : ℕ) (c : Command) → (command_of n ≡ some c) ↔ (command_code c ≡ n)
command_of_iff n c = (command_of_sound n c, λ e. ap command_of (sym e) ∙ command_of-command_code c)

named : List Command → Map (List ℕ)
named [] = []
named (c ∷ cs) = (command_code c, or_else (lookup (command_code c) command_to_string) []) ∷ named cs

command_to_string-named : command_to_string ≡ named commands
unfolding command_to_string named lookup
command_to_string-named = refl

contains-named : (n : ℕ) (cs : List Command) → contains n (named cs) ≡ is_some (find_code n cs)
unfolding named lookup find_code
contains-named n [] = refl
contains-named n (c ∷ cs) = ground (arith, contains-named n cs)

both_ways : (b c : Bool) → (b ≡ true → c ≡ true) → (c ≡ true → b ≡ true) → b ≡ c
both_ways true c f g = sym (f refl)
both_ways false true f g = g refl
both_ways false false f g = refl

-- Every command of the second list is found in the first.
contains_all : List Command → List Command → Bool
contains_all cs [] = true
contains_all cs (d ∷ ds) = is_some (find_code (command_code d) cs) && contains_all cs ds

contains_all-is_some :
    (n : ℕ) (cs ds : List Command)
    → contains_all cs ds ≡ true
    → is_some (find_code n ds) ≡ true
    → is_some (find_code n cs) ≡ true
unfolding contains_all find_code
contains_all-is_some n cs [] all found = cc
contains_all-is_some n cs (d ∷ ds) all found = elim (Bool-cases (command_code d == n)) [
  | inl e ↦
      subst (λ k. is_some (find_code k cs) ≡ true) ((==_iff (command_code d) n).0 e) (ground arith)
  | inr e ↦ contains_all-is_some n cs ds (ground arith) (ground arith)
]

-- The switch has a label for each command of the header, and no other.
find_code-cases : (n : ℕ) → is_some (find_code n commands) ≡ is_some (find_code n cases)
unfolding contains_all find_code
find_code-cases n =
    let there = contains_all-is_some n cases commands refl in
    let back = contains_all-is_some n commands cases refl in
    both_ways (is_some (find_code n commands)) (is_some (find_code n cases)) there back

contains-command_to_string : (n : ℕ) → contains n command_to_string ≡ is_some (command_of n)
unfolding command_of
contains-command_to_string n =
    rw command_to_string-named (contains-named n commands ∙ find_code-cases n)

-- The switch, the header and the table of names agree on every byte: the switch takes the label of a
-- command exactly when the byte is that command's in the header, and the table has a name for it
-- exactly when the switch has a label for it.
pub commands_agree :
    (n : ℕ) (c : Command)
    → ((command_of n ≡ some c) ↔ (command_code c ≡ n))
      × (contains n command_to_string ≡ is_some (command_of n))
commands_agree n c = (command_of_iff n c, contains-command_to_string n)
