-- ===== src/Lib.antt =====
-- A model of ceserver-pcileech, a server that speaks the network protocol of Cheat Engine and reads
-- the memory of another computer through a PCILeech device, with proofs about it.
--
-- The parts of the program and their files:
--
--   Commands (Commands.h, CommandsToString.h): the byte of each command and the packed structs that
--     go over the wire. Commands is the bytes and the table of names, Commands/Layout the structs as
--     lists of bytes, Commands/RoundTrip readers of them and Commands/Structs all of them as one type,
--     Commands/Codes the bytes against the names.
--   Memory (Memory.h, Memory.cpp): Memory/Region is ProcessInfo, ThreadInfo and MemoryRegion with its
--     constructor. Memory/Backlog is the map of waiting reads: the first half of Memory::read
--     (request), and a round of dispatchLoop between its locks (dispatch_round). Memory/Device is
--     what class Memory asks of its device, which is the parameter Device: the snapshots, write,
--     getMemoryModel, generateMemoryMap, dispatch in both its branches, and BacklogItem::get.
--     Device/Reads compares the branches of dispatch with reads one by one.
--     Memory/Handover is the order in which a result is set, copied and given back, as steps of two
--     threads. Memory/Traffic is any number of calls of Memory::read, dispatchLoop and dispatch as
--     steps on one backlog: Traffic/Invariant, Entering, Working and Requests are what each step
--     keeps, Traffic/Runs runs of the dispatcher, Traffic/Delivery what follows. Traffic/Values has
--     the same steps with the results of the device; Traffic/Reads and Traffic/Integrity compare
--     these with what was asked. Memory/Alone is
--     Memory::read from end to end for one caller, and Memory/Api the class behind the interface that
--     Client uses. Memory/Pacing is the wait of dispatchLoop between two rounds. Memory/Lifecycle is
--     init, start, shutdown and the destructor, and Lifecycle/Shutdown the end of the dispatch loop.
--   ClientState (ClientState.h, ClientState.cpp): the handles that clients hold, shared by all
--     connections. One function per method; Op and apply are the calls as data. ClientState/Threads has
--     the methods as steps of threads under one mutex, which a store without a handle takes twice.
--   Machine: what a connection stands on, as parameters. Net is the interface of SocketWrapper.h with
--     a clock, MemoryApi the interface of class Memory, and the records of laws say what POSIX,
--     Winsock and the C++ library document.
--   Client (Client.h, Client.cpp): Client/Monad is the private read and send and the state of a
--     handler; Send, Snapshots, Process and Region have one function per handleCommand method, and
--     Dispatch the switch of dispatchCommand. Client/Protection translates protections and types.
--     Client/Spec is the protocol: the requests, their bytes, and the answer to each. Client/Answers
--     and the files below it compare the handlers with it, by the rules of Client/Facts and
--     Facts/Blocks.
--     Client/Effects lists the calls of ClientState that an answer makes. Client/Framing is the other
--     end: a reader that finds where each reply ends, from the lengths in it.
--     Client/Polling is CMD_GETARCHITECTURE, which is not in that protocol, as its request may come
--     without a payload. Client/Faults, Client/Lengths and Client/Blocking are about lengths that
--     are not met in that protocol: of a name, of a buffer, of a read. Client/Sound follows every
--     handler on any input, by rules for its steps (Sound/Steps), and Client/Names the names in the
--     snapshots.
--   Server (Server.h, Server.cpp): Server is handleClientConnection, the loop that reads a byte and
--     calls dispatchCommand until the connection ends, with whole connections in Server/Session.
--     Server/Accept is init, start and the accept loop, Server/Joining the server's threads until join
--     returns, Server/Crash what ends the whole process, Server/Valid what a connection, by the
--     answers of Client/Valid, makes of the shared handles,
--     Server/Turns the same beside other threads, Server/Sound what it does on any input, and
--     Server/Replies what a client can make of the stream of replies.
--   Sockets (SocketWrapper.h, LinuxSocketWrapper.cpp, WinsockWrapper.cpp): one function per method,
--     on the calls of POSIX or Winsock, which are the parameters Posix and Winsock. Sockets/Typed is
--     the templates for single values, Sockets/LinuxPoll and Sockets/WindowsPoll are
--     CMD_GETARCHITECTURE on either system, Sockets/Descriptors the numbers of sockets that are
--     closed and destroyed.
--   PciLeech (PCILeechWrapper.h): one function per method, on the functions of the VMM library, which
--     are the parameter Vmm. PciLeech/Device is the device that class Memory has through it, with the
--     arguments of the calls in Memory.cpp.
--   Program (main.cpp): Server, Client, ClientState, Memory and the Linux socket put together, on
--     POSIX and a device. Program/Sizes and Program/Names are what class Memory hands to a Client,
--     Program/Library the program on the VMM library. Program/Main is the start of main on either
--     system, Program/Ending its end.
--   Tests: a small machine and a small device, on which the theorems are applied.
--
-- Numbers are natural numbers. A word of w bits is its bit pattern, with `% 2 ^ w` where the source
-- wraps; -1 of a signed type is 2 ^ w - 1. Texts and buffers are lists of bytes. A handler is a
-- function of its state (Ctx) that ends with a result or a fault: an exception that nothing catches,
-- an access outside an array, a text with no zero, or a loop that has used up its fuel.
--
-- Fuel stands in two places. The polling loop of handleCommandGetArchitecture has eleven rounds: the
-- source gives up after 1000 ms and sleeps 100 ms in each round. The wait of dispatchLoop has two: it
-- sleeps longer than it waits at most. The loops of a connection and of the dispatcher run for a
-- number of rounds that their theorems quantify over. The reader of Client/Framing has as many rounds
-- for module entries as there are bytes. Every other loop is over a list.
--
-- In Memory/Alone the dispatcher runs for a number of rounds that a caller alone is waited for; the first
-- is enough for a read of less than 10 ^ 9 bytes, and no number is for a larger one. Program takes that
-- number from the platform, and so it takes whether `dispatch` gives a buffer back before the caller
-- has copied it, and what the buffer holds then.
--
-- The protocol of Client/Spec holds reads of less than 10 ^ 9 bytes, which class Memory answers; what
-- becomes of larger ones is stated apart. In Program the reads of a connection do not meet those of
-- others in the backlog, as the state of the device is passed from call to call; what happens where
-- they meet is Memory/Traffic. There the loop is not stopped, and its wait is Memory/Pacing.
--
-- Not modelled: the log lines, addresses of peers, thread ids, the flags of main. A method that
-- holds a mutex is one step. Outside Memory/Alone, Memory/Handover, Memory/Traffic and
-- Memory/Lifecycle a pointer is the value that it points to, so that what frees memory while another
-- thread reads it does not show.
pub mod Prelude
pub mod Commands
pub mod Memory
pub mod ClientState
pub mod Machine
pub mod Client
pub mod Sockets
pub mod Server
pub mod PciLeech
pub mod Program
pub mod Tests
