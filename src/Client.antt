-- ===== src/Client.antt =====
-- Client.h and Client.cpp: one connection. A handler is a computation that reads its request from
-- the socket, uses the shared ClientState and the memory device, and sends its reply. Log output is
-- left out.
pub mod Monad
pub mod Facts
pub mod Protection
pub mod Send
pub mod Snapshots
pub mod Process
pub mod Region
pub mod Dispatch
pub mod Spec
pub mod Effects
pub mod Names
pub mod Sound
pub mod Framing
pub mod Valid
pub mod Answers
pub mod Faulting
pub mod Lengths
pub mod Blocking
pub mod Faults
pub mod Polling
