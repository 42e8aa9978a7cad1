-- ===== src/Memory.antt =====
-- Memory.h and Memory.cpp: the snapshots of processes and regions, the reads that wait in a backlog
-- for the thread that dispatches them, and the device behind PCILeechWrapper.h.
pub mod Region
pub mod Backlog
pub mod Device
pub mod Handover
pub mod Pacing
pub mod Lifecycle
pub mod Traffic
pub mod Alone
pub mod Api
