-- ===== src/Sockets.antt =====
-- SocketWrapper.h and its implementations, on the calls of the operating system, which are
-- parameters: Posix for LinuxSocketWrapper, Winsock for WinsockWrapper.
pub mod Linux
pub mod Typed
pub mod Windows
pub mod Descriptors
pub mod LinuxPoll
pub mod WindowsPoll
