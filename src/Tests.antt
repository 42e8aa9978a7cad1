-- ===== src/Tests.antt =====
-- The theorems of the other files at concrete inputs.
mod Toy
mod Requests
mod Sounds
mod Handles
mod Layouts
mod Reads
mod Accepts
mod Programs
mod Windows
mod Traffics
mod Threads
mod Library
