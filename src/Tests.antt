-- ===== src/Tests.antt =====
-- The theorems at concrete inputs.
mod Maps
mod Sessions
mod Buffers
mod Manager
mod Pipes
mod Client
mod Daemon
