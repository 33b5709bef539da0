-- ===== src/Tests.antt =====
-- The tests of the components, and the theorems at concrete inputs.
mod Buffers
mod Conns
mod Clients
mod Packets
mod Programs
mod Sessions
mod Links
mod Postings
mod Houses
mod Loops
mod Servers
