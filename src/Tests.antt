-- ===== src/Tests.antt =====
-- Concrete states of the kernel and of the disk, and the theorems applied to them.
mod Sample
mod Pages
mod Calls
mod Files
mod Texts
mod Server
mod Prints
mod Traps
mod Opened
mod CommandLine
mod Forks
mod Stabs
mod Clients
