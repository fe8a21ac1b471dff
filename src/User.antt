-- ===== src/User.antt =====
-- The user library of oslab6/lib.
pub mod Strings
pub mod Blocks
pub mod Pipe
pub mod Descriptors
pub mod Format
pub mod Printf
pub mod Files
pub mod Args
pub mod Readline
pub mod Fork
pub mod Client
