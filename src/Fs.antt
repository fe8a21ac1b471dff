-- ===== src/Fs.antt =====
-- The file server of oslab6/fs.
pub mod Disk
pub mod Cache
pub mod Bitmap
pub mod Blocks
pub mod Names
pub mod Content
pub mod OpenFiles
pub mod Serve
pub mod Dispatch
