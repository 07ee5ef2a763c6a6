-- ===== src/Mm.antt =====
-- The memory allocator, lab6/OrangePiVer/Src/mm.c.
pub mod State
pub mod PageList
pub mod Buddy
pub mod Chunk
pub mod Startup
mod Init
