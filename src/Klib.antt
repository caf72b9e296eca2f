-- ===== src/Klib.antt =====
-- The C library of libs/klib: memory blocks, strings, and the allocator.
pub mod Heap
pub mod Mem
mod Tests
pub mod Text
