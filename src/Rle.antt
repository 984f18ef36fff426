-- ===== src/Rle.antt =====
-- src/orc/RLE2.cpp.
pub mod Word
pub mod Bytes
pub mod Longs
pub mod Header
pub mod Direct
pub mod Repeats
pub mod Delta
pub mod Patched
pub mod Next
pub mod Vector
pub mod Vectorized
mod Tests
