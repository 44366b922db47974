-- ===== src/Storage.antt =====
-- The file of a tree (lib/file.h, lib/file.cpp) and the buffer of its blocks (lib/buffer.h,
-- lib/buffer.cpp).
pub mod File
pub mod Buffer
mod Tests
