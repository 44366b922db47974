-- ===== src/Block.antt =====
-- lib/block.h and lib/block.cpp: the header that every block has, the data block, and the checksum.
pub mod Header
pub mod Data
pub mod Checksum
mod Tests
