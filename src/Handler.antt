-- ===== src/Handler.antt =====
-- ha_example.cc and ha_example.h: the MySQL storage engine over two B+trees.
pub mod Table
pub mod Keys
pub mod Rows
pub mod Engine
pub mod Lifecycle
