-- ===== src/Btree.antt =====
-- lib/btree.h and lib/btree.cpp: the B+tree, whose nodes are blocks of one file.
pub mod Order
pub mod Node
pub mod Tree
