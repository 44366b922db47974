-- ===== src/Lib.antt =====
-- A storage engine for MySQL: rows in B+trees of blocks of 4096 bytes, kept in files, under the
-- engine's handler, with a small store of rows that runs on the same tree.
--
-- The parts and the files that model them (paths from the repository's root):
-- - Block: lib/block.h and lib/block.cpp. Block.Header is `BlockHeader`, Block.Data `DataBlock` on the
--   bytes of its page (a function from offsets, little-endian), Block.Checksum `compute` and `check`.
-- - Btree: lib/btree.h and lib/btree.cpp. Btree.Order is `Compare`; Btree.Node is `NodeBlock`, with one
--   function for each member, the memory moves on `kv` written as functions of the slot; Btree.Tree is
--   `BTree` over a store of blocks by index, Btree.Tree.Insert `insert` and `put`, Btree.Tree.Create
--   `create` and `open`, Btree.Tree.Iterator `BTree::Iterator`. What a tree promises is an ordered list
--   of entries: Btree.Node.Sorted is the insertion into it and Btree.Node.Live the search in it,
--   Btree.Tree.Shape the shape of nodes that blocks represent and Btree.Tree.Valid the invariant.
-- - Storage: lib/file.h and lib/file.cpp (Storage.File, `MyFile` over the file functions of Windows),
--   lib/buffer.h and lib/buffer.cpp (Storage.Buffer, `BufferManager` with its pool as a list).
-- - Matu: lib/matu.h. Matu.Condition is `conditionParse` (sql text is a list of character codes),
--   Matu.Row `encode` and `decode`, Matu.Store `insert`, `query`, `del` and `update`.
-- - Handler: ha_example.cc and ha_example.h. Handler.Table is what the engine reads of the server's
--   tables, Handler.Keys the comparisons and `pack_key`, Handler.Rows `pack_row` and `unpack_row`,
--   Handler.Engine the operations of `ha_example` on rows, Handler.Lifecycle its `create`, `open` and
--   `close`, over the files of the two trees.
--
-- How they interact: a tree keeps its nodes and values in blocks, which the buffer hands out by index
-- and writes to the file; Btree.Tree sees the blocks as the buffer shows them (`view` of
-- Storage.Buffer.View). Matu.Store and Handler.Engine use a tree through the records `Index` and
-- `Trees`, whose fields are the operations of the tree and its iterator; what the
-- engine relies on is `IsMap` of Handler.Engine.Contents, which Handler.Engine.Kept shows of the valid
-- B+trees. The handler keeps two trees, one with the rows under the primary key and one with the keys
-- of all secondary indexes, each behind its index number. Its files are a parameter, which
-- Handler.Lifecycle.Disk fills with what `create` and `open` of a tree write and read.
--
-- The integers are natural numbers; where the code's type is narrower and the value can leave it, the
-- wrap-around is written out (`u16`, `u32`). A key is of any type with a comparison; the theorems ask
-- that it is a strict weak order. A result `none` is a failed `assert`, a read outside the memory at
-- hand or another fault.
--
-- Loops: the binary searches of a node run on its number of items, which is proved to be enough. A
-- descent in a tree runs on the number of blocks, which a valid tree's height is below, and a scan
-- along the leaves on as many rounds as all blocks have bytes. `insert_value` runs
-- on fuel, of which two rounds are proved to be enough for a value that a block can hold; for a longer
-- one, up to 2^31 bytes, the recursion of the code does not end.
--
-- Not modelled: the C++ memory of the pool and of iterators, opening and closing of files (a
-- parameter of Handler.Lifecycle, where deleting a tree that could not be opened has no effect), the
-- registration of the plugin, its locks and system variables, and the test programs. The server's
-- fields, `malloc` and the order in which the server calls the handler are parameters.
pub mod Prelude
pub mod Block
pub mod Btree
pub mod Matu
pub mod Storage
pub mod Handler
