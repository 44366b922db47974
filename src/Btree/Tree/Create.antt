-- ===== src/Btree/Tree/Create.antt =====
-- The constructor, `create` and `open` of `BTree`. What `create` writes to its file is the blocks of
-- the tree and the metadata that `open` reads back; all reads and writes of the
-- file are taken to succeed.
use example_engine.Prelude.{ℕ, Option, some, ltb, leb, ◌==◌, if◌then◌else◌, ◌>>=◌}
use example_engine.Block.Header.{leaf_block}
use example_engine.Btree.Node
use example_engine.Btree.Node.{NodeBlock}
use example_engine.Btree.Tree.{Block, node, unused, Metadata, BTree, get_node_block}

-- `sizeof(LeafValue)`: a block's index and a position
abbrev pub leaf_value_size_of : ℕ
leaf_value_size_of = 6

abbrev pub no_metadata : Metadata
no_metadata = record { root = 0; count_of_item = 0; count_of_block = 0; number_of_block = 0 }

module _ {K : Type 0} where
  -- `BTree::BTree`, over the blocks and the metadata of a file
  unfoldable pub construct : (ℕ → Block K) → Metadata → ℕ → ℕ → BTree K
  construct blocks meta key_size value_size = record {
    blocks = blocks;
    meta = meta;
    root = 0;
    key_size = key_size;
    leaf_value_size = if leb 256 value_size then leaf_value_size_of else value_size;
    is_const_value_size = ltb value_size 256;
  }

  abbrev pub empty_file : ℕ → Block K
  empty_file i = unused

  -- `create`: an empty leaf in block 1 for the root, the metadata in block 0
  unfoldable pub create : NodeBlock K → ℕ → ℕ → BTree K
  unfolding construct Node.init
  create blank key_size value_size =
      let t = construct empty_file no_metadata key_size value_size in
      let root = Node.init blank 1 leaf_block key_size t.leaf_value_size in
      record t {
        blocks = λ i. if i == 1 then node root else unused;
        meta = record { root = 1; count_of_item = 0; count_of_block = 2; number_of_block = 32 };
      }

  -- `open`: the root is the block that the metadata names
  unfoldable pub open_ : BTree K → Option (BTree K)
  unfolding get_node_block
  open_ t = do _ ← get_node_block t t.meta.root; some (record t { root = t.meta.root })
