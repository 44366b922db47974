-- ===== src/Btree/Tree.antt =====
-- `BTree` of lib/btree.h and lib/btree.cpp over the blocks of its file. The tree sees every block by
-- its index, as the buffer hands it out; allocation and reading succeed. A return of `none` is a
-- failed `assert`, a block that is read as what it is not, or recursion that does not end.
pub mod Insert
pub mod Iterator
pub mod Create
pub mod Values
mod NewBlock
pub mod Stored
pub mod Scan
pub mod View
pub mod Fresh
pub mod SplitSon
pub mod SplitParent
pub mod Shape
pub mod Frame
pub mod Storing
pub mod LeafInsert
pub mod LeafTree
pub mod Kids
pub mod Halves
pub mod Taken
pub mod Descent
pub mod AfterSon
pub mod AfterFull
pub mod InsertTree
pub mod InsertInner
pub mod SplitRoot
pub mod RootViews
pub mod Valid
pub mod NewRoot
pub mod Put
pub mod Find
pub mod Locate
pub mod Reach
pub mod Tests
mod PutTests
use example_engine.Prelude.{
  ℕ, zero, suc, ◌+◌, ◌-◌, ◌*◌, ◌≤◌, Bool, true, false, ◌&&◌, not, Option, none, some, List, [], ◌∷◌,
  leb, ltb, ◌==◌, if◌then◌else◌, ◌>>=◌, ◌>>◌, assert, length,
}
use example_engine.Prelude.Int.{ℤ, as_int, le_int, is_zero}
use example_engine.Prelude.Memory.{Memory}
use example_engine.Block.Header.{
  BlockHeader, BlockType, free_block, leaf_block, node_block, u16, u32,
}
use example_engine.Block.Data
use example_engine.Block.Data.{DataBlock}
use example_engine.Btree.Order.{Compare}
use example_engine.Btree.Node
use example_engine.Btree.Node.{Location, Value, child, place, bytes, Slot, NodeBlock}

pub data Block (K : Type 0) : Type 0 where
  node : NodeBlock K → Block K
  values : DataBlock → Block K
  unused : Block K

-- `BTreeMetadata`
pub record Metadata : Type 0 where
  pub root : ℕ
  pub count_of_item : ℕ
  pub count_of_block : ℕ
  pub number_of_block : ℕ

-- `root` is the index of the block that the pointer of that name points to.
pub record BTree (K : Type 0) : Type 0 where
  pub blocks : ℕ → Block K
  pub meta : Metadata
  pub root : ℕ
  pub key_size : ℕ
  pub leaf_value_size : ℕ
  pub is_const_value_size : Bool

-- `sizeof(NodeValue)`
abbrev pub node_value_size : ℕ
node_value_size = 4

-- the index in a `NodeValue`, the place in a `LeafValue`
abbrev pub as_child : Value → Option ℕ
as_child (child i) = some i
as_child _ = none

abbrev pub as_place : Value → Option Location
as_place (place l) = some l
as_place _ = none

-- `if (meta->numberOfBlock == meta->countOfBlock) { meta->numberOfBlock *= 2; ... }`
unfoldable pub grown : Metadata → Metadata
grown m =
    if m.number_of_block == m.count_of_block
    then record m { number_of_block = u32 (m.number_of_block * 2) }
    else m

abbrev pub with_one_block : Metadata → Metadata
with_one_block m = record m { count_of_block = u32 (m.count_of_block + 1) }

module _ {K : Type 0} where
  abbrev pub write : BTree K → ℕ → Block K → BTree K
  write t i b = record t { blocks = λ j. if j == i then b else t.blocks j }

  abbrev pub as_node : Block K → Option (NodeBlock K)
  as_node (node n) = some n
  as_node _ = none

  abbrev pub as_data : Block K → Option DataBlock
  as_data (values b) = some b
  as_data _ = none

  unfoldable pub get_node_block : BTree K → ℕ → Option (NodeBlock K)
  get_node_block t index = do assert (ltb index t.meta.count_of_block); as_node (t.blocks index)

  -- the child that the slot at `index` leads to
  unfoldable pub get_child : NodeBlock K → ℕ → Option ℕ
  unfolding Node.get_value
  get_child n index = as_child (Node.get_value n index)

  -- What `meta->countOfBlock` is read as before `init`: what it holds, or nothing in particular.
  unfoldable pub raw_node : NodeBlock K → Block K → NodeBlock K
  raw_node blank (node n) = n
  raw_node blank _ = blank

  unfoldable pub raw_data : DataBlock → Block K → DataBlock
  raw_data blank (values b) = b
  raw_data blank _ = blank

-- The bytes of a block that was never written: unknown, and so a parameter.
module _ {K : Type 0} (blank : NodeBlock K) where
  -- The index of the new block, and the tree with the block in place. That the buffer has the
  -- block, and has it marked as changed (`assert`), is taken for granted.
  unfoldable pub get_free_node_block : BTree K → BlockType → ℕ → ℕ → ℕ × BTree K
  unfolding grown raw_node Node.init
  get_free_node_block t type key_size value_size =
      let i = t.meta.count_of_block in
      let n = Node.init (raw_node blank (t.blocks i)) i type key_size value_size in
      (i, record (write t i (node n)) { meta = with_one_block (grown t.meta) })

module _ {K : Type 0} (blank_data : DataBlock) where
  unfoldable pub get_free_data_block : BTree K → ℕ × BTree K
  unfolding grown raw_data Data.init
  get_free_data_block t =
      let i = t.meta.count_of_block in
      let b = Data.init (raw_data blank_data (t.blocks i)) i in
      (i, record (write t i (values b)) { meta = with_one_block (grown t.meta) })

  -- the block with that index, a new one at `countOfBlock`
  abbrev pub data_block_at : BTree K → ℕ → Option (ℕ × BTree K)
  data_block_at t index = do
    assert (leb index t.meta.count_of_block)
    some (if index == t.meta.count_of_block then get_free_data_block t else (index, t))

  -- what `insert` of the block `b` at `i` returned
  abbrev pub stored_in :
      BTree K → ℕ → DataBlock → Option (ℕ × DataBlock) → Option Location × BTree K
  stored_in t i b none = (none, t)
  stored_in t i b (some (p, b')) =
      (some (record { index = b.header.index; position = p }), write t i (values b'))

  -- the end of `insertValue`, where the value goes into the block `b` at `i`
  unfoldable pub store_value : BTree K → ℕ → DataBlock → List ℕ → ℕ → Option Location × BTree K
  unfolding Data.insert
  store_value t i b value size = stored_in t i b (Data.insert b value (u16 size))

  -- `insertValue`; the inner `none` is the return of 0. The recursion is on fuel.
  unfoldable pub insert_value : ℕ → BTree K → ℕ → List ℕ → ℕ → Option (Option Location × BTree K)
  unfolding get_free_data_block store_value
  insert_value zero t index value size = none
  insert_value (suc fuel) t index value size = do
    (i, t') ← data_block_at t index
    b ← as_data (t'.blocks i)
    let next = if b.header.next == 0 then t'.meta.count_of_block else b.header.next
    let again = insert_value fuel t' next value size
    if le_int (Data.free_size b) (as_int size) then again else some (store_value t' i b value size)

module _ {K : Type 0} where
  -- `getValue`: the pointer is the block and the offset in it.
  unfoldable pub get_value : BTree K → Location → Option (Option (ℕ × ℕ))
  get_value t loc = do
    assert (ltb loc.index t.meta.count_of_block)
    b ← as_data (t.blocks loc.index)
    some (elim (Data.get b loc.position) [ none ↦ none | some off ↦ some (loc.index, off) ])
