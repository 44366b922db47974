-- ===== src/Btree/Tree/PutTests.antt =====
-- The theorems on `put` and `locate` at a tree whose nodes are full at four items.
use example_engine.Prelude.{ℕ, zero, suc, ◌≤◌, ◌≡◌, refl, false, Option, none, some, [], arith}
use example_engine.Prelude.Int.{ℤ, pos}
use example_engine.Btree.Order.{same, compare_int, compare_int-IsOrder}
use example_engine.Btree.Node
use example_engine.Btree.Node.{Value, NodeBlock}
use example_engine.Btree.Node.Sorted.{is_live}
use example_engine.Btree.Tree.{BTree, get_free_node_block, insert_value}
use example_engine.Btree.Tree.Create.{create, open_, construct}
use example_engine.Btree.Tree.Insert.{
  Outcome, inserted, put, insert, split_root, insert_leaf, after_son, split_son, relink,
  stored_value,
}
use example_engine.Btree.Tree.SplitSon.{capacity}
use example_engine.Btree.Tree.Shape.{Tree, Fits, Means, room}
use example_engine.Btree.Tree.Valid.{Valid}
use example_engine.Btree.Tree.Put.{PutResult, put-insert_sorted}
use example_engine.Btree.Tree.Locate.{Located, locate-Located}
use example_engine.Btree.Tree.Reach.{
  opened, empty_tree, leaf_size, create-Valid, Reached-Valid, locate-put, created, after_put,
}
use example_engine.Btree.Tree.Tests.{blank, blank_data, ten_bytes}

abbrev tree : BTree ℤ
tree = opened blank compare_int 1000 10

abbrev no_entries : Tree ℤ zero
no_entries = empty_tree blank compare_int 1000 10

abbrev value_size : ℕ
value_size = leaf_size blank compare_int 1000 10

value_size-eq : value_size ≡ 10
unfolding create construct
value_size-eq = refl

wide : (h : ℕ) → 3 ≤ room 1000 value_size h
unfolding capacity
wide zero = rw value_size-eq (omega arith)
wide (suc h) = omega arith

create-Valid_example :
    (open_ (create blank 1000 10) ≡ some tree)
    × Valid compare_int 1000 value_size zero tree no_entries
create-Valid_example = create-Valid blank compare_int 1000 10 (let w = wide zero in omega arith)

tree-Valid : Valid compare_int 1000 value_size zero tree no_entries
tree-Valid = create-Valid_example.1

tree_blocks : tree.meta.count_of_block ≡ 2
unfolding create
tree_blocks = refl

five_Fits : Fits ℤ tree (ten_bytes 5)
unfolding create construct
five_Fits e = omega arith

put-insert_sorted_example :
    PutResult blank blank_data compare_int compare_int-IsOrder 1000 value_size wide
      (pos 5)
      (ten_bytes 5)
      (omega arith)
      zero
      tree
      no_entries
      tree-Valid
      five_Fits
      (is_live compare_int (pos 5) [])
put-insert_sorted_example =
    put-insert_sorted blank blank_data compare_int compare_int-IsOrder 1000 value_size wide (pos 5)
      (ten_bytes 5) (omega arith) zero tree no_entries tree-Valid five_Fits
      (omega (arith, tree_blocks))

five_apart : same compare_int (pos 5) (pos 6) ≡ false
unfolding compare_int
five_apart = refl

locate-put_example :
    (t' : BTree ℤ) × (v : Value) × (put blank blank_data compare_int tree (pos 5) (ten_bytes 5) 10
      ≡ some (inserted, t'))
    × Means ℤ t' v (ten_bytes 5)
    × Located compare_int (pos 5) t' (some v)
    × Located compare_int (pos 6) tree none
    × Located compare_int (pos 6) t' none
locate-put_example =
    locate-put blank blank_data compare_int compare_int-IsOrder 1000 10 wide zero tree no_entries
      (pos 5) (ten_bytes 5) tree-Valid (omega arith) five_Fits (omega (arith, tree_blocks)) refl
      (pos 6) five_apart

locate-Located_example : Located compare_int (pos 6) tree none
locate-Located_example =
    locate-Located compare_int (pos 6) compare_int-IsOrder 1000 value_size zero tree no_entries
      tree-Valid

-- the tree after 5 was put
tree_of : Option (Outcome × BTree ℤ) → BTree ℤ
tree_of none = tree
tree_of (some (res, t)) = t

abbrev with_five : BTree ℤ
with_five = tree_of (put blank blank_data compare_int tree (pos 5) (ten_bytes 5) 10)

put_five :
    put blank blank_data compare_int tree (pos 5) (ten_bytes 5) 10 ≡ some (inserted, with_five)
unfolding tree_of create put insert split_root insert_leaf after_son split_son relink stored_value
    insert_value compare_int get_free_node_block Node.empty Node.get_value Node.removed
    Node.compare_at Node.lub Node.set Node.insert_at Node.insert Node.full Node.split Node.max_key
    Node.leaf
put_five = refl

Reached-Valid_example : (h : ℕ) × (T : Tree ℤ h) × Valid compare_int 1000 value_size h with_five T
Reached-Valid_example =
    Reached-Valid blank blank_data compare_int compare_int-IsOrder 1000 10 wide with_five (
      after_put tree with_five (pos 5) (ten_bytes 5) inserted created (omega arith) five_Fits
        (omega (arith, tree_blocks)) put_five)
