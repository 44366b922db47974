-- ===== src/Btree/Tree/LeafInsert.antt =====
-- `insert` at a leaf: a duplicate, a removed item that comes back, or a new item at its place.
use example_engine.Prelude.{
  ℕ, ◌≡◌, refl, ap, true, false, none, some, List, ◌∷◌, ◌++◌, length, arith, ltb, ◌==◌, lt→ltb,
}
use example_engine.Prelude.Int.{is_zero}
use example_engine.Block.Data.{DataBlock}
use example_engine.Btree.Order.{Compare, same}
use example_engine.Btree.Node
use example_engine.Btree.Node.{Value, Slot, NodeBlock, size, lub, inserted, insert_at}
use example_engine.Btree.Node.Items.{items}
use example_engine.Btree.Node.Slots.{kv_at}
use example_engine.Btree.Tree.{node, BTree, write}
use example_engine.Btree.Tree.Insert.{
  Outcome, duplicate, stored_value, value_block, new_value_block, has_key, insert_leaf,
}

module _ {K : Type 0} (blank : NodeBlock K) (blank_data : DataBlock) (cmp : Compare K) where
  pub duplicate_run :
      (t : BTree K) (cur : ℕ) (n : NodeBlock K) (key : K) (value : List ℕ) (size : ℕ)
      → has_key blank blank_data cmp n key (lub cmp n key) ≡ true
      → Node.removed n (lub cmp n key) ≡ false
      → insert_leaf blank blank_data cmp t cur n key value size ≡ some (duplicate, t)
  unfolding insert_leaf
  duplicate_run t cur n key value size e f = rw (e, f) refl

  pub revived_run :
      (t t₁ : BTree K) (cur : ℕ) (n n' : NodeBlock K) (key : K) (value : List ℕ) (size : ℕ)
      (v : Value)
      → has_key blank blank_data cmp n key (lub cmp n key) ≡ true
      → Node.removed n (lub cmp n key) ≡ true
      → stored_value blank blank_data cmp t n.val_size
          (value_block blank blank_data cmp n (lub cmp n key))
          value
          size
        ≡ some (some v, t₁)
      → t₁.blocks cur ≡ node n'
      → insert_leaf blank blank_data cmp t cur n key value size
        ≡ some (Outcome.inserted, write t₁ cur (node (Node.set n' (lub cmp n key) none (some v) 1)))
  unfolding insert_leaf
  revived_run t t₁ cur n n' key value size v e f s at = rw (e, f, s, at) refl

  pub added_run :
      (t t₁ : BTree K) (cur : ℕ) (n n' n'' : NodeBlock K) (key : K) (value : List ℕ) (size : ℕ)
      (v : Value)
      → has_key blank blank_data cmp n key (lub cmp n key) ≡ false
      → stored_value blank blank_data cmp t n.val_size
          (new_value_block blank blank_data cmp t n (lub cmp n key))
          value
          size
        ≡ some (some v, t₁)
      → t₁.blocks cur ≡ node n'
      → insert_at n' key v (lub cmp n key) ≡ some n''
      → insert_leaf blank blank_data cmp t cur n key value size
        ≡ some (Outcome.inserted, write t₁ cur (node n''))
  unfolding insert_leaf
  added_run t t₁ cur n n' n'' key value size v e s at i = rw (e, s, at, i) refl

  pub has_key-slot :
      (n : NodeBlock K) (key : K) (i : ℕ) (pre : List (Slot K)) (s : Slot K) (post : List (Slot K))
      → items n ≡ pre ++ (s ∷ post)
      → i ≡ length pre
      → (has_key blank blank_data cmp n key i ≡ same cmp s.key key)
        × (Node.removed n i ≡ (s.flag == 0))
  unfolding Node.compare_at Node.get_key Node.removed
  has_key-slot n key i pre s post e h =
      let (at, inside) = kv_at n i pre s post e h in
      let q = lt→ltb i n.count inside in
      (rw q (ap (λ (r : Slot K). is_zero (cmp r.key key)) at), ap (λ (r : Slot K). r.flag == 0) at)

  pub has_key-end :
      (n : NodeBlock K) (key : K) (i : ℕ)
      → i ≡ n.count
      → has_key blank blank_data cmp n key i ≡ false
  has_key-end n key i h = let e : ltb i n.count ≡ false = ground arith in rw e refl
