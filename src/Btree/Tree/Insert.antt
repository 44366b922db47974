-- ===== src/Btree/Tree/Insert.antt =====
-- `getLeaf`, `insert` and `put` of lib/btree.cpp.
use example_engine.Prelude.{
  ℕ, zero, suc, ◌+◌, ◌-◌, Bool, ◌&&◌, Option, none, some, List, length, take, leb, assert, ltb,
  ◌==◌, if◌then◌else◌, ◌>>=◌, ◌>>◌,
}
use example_engine.Prelude.Int.{is_zero}
use example_engine.Block.Header.{node_block, u32}
use example_engine.Block.Data.{DataBlock}
use example_engine.Btree.Order.{Compare}
use example_engine.Btree.Node
use example_engine.Btree.Node.{Location, Value, child, place, bytes, NodeBlock}
use example_engine.Btree.Tree.{
  node, BTree, node_value_size, write, as_node, as_place, get_node_block, get_child,
  get_free_node_block, insert_value,
}

-- The results of `insert` and `put`: 1, 0 and -1.
pub data Outcome : Type 0 where
  inserted duplicate failed : Outcome

module _ {K : Type 0} where
  -- The child that an index of `lub` leads to: the last one also for a key above all.
  abbrev pub child_index : NodeBlock K → ℕ → ℕ
  child_index n index = if index == n.count then index - 1 else index

  -- the steps that reach a leaf in every tree: one more than it has blocks
  abbrev pub depth_fuel : BTree K → ℕ
  depth_fuel t = t.meta.count_of_block + 1

module _ {K : Type 0} (cmp : Compare K) where
  -- The walk from a node to the leaf for a key; the fuel is the height.
  unfoldable pub get_leaf_from : ℕ → BTree K → K → ℕ → Option ℕ
  get_leaf_from zero t key i = none
  get_leaf_from (suc fuel) t key i = do
    n ← get_node_block t i
    let down = get_child n (child_index n (Node.lub cmp n key)) >>= λ c. get_leaf_from fuel t key c
    if Node.leaf n then some i else down

  unfoldable pub get_leaf : BTree K → K → Option ℕ
  unfolding get_leaf_from
  get_leaf t key = get_leaf_from (depth_fuel t) t key t.root

-- The rounds of `insertValue` that the tree's own data blocks need.
abbrev pub value_fuel : ℕ
value_fuel = 3

module _ {K : Type 0} (blank : NodeBlock K) (blank_data : DataBlock) (cmp : Compare K) where
  -- What goes into a leaf for a value: the `valSize` bytes that `memcpy` reads, or the place that
  -- `insertValue` gives it from the block `index` on.
  unfoldable pub stored_value :
      BTree K → ℕ → Option ℕ → List ℕ → ℕ → Option (Option Value × BTree K)
  stored_value t val_size index value size =
      if t.is_const_value_size
      then (do assert (leb val_size (length value)); some (some (bytes (take val_size value)), t))
      else do
        i ← index
        (loc, t') ← insert_value blank_data value_fuel t i value size
        some (elim loc [ none ↦ none | some l ↦ some (place l) ], t')

  -- The block that holds the value of the item at `index`.
  abbrev pub value_block : NodeBlock K → ℕ → Option ℕ
  value_block n index = as_place (Node.get_value n index) >>= λ l. some l.index

  -- where the value of a new item goes: beside that of a neighbour, or into a new block
  abbrev pub new_value_block : BTree K → NodeBlock K → ℕ → Option ℕ
  new_value_block t n index =
      if Node.empty n
      then some t.meta.count_of_block
      else value_block n (index - (if index == n.count then 1 else 0))

  -- the item at `index` has the key
  abbrev pub has_key : NodeBlock K → K → ℕ → Bool
  has_key n key index = ltb index n.count && is_zero (Node.compare_at cmp n index key)

  -- `insert` at a leaf; a removed item with the key is revived
  unfoldable pub insert_leaf :
      BTree K → ℕ → NodeBlock K → K → List ℕ → ℕ → Option (Outcome × BTree K)
  insert_leaf t cur n key value size =
      let index = Node.lub cmp n key in
      let revived = (do
        (v, t') ← stored_value t n.val_size (value_block n index) value size
        n' ← as_node (t'.blocks cur)
        some (elim v [
          | none ↦ (failed, t')
          | some v' ↦ (inserted, write t' cur (node (Node.set n' index none (some v') 1)))
        ])) in
      let added = (do
        (v, t') ← stored_value t n.val_size (new_value_block t n index) value size
        n' ← as_node (t'.blocks cur)
        elim v [
          | none ↦ some (failed, t')
          | some v' ↦ (do
            n'' ← Node.insert_at n' key v' index
            some (inserted, write t' cur (node n'')))
        ]) in
      if has_key n key index
      then (if Node.removed n index then revived else some (duplicate, t))
      else added

  -- `oldnext->header.last = next`, if there is a next node
  unfoldable pub relink : BTree K → ℕ → ℕ → Option (BTree K)
  unfolding get_node_block
  relink t old next = if old == 0 then some t else do
    n ← get_node_block t old
    some (write t old (node (record n { header = record n.header { last = next } })))

  -- The split of the child `son`, to which the slot at `index` of the block `cur` leads.
  unfoldable pub split_son : BTree K → ℕ → ℕ → ℕ → Option (BTree K)
  split_son t cur index son = do
    s ← as_node (t.blocks son)
    let (next, t₁) = get_free_node_block blank t s.header.type s.key_size s.val_size
    fresh ← as_node (t₁.blocks next)
    let (l, r) = Node.split s fresh
    t₂ ← relink t₁ s.header.next next
    let r' = record r { header = record r.header { next = s.header.next; last = s.header.index } }
    let l' = record l { header = record l.header { next = next } }
    let t₃ = write (write t₂ next (node r')) son (node l')
    n ← as_node (t₃.blocks cur)
    n' ←
        Node.insert cmp (Node.set n index none (some (child next)) 1) (Node.max_key l')
          (child s.header.index)
    some (write t₃ cur (node n'))

  -- after `insert` into the child `son`: the greatest key of the node, and the split
  unfoldable pub after_son : BTree K → ℕ → ℕ → ℕ → Bool → Option (Outcome × BTree K)
  after_son t cur index son max_key_flag = do
    s ← as_node (t.blocks son)
    n ← as_node (t.blocks cur)
    let t' =
        (if max_key_flag
          then write t cur (node (Node.set n index (some (Node.max_key s)) none 1))
          else t)
    (if Node.full s
        then (split_son t' cur index son >>= λ t''. some (inserted, t''))
        else some (inserted, t'))

  -- `insert`, with the height for its fuel
  unfoldable pub insert : ℕ → BTree K → K → List ℕ → ℕ → ℕ → Option (Outcome × BTree K)
  insert zero t key value size cur = none
  insert (suc fuel) t key value size cur = do
    n ← as_node (t.blocks cur)
    let index = Node.lub cmp n key
    let down = (do
      son ← get_child n (child_index n index)
      _ ← get_node_block t son
      (res, t') ← insert fuel t key value size son
      elim res [
        | inserted ↦ after_son t' cur (child_index n index) son (index == n.count)
        | other ↦ some (other, t')
      ])
    (if Node.leaf n then insert_leaf t cur n key value size else down)

  -- the split of the root, which becomes the first child of a new root
  unfoldable pub split_root : BTree K → Option (BTree K)
  split_root t = do
    old ← as_node (t.blocks t.root)
    let (top, t₁) = get_free_node_block blank t node_block t.key_size node_value_size
    let (next, t₂) = get_free_node_block blank t₁ old.header.type t.key_size old.val_size
    new_root ← as_node (t₂.blocks top)
    fresh ← as_node (t₂.blocks next)
    let with_last = Node.set new_root 1 (some (Node.max_key old)) (some (child next)) 1
    let (l, r) = Node.split old fresh
    let l' = record l { header = record l.header { next = next } }
    let r' = record r { header = record r.header { last = l.header.index } }
    let full_root =
        record (Node.set with_last 0 (some (Node.max_key l')) (some (child l.header.index)) 1) {
          count = 2;
        }
    some (record (write (write (write t₂ next (node r')) t.root (node l')) top (node full_root)) {
      meta = record t₂.meta { root = top };
      root = top;
    })

  -- `put`
  unfoldable pub put : BTree K → K → List ℕ → ℕ → Option (Outcome × BTree K)
  put t key value size = do
    (res, t') ← insert (depth_fuel t) t key value size t.root
    elim res [
      | inserted ↦ (do
        let t'' = record t' {
          meta = record t'.meta { count_of_item = u32 (t'.meta.count_of_item + 1) };
        }
        n ← as_node (t''.blocks t''.root)
        (if Node.full n
            then (split_root t'' >>= λ t₃. some (inserted, t₃))
            else some (inserted, t'')))
      | other ↦ some (other, t')
    ]
