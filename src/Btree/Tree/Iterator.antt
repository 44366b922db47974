-- ===== src/Btree/Tree/Iterator.antt =====
-- `BTree::Iterator` of lib/btree.h and lib/btree.cpp. The pointer `cur` is the index of its block.
use example_engine.Prelude.{
  ℕ, zero, suc, ◌+◌, ◌-◌, ◌*◌, Bool, true, false, ◌&&◌, ◌||◌, not, Option, none, some, ltb, ◌==◌,
  if◌then◌else◌, ◌>>=◌,
}
use example_engine.Prelude.Int.{is_zero}
use example_engine.Block.Header.{block_size}
use example_engine.Btree.Order.{Compare}
use example_engine.Btree.Node
use example_engine.Btree.Node.{Location, Value, bytes, NodeBlock}
use example_engine.Btree.Tree.{
  node, BTree, write, as_node, as_place, get_node_block, get_child, get_value,
}
use example_engine.Btree.Tree.Insert.{get_leaf}

-- `enum IterFlag`
pub data IterFlag : Type 0 where
  exact_key key_or_next key_or_prev after_key before_key : IterFlag

-- An iterator that stands at an item; before it is placed `cur` is null, and every use of it faults.
pub record Iterator : Type 0 where
  pub cur : ℕ
  pub index : ℕ

-- the first item of a node, and the last
abbrev pub at_first : ℕ → Iterator
at_first i = record { cur = i; index = 0 }

module _ {K : Type 0} where
  abbrev pub at_last : ℕ → NodeBlock K → Iterator
  at_last i n = record { cur = i; index = n.count - 1 }

  abbrev pub node_at : BTree K → Iterator → Option (NodeBlock K)
  node_at t it = as_node (t.blocks it.cur)

  -- One move of `next`: the next item of the node, or the first of the next node; `false` at the end.
  unfoldable pub step_next : BTree K → Iterator → Option (Bool × Iterator)
  unfolding get_node_block
  step_next t it = do
    n ← node_at t it
    let next = n.header.next
    (if ltb (it.index + 1) n.count
        then some (true, record it { index = it.index + 1 })
        else if it.index + 1 == n.count
        then (if next == 0
            then some (false, it)
            else (get_node_block t next >>= λ _. some (true, at_first next)))
        else some (true, it))

  -- `while (cur->removed(index)) ...`
  unfoldable pub skip_next : ℕ → BTree K → Iterator → Option (Bool × Iterator)
  skip_next zero t it = none
  skip_next (suc fuel) t it = do
    n ← node_at t it
    let on =
        (step_next t it >>= λ (moved, it').
        let rest = skip_next fuel t it' in if moved then rest else some (false, it'))
    (if Node.removed n it.index then on else some (true, it))

  -- one move of `prev`
  unfoldable pub step_prev : BTree K → Iterator → Option (Bool × Iterator)
  unfolding get_node_block
  step_prev t it = do
    n ← node_at t it
    let last = n.header.last
    (if ltb 0 it.index
        then some (true, record it { index = it.index - 1 })
        else if last == 0
        then some (false, it)
        else (get_node_block t last >>= λ p. some (true, at_last last p)))

  -- the test on `removed` and the recursive call of `prev`
  unfoldable pub skip_prev : ℕ → BTree K → Iterator → Option (Bool × Iterator)
  unfolding step_prev Node.removed
  skip_prev zero t it = none
  skip_prev (suc fuel) t it = do
    n ← node_at t it
    let on =
        (step_prev t it >>= λ (moved, it').
        let rest = skip_prev fuel t it' in if moved then rest else some (false, it'))
    (if Node.removed n it.index then on else some (true, it))

  -- as many rounds as there can be items
  abbrev pub skip_fuel : BTree K → ℕ
  skip_fuel t = t.meta.count_of_block * block_size + 1

  unfoldable pub next : BTree K → Iterator → Option (Bool × Iterator)
  next t it = do
    (moved, it') ← step_next t it
    let rest = skip_next (skip_fuel t) t it'
    (if moved then rest else some (false, it'))

  unfoldable pub prev : BTree K → Iterator → Option (Bool × Iterator)
  unfolding step_prev skip_prev
  prev t it = do
    (moved, it') ← step_prev t it
    let rest = skip_prev (skip_fuel t) t it'
    (if moved then rest else some (false, it'))

  -- the walk down the first children
  unfoldable pub first_leaf_from : ℕ → BTree K → ℕ → Option ℕ
  unfolding Node.leaf get_node_block get_child
  first_leaf_from zero t i = none
  first_leaf_from (suc fuel) t i = do
    n ← get_node_block t i
    let down = get_child n 0 >>= λ c. first_leaf_from fuel t c
    (if Node.leaf n then some i else down)

  unfoldable pub last_leaf_from : ℕ → BTree K → ℕ → Option ℕ
  unfolding Node.leaf get_node_block get_child
  last_leaf_from zero t i = none
  last_leaf_from (suc fuel) t i = do
    n ← get_node_block t i
    let down = get_child n (n.count - 1) >>= λ c. last_leaf_from fuel t c
    (if Node.leaf n then some i else down)

  unfoldable pub first : BTree K → Option (Bool × Iterator)
  unfolding first_leaf_from Node.empty Node.removed next
  first t = do
    i ← first_leaf_from (t.meta.count_of_block + 1) t t.root
    n ← as_node (t.blocks i)
    (if Node.empty n
        then some (false, at_first i)
        else if Node.removed n 0
        then next t (at_first i)
        else some (true, at_first i))

  unfoldable pub last : BTree K → Option (Bool × Iterator)
  unfolding last_leaf_from Node.empty Node.removed prev
  last t = do
    i ← last_leaf_from (t.meta.count_of_block + 1) t t.root
    n ← as_node (t.blocks i)
    (if Node.empty n
        then some (false, at_last i n)
        else if Node.removed n (n.count - 1)
        then prev t (at_last i n)
        else some (true, at_last i n))

  -- The tree after the flag of the current item was cleared.
  unfoldable pub remove : BTree K → Iterator → Option (BTree K)
  unfolding Node.remove_by_flag
  remove t it = do n ← node_at t it; some (write t it.cur (node (Node.remove_by_flag n it.index)))

  unfoldable pub get_key : BTree K → Iterator → Option K
  unfolding Node.get_key
  get_key t it = do n ← node_at t it; some (Node.get_key n it.index)

-- What `Iterator::getValue` points to: the value bytes in the node, or an offset in a data block;
-- `null` is the null pointer of a place that holds nothing.
pub data Pointer : Type 0 where
  in_node : Value → Pointer
  in_block : ℕ → ℕ → Pointer
  null : Pointer

module _ {K : Type 0} where
  unfoldable pub value_of : BTree K → Iterator → Option Pointer
  unfolding Node.get_value get_value
  value_of t it = do
    n ← node_at t it
    let v = Node.get_value n it.index
    (if t.is_const_value_size
        then some (in_node v)
        else (as_place v >>= λ loc. get_value t loc >>= λ found.
            some (elim found [ none ↦ null | some (i, off) ↦ in_block i off ])))

-- the flags for which the item in front of the key is wanted
abbrev pub goes_back : IterFlag → Bool
goes_back key_or_prev = true
goes_back before_key = true
goes_back _ = false

module _ {K : Type 0} (cmp : Compare K) where
  -- the `switch` of `locate`, at an item that is not below the key; `res` is the comparison with it
  unfoldable pub locate_at : BTree K → Iterator → IterFlag → Bool → Bool → Option (Bool × Iterator)
  unfolding next prev
  locate_at t it exact_key is_same is_removed = some (is_same && not is_removed, it)
  locate_at t it key_or_next is_same is_removed = if is_removed then next t it else some (true, it)
  locate_at t it key_or_prev is_same is_removed =
      if not is_same || is_removed then prev t it else some (true, it)
  locate_at t it after_key is_same is_removed =
      if is_same || is_removed then next t it else some (true, it)
  locate_at t it before_key is_same is_removed = prev t it

  unfoldable pub locate : BTree K → K → IterFlag → Option (Bool × Iterator)
  locate t key flag = do
    cur ← get_leaf cmp t key
    n ← as_node (t.blocks cur)
    let index = Node.lub cmp n key
    let it = (let r : Iterator = record { cur = cur; index = index } in r)
    let behind =
        (if Node.empty n
          then some (false, it)
          else if goes_back flag
          then (if Node.removed n (index - 1)
              then prev t (at_last cur n)
              else some (true, at_last cur n))
          else some (false, it))
    (if index == n.count
        then behind
        else locate_at t it flag (is_zero (Node.compare_at cmp n index key)) (Node.removed n index))
