-- ===== src/Btree/Node.antt =====
-- `NodeBlock` of lib/btree.h and lib/btree.cpp. A slot of `kv` is a key, the flag byte and a value;
-- slots from `count` on hold what was left there. A return of `none` is a failed `assert`.
pub mod Search
pub mod Items
pub mod Laws
pub mod Sorted
pub mod Slots
pub mod Live
mod Tests
use example_engine.Prelude.{
  ℕ, zero, suc, ◌+◌, ◌-◌, ◌*◌, ◌/◌, ◌≤◌, Bool, true, false, ◌&&◌, Option, none, some, List, [], ◌∷◌,
  leb, ltb, ◌==◌, if◌then◌else◌, ◌>>=◌, ◌>>◌, assert,
}
use example_engine.Prelude.Int.{ℤ, pos, negsuc, negative, positive, is_zero}
use example_engine.Block.Header
use example_engine.Block.Header.{BlockHeader, BlockType, leaf_block, block_size, u16}
use example_engine.Btree.Order.{Compare, lt}

-- where a value of variable size is kept
pub record Location : Type 0 where
  pub index : ℕ
  pub position : ℕ

-- What the value bytes of a slot stand for: a child's block (`NodeValue`), the place of a value in
-- a data block (`LeafValue`), or the bytes of a value of constant size.
pub data Value : Type 0 where
  child : ℕ → Value
  place : Location → Value
  bytes : List ℕ → Value

pub record Slot (K : Type 0) : Type 0 where
  pub key : K
  pub flag : ℕ
  pub value : Value

pub record NodeBlock (K : Type 0) : Type 0 where
  pub header : BlockHeader
  pub count : ℕ
  pub key_size : ℕ
  pub val_size : ℕ
  pub kv : ℕ → Slot K

-- `sizeof(NodeBlock)`: the header, three `u16` and a pointer of eight bytes
abbrev pub node_size : ℕ
node_size = 34

-- the new value unless the pointer is null
abbrev pub or_old {ℓ} : {A : Type ℓ} → Option A → A → A
or_old none old = old
or_old (some new) old = new

module _ {K : Type 0} where
  unfoldable pub init : NodeBlock K → ℕ → BlockType → ℕ → ℕ → NodeBlock K
  unfolding Header.init
  init n index type key_size val_size = record n {
    header = record (Header.init n.header index) { type = type };
    count = 0;
    key_size = key_size;
    val_size = val_size;
  }

  -- one byte for the flag
  unfoldable pub size_of_item : NodeBlock K → ℕ
  size_of_item n = u16 (n.key_size + n.val_size + 1)

  unfoldable pub size : NodeBlock K → ℕ
  unfolding size_of_item
  size n = (block_size - node_size) / size_of_item n

  -- `full`, for a node with `count <= size()`, which it asserts
  unfoldable pub full : NodeBlock K → Bool
  unfolding size
  full n = n.count == size n

  unfoldable pub empty : NodeBlock K → Bool
  empty n = n.count == 0

  unfoldable pub leaf : NodeBlock K → Bool
  leaf n = elim n.header.type [ leaf_block ↦ true | _ ↦ false ]

  unfoldable pub get_key : NodeBlock K → ℕ → K
  get_key n index = (n.kv index).key

  unfoldable pub get_value : NodeBlock K → ℕ → Value
  get_value n index = (n.kv index).value

  -- called on nodes that are not empty
  unfoldable pub max_key : NodeBlock K → K
  max_key n = (n.kv (n.count - 1)).key

  unfoldable pub removed : NodeBlock K → ℕ → Bool
  removed n index = (n.kv index).flag == 0

  -- The items from `index` on move up by one slot.
  abbrev pub kv_insert : (ℕ → Slot K) → ℕ → ℕ → Slot K → ℕ → Slot K
  kv_insert kv count index s j =
      if ltb j index
      then kv j
      else if j == index
      then s
      else if leb j count
      then kv (j - 1)
      else kv j

  -- the node after the memory moves of `insert`; the flag of a new item is 1
  unfoldable pub inserted : NodeBlock K → K → Value → ℕ → NodeBlock K
  inserted n key value index = record n {
    kv = kv_insert n.kv n.count index (record { key = key; flag = 1; value = value });
    count = u16 (n.count + 1);
  }

  -- `insert(key, value, index)`
  unfoldable pub insert_at : NodeBlock K → K → Value → ℕ → Option (NodeBlock K)
  unfolding size inserted
  insert_at n key value index = do
    assert (leb index n.count)
    assert (ltb n.count (size n))
    some (inserted n key value index)

  -- A null key or value leaves the old one.
  unfoldable pub set : NodeBlock K → ℕ → Option K → Option Value → ℕ → NodeBlock K
  set n index key value flag = record n {
    kv = λ j.
        if j == index
        then record {
          key = or_old key (n.kv j).key;
          flag = flag;
          value = or_old value (n.kv j).value;
        }
        else n.kv j;
  }

  -- This node and `next`, after the upper half of the items has moved over.
  unfoldable pub split : NodeBlock K → NodeBlock K → NodeBlock K × NodeBlock K
  split n next = (
    record n { count = (n.count + 1) / 2 },
    record next {
      kv = λ j. if ltb j (n.count / 2) then n.kv ((n.count + 1) / 2 + j) else next.kv j;
      count = n.count / 2;
    },
  )

  -- the items of `next` behind those of this node
  unfoldable pub merge : NodeBlock K → NodeBlock K → NodeBlock K
  merge n next = record n {
    kv = λ j.
        if leb n.count j && ltb j (n.count + next.count) then next.kv (j - n.count) else n.kv j;
    count = u16 (n.count + next.count);
    header = record n.header { next = next.header.next };
  }

  -- the node after the items behind `index` have moved down by one slot
  unfoldable pub deleted : NodeBlock K → ℕ → NodeBlock K
  deleted n index = record n {
    kv = λ j. if leb index j && ltb j (n.count - 1) then n.kv (j + 1) else n.kv j;
    count = n.count - 1;
  }

  unfoldable pub remove : NodeBlock K → ℕ → Option (NodeBlock K)
  unfolding deleted
  remove n index = do assert (ltb index n.count); some (deleted n index)

  unfoldable pub remove_by_flag : NodeBlock K → ℕ → NodeBlock K
  unfolding set
  remove_by_flag n index = set n index none none 0

module _ {K : Type 0} (cmp : Compare K) where
  -- `find`, with -1 for no such key. Each round narrows [lo, hi), so `count` rounds are enough.
  unfoldable pub find_loop : NodeBlock K → K → ℕ → ℕ → ℕ → ℤ
  find_loop n key zero lo hi = negsuc 0
  find_loop n key (suc fuel) lo hi =
      let mid = (lo + hi) / 2 in
      let res = cmp (n.kv mid).key key in
      let below = find_loop n key fuel lo mid in
      let above = find_loop n key fuel (mid + 1) hi in
      if ltb lo hi
      then (if is_zero res then pos mid else if positive res then below else above)
      else negsuc 0

  unfoldable pub find : NodeBlock K → K → ℤ
  unfolding find_loop
  find n key = find_loop n key n.count 0 n.count

  -- the least index whose key is not less than `key`, or `count`
  unfoldable pub lub_loop : NodeBlock K → K → ℕ → ℕ → ℕ → ℕ
  lub_loop n key zero lo hi = lo
  lub_loop n key (suc fuel) lo hi =
      let mid = (lo + hi) / 2 in
      let above = lub_loop n key fuel (mid + 1) hi in
      let below = lub_loop n key fuel lo mid in
      if ltb lo hi then (if lt cmp (n.kv mid).key key then above else below) else lo

  unfoldable pub lub : NodeBlock K → K → ℕ
  unfolding lub_loop
  lub n key = lub_loop n key n.count 0 n.count

  -- `insert(key, value)`
  unfoldable pub insert : NodeBlock K → K → Value → Option (NodeBlock K)
  unfolding insert_at lub
  insert n key value = insert_at n key value (lub n key)

  unfoldable pub compare_at : NodeBlock K → ℕ → K → ℤ
  unfolding get_key
  compare_at n index key = cmp (get_key n index) key
