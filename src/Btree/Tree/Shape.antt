-- ===== src/Btree/Tree/Shape.antt =====
-- The tree that the blocks of a `BTree` stand for: a shape of nodes by height, its entries in order,
-- its leaves and its blocks, and when blocks represent it.
use example_engine.Prelude.{
  ℕ, zero, suc, ◌+◌, ◌<◌, ◌≡◌, ◌⊎◌, refl, sym, ap, ◌∙◌, true, some, List, [], ◌∷◌, ◌++◌, map, take,
  length, ◌≤◌, length, arith, append_assoc,
}
use example_engine.Prelude.Memory.{read_bytes}
use example_engine.Block.Header.{leaf_block, node_block}
use example_engine.Block.Data
use example_engine.Block.Data.{DataBlock}
use example_engine.Btree.Node.{Location, Value, child, place, bytes, Slot}
use example_engine.Btree.Node.Sorted.{All, last_key}
use example_engine.Btree.Tree.{values, BTree, node_value_size}
use example_engine.Btree.Tree.View.{View, view_at}
use example_engine.Btree.Tree.SplitSon.{capacity, one_at}

pub record Leaf (K : Type 0) : Type 0 where
  pub index : ℕ
  pub next : ℕ
  pub items : List (Slot K)

-- an inner node over its children, each under its key
pub record Inner (K T : Type 0) : Type 0 where
  pub index : ℕ
  pub next : ℕ
  pub kids : List (K × T)

-- a tree by its height
abbrev pub Tree : Type 0 → ℕ → Type 0
Tree K zero = Leaf K
Tree K (suc h) = Inner K (Tree K h)

abbrev pub flat {ℓ κ} : {A : Type ℓ} {B : Type κ} → (A → List B) → List A → List B
flat f [] = []
flat f (x ∷ xs) = f x ++ flat f xs

pub flat-append {ℓ κ} :
    {A : Type ℓ} {B : Type κ} (f : A → List B) (xs ys : List A)
    → flat f (xs ++ ys) ≡ flat f xs ++ flat f ys
flat-append f [] ys = refl
flat-append f (x ∷ xs) ys =
    ap (λ r. f x ++ r) (flat-append f xs ys) ∙ sym (append_assoc (f x) (flat f xs) (flat f ys))

-- how often a block occurs
abbrev pub occ : ℕ → List ℕ → ℕ
occ i [] = 0
occ i (j ∷ js) = one_at j i + occ i js

pub occ-append : (i : ℕ) (xs ys : List ℕ) → occ i (xs ++ ys) ≡ occ i xs + occ i ys
occ-append i [] ys = omega arith
occ-append i (x ∷ xs) ys = omega (arith, occ-append i xs ys)

-- The leaves follow each other by `next` from block `a` on, and the last leads to `b`.
abbrev pub Linked : ℕ → List (ℕ × ℕ) → ℕ → Type 0
Linked a [] b = a ≡ b
Linked a ((i, next) ∷ leaves) b = (a ≡ i) × Linked next leaves b

pub Linked-append :
    (a b m : ℕ) (xs ys : List (ℕ × ℕ)) → Linked a xs m → Linked m ys b → Linked a (xs ++ ys) b
Linked-append a b m [] ys e h = rw e h
Linked-append a b m ((i, next) ∷ xs) ys (e, h) k = (e, Linked-append next b m xs ys h k)

pub append-Linked :
    (a b : ℕ) (xs ys : List (ℕ × ℕ))
    → Linked a (xs ++ ys) b
    → (m : ℕ) × Linked a xs m × Linked m ys b
append-Linked a b [] ys h = (a, refl, h)
append-Linked a b ((i, next) ∷ xs) ys (e, h) =
    let (m, l, r) = append-Linked next b xs ys h in (m, (e, l), r)

-- how many items a node of the height has room for
abbrev pub room : ℕ → ℕ → ℕ → ℕ
room key_size leaf_value_size zero = capacity key_size leaf_value_size
room key_size leaf_value_size (suc h) = capacity key_size node_value_size

module _ (K : Type 0) where
  abbrev pub root_index : (h : ℕ) → Tree K h → ℕ
  root_index zero T = T.index
  root_index (suc h) T = T.index

  abbrev pub root_next : (h : ℕ) → Tree K h → ℕ
  root_next zero T = T.next
  root_next (suc h) T = T.next

  -- the items of the leaves in order
  abbrev pub entries : (h : ℕ) → Tree K h → List (Slot K)
  entries zero T = T.items
  entries (suc h) T = flat (λ (k, c). entries h c) T.kids

  -- each leaf's block and its `next`
  abbrev pub leaves : (h : ℕ) → Tree K h → List (ℕ × ℕ)
  leaves zero T = (T.index, T.next) ∷ []
  leaves (suc h) T = flat (λ (k, c). leaves h c) T.kids

  abbrev pub blocks : (h : ℕ) → Tree K h → List ℕ
  blocks zero T = T.index ∷ []
  blocks (suc h) T = T.index ∷ flat (λ (k, c). blocks h c) T.kids

  -- how many items the root has
  abbrev pub width : (h : ℕ) → Tree K h → ℕ
  width zero T = length T.items
  width (suc h) T = length T.kids

  -- the slot that leads to a child
  abbrev pub kid_slot : (h : ℕ) → K × Tree K h → Slot K
  kid_slot h (k, c) = record { key = k; flag = 1; value = child (root_index h c) }

  -- A slot's value has its place in a data block, unless values have a constant size.
  abbrev pub HasPlace : BTree K → Slot K → Type 0
  HasPlace t s =
      (t.is_const_value_size ≡ true)
      ⊎ ((l : Location) × (b : DataBlock) × (s.value ≡ place l)
          × (l.index < t.meta.count_of_block)
          × (t.blocks l.index ≡ values b))

  -- A value of constant size has as many bytes as the leaves hold of it, at least.
  abbrev pub Fits : BTree K → List ℕ → Type 0
  Fits t value = t.is_const_value_size ≡ true → t.leaf_value_size ≤ length value

  -- A slot's value stands for the bytes: it is their first ones, as many as a value has, or the place
  -- of a data block where all of them are.
  abbrev pub Means : BTree K → Value → List ℕ → Type 0
  Means t v value =
      ((t.is_const_value_size ≡ true) × (v ≡ bytes (take t.leaf_value_size value)))
      ⊎ ((l : Location) × (b : DataBlock) × (off : ℕ) × (v ≡ place l)
          × (l.index < t.meta.count_of_block)
          × (t.blocks l.index ≡ values b)
          × (Data.get b l.position ≡ some off)
          × (read_bytes b.page off (length value) ≡ value))

  -- for keys and leaf values of so many bytes
  module _ (key_size leaf_value_size : ℕ) where
    abbrev pub root_view : (h : ℕ) → Tree K h → View K
    root_view zero T = record {
      type = leaf_block;
      index = T.index;
      next = T.next;
      key_size = key_size;
      val_size = leaf_value_size;
      items = T.items;
    }
    root_view (suc h) T = record {
      type = node_block;
      index = T.index;
      next = T.next;
      key_size = key_size;
      val_size = node_value_size;
      items = map (kid_slot h) T.kids;
    }

    -- The blocks of `t` represent the tree.
    abbrev pub Represents : (h : ℕ) → BTree K → Tree K h → Type 0
    Represents zero t T = (view_at t T.index ≡ some (root_view zero T)) × All (HasPlace t) T.items
    Represents (suc h) t T =
        (view_at t T.index ≡ some (root_view (suc h) T)) × All (λ (k, c). Represents h t c) T.kids

    -- An inner node has children. Each has room for an item more, and its key is the last one below
    -- it.
    abbrev pub WellFormed : (h : ℕ) → Tree K h → Type 0
    WellFormed zero T = Unit {0}
    WellFormed (suc h) T =
        (0 < length T.kids)
        × All
            (λ (k, c).
              (last_key (entries h c) ≡ some k)
              × WellFormed h c
              × (width h c < room key_size leaf_value_size h))
            T.kids
