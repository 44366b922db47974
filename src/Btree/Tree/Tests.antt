-- ===== src/Btree/Tree/Tests.antt =====
-- Runs of small trees, whose nodes are full at four items.
use example_engine.Prelude.{
  ℕ, zero, suc, ◌≡◌, ◌≤◌, ◌+◌, refl, Bool, true, false, Option, none, some, List, [], ◌∷◌, ◌>>=◌,
  ◌++◌, ◌==◌, if◌then◌else◌, arith, Bool-cases, inl, inr, sym, ◌∙◌, ◌≢◌, length, replicate,
  length-replicate,
}
use example_engine.Prelude.Int.{ℤ, pos}
use example_engine.Block.Header.{BlockHeader, free_block}
use example_engine.Block.Data
use example_engine.Block.Header
use example_engine.Block.Data.{DataBlock}
use example_engine.Block.Data.Records.{init-IsValid}
use example_engine.Btree.Order.{compare_int}
use example_engine.Btree.Node
use example_engine.Btree.Node.{NodeBlock, Location, bytes, removed}
use example_engine.Btree.Tree.Scan.{Arrives, first_live, leaf_items, chain_items, next-Arrives}
use example_engine.Btree.Tree.{
  node, get_child, get_free_node_block, get_node_block, Block, BTree, values, unused, insert_value,
}
use example_engine.Btree.Tree.Values.{Holds, Keeps, Stored}
use example_engine.Btree.Tree.Stored.{insert_value-Stored, insert_value-none}
use example_engine.Btree.Tree.Create.{create, open_}
use example_engine.Btree.Tree.Insert.{
  put, insert, split_root, insert_leaf, after_son, split_son, relink, stored_value, get_leaf,
  get_leaf_from,
}
use example_engine.Btree.Tree.Iterator.{
  locate_at, Iterator, first, next, step_next, skip_next, locate, get_key, remove, exact_key,
  after_key,
}

abbrev pub no_header : BlockHeader
no_header = record {
  magic = 0;
  type = free_block;
  reserved = 1;
  checksum = 0;
  index = 0;
  next = 0;
  last = 0;
}

abbrev pub blank : NodeBlock ℤ
blank = record {
  header = no_header;
  count = 0;
  key_size = 0;
  val_size = 0;
  kv = λ _. record { key = pos 0; flag = 0; value = bytes [] };
}

abbrev pub blank_data : DataBlock
blank_data = record { header = no_header; count = 0; free = 0; page = λ _. 0 }

-- a value of ten bytes
abbrev pub ten_bytes : ℕ → List ℕ
ten_bytes b = b ∷ 0 ∷ 0 ∷ 0 ∷ 0 ∷ 0 ∷ 0 ∷ 0 ∷ 0 ∷ 0 ∷ []

put_all : List ℕ → BTree ℤ → Option (BTree ℤ)
put_all [] t = some t
put_all (k ∷ ks) t =
    put blank blank_data compare_int t (pos k) (ten_bytes k) 10 >>= λ (_, t'). put_all ks t'

made : List ℕ → Option (BTree ℤ)
unfolding put_all create open_ put insert split_root insert_leaf after_son split_son relink
    stored_value insert_value compare_int get_free_node_block Node.empty Node.get_value Node.removed
    Node.compare_at Node.lub Node.set Node.insert_at Node.insert Node.full Node.split Node.max_key
made ks = open_ (create blank 1000 10) >>= put_all ks

keys_from : ℕ → BTree ℤ → Bool × Iterator → Option (List ℤ)
keys_from zero t r = none
keys_from (suc fuel) t (false, it) = some []
keys_from (suc fuel) t (true, it) = do
  k ← get_key t it
  r ← next t it
  ks ← keys_from fuel t r
  some (k ∷ ks)

keys : BTree ℤ → Option (List ℤ)
unfolding keys_from first next get_key step_next skip_next removed
keys t = first t >>= keys_from 20 t

put_ascending :
    (made (3 ∷ 1 ∷ 4 ∷ 1 ∷ 5 ∷ 9 ∷ 2 ∷ 6 ∷ 8 ∷ 7 ∷ []) >>= keys)
    ≡ some (pos 1 ∷ pos 2 ∷ pos 3 ∷ pos 4 ∷ pos 5 ∷ pos 6 ∷ pos 7 ∷ pos 8 ∷ pos 9 ∷ [])
unfolding made keys
put_ascending = refl

-- the items behind 4 that a scan from there finds once 5 is removed
scan_from : BTree ℤ → Option (List ℤ)
unfolding locate get_leaf get_leaf_from locate_at get_child Node.leaf Node.lub Node.empty
    Node.compare_at remove get_node_block compare_int keys_from next get_key step_next skip_next
    removed
scan_from t = do
  (found, it) ← locate compare_int t (pos 5) exact_key
  t' ← remove t it
  r ← locate compare_int t' (pos 4) after_key
  keys_from 20 t' r

scan_behind_removed :
    (made (3 ∷ 1 ∷ 4 ∷ 5 ∷ 9 ∷ 2 ∷ 6 ∷ 8 ∷ 7 ∷ []) >>= scan_from)
    ≡ some (pos 6 ∷ pos 7 ∷ pos 8 ∷ pos 9 ∷ [])
unfolding made scan_from
scan_behind_removed = refl

-- a tree with one data block, at index 1
abbrev one_block : DataBlock
one_block = Data.init blank_data 1

abbrev with_values : BTree ℤ
with_values = record {
  blocks = λ j. if j == 1 then values one_block else unused;
  meta = record { root = 0; count_of_item = 0; count_of_block = 2; number_of_block = 8 };
  root = 0;
  key_size = 4;
  leaf_value_size = 6;
  is_const_value_size = false;
}

abbrev no_block : Block ℤ
no_block = unused

unused≢values : (b : DataBlock) → no_block ≢ values b
unused≢values b e = cc

with_values-Holds : Holds with_values
with_values-Holds j b h e = elim (Bool-cases (j == 1)) [
  | inl p ↦
      let v : j ≡ 1 = ground (arith, p) in
      let f : with_values.blocks j ≡ values one_block = rw p refl in
      let g : one_block ≡ b = (let q = sym f ∙ e in cc) in
      rw (← g, v)
        (
          init-IsValid blank_data 1,
          unfold Data.init Header.init in refl,
          unfold Data.init Header.init in refl,
        )
  | inr p ↦
      let f : with_values.blocks j ≡ unused = rw p refl in absurd (unused≢values b (sym f ∙ e))
]

abbrev word : List ℕ
word = 72 ∷ 105 ∷ []

insert_value-Stored_example :
    (loc : Location) × (t' : BTree ℤ) × (insert_value blank_data 2 with_values 1 word 2
      ≡ some (some loc, t'))
    × Holds t'
    × Keeps with_values t'
    × Stored t' loc word
    × (t'.meta.count_of_block ≤ with_values.meta.count_of_block + 1)
insert_value-Stored_example =
    insert_value-Stored blank_data 0 with_values 1 one_block word with_values-Holds (omega arith)
      refl (omega arith) (omega arith)

abbrev long_word : List ℕ
long_word = replicate 4066 7

insert_value-none_example :
    insert_value blank_data 1000 with_values 1 long_word (length long_word) ≡ none
insert_value-none_example =
    insert_value-none blank_data 1000 with_values 1 one_block long_word with_values-Holds
      (omega arith) refl (omega arith)
      (let e : length long_word ≡ 4066 = length-replicate {A = ℕ} 4066 7 in omega (arith, e))
      (let e : length long_word ≡ 4066 = length-replicate {A = ℕ} 4066 7 in omega (arith, e))

-- a leaf of two items of which the second is removed, at block 1, and one of one item, at block 2
abbrev leaf_of : ℕ → ℕ → NodeBlock ℤ
leaf_of next count = record {
  header = record no_header { next = next };
  count = count;
  key_size = 4;
  val_size = 10;
  kv = λ j. record { key = pos j; flag = if j == 0 then 1 else 0; value = bytes [] };
}

abbrev two_leaves : BTree ℤ
two_leaves = record with_values {
  blocks =
      λ j. if j == 1 then node (leaf_of 2 2) else if j == 2 then node (leaf_of 0 1) else unused;
  meta = record { root = 1; count_of_item = 2; count_of_block = 3; number_of_block = 8 };
}

next-two_leaves :
    next two_leaves (record { cur = 1; index = 0 }) ≡ some (true, record { cur = 2; index = 0 })
unfolding next step_next skip_next removed get_node_block
next-two_leaves = refl

next-Arrives_example :
    Arrives
      (first_live (leaf_items 1 (leaf_of 2 2) 1 1 ++ chain_items 2 (leaf_of 0 1 ∷ [])))
      (next two_leaves (record { cur = 1; index = 0 }))
next-Arrives_example =
    next-Arrives two_leaves 1 0 1 (leaf_of 2 2) (leaf_of 0 1 ∷ [])
      (
        (λ e. ground (arith, e)),
        omega arith,
        refl,
        omega arith,
        ((λ e. ground (arith, e)), omega arith, refl, omega arith, refl),
      )
      refl (omega arith)
