-- ===== src/Handler/Engine/Tests.antt =====
-- A table of two columns of one byte, the first the primary key and the second indexed, over two
-- B+trees that compare the first byte of their keys.
use example_engine.Prelude.{
  ℕ, suc, ◌≤◌, ◌≡◌, refl, sym, ap, ap₂, ◌∙◌, Bool, true, false, ◌&&◌, Option, some, none, List, [],
  ◌∷◌, ◌==◌, arith, Bool-cases, inl, inr, zero,
}
use example_engine.Prelude.Int.{ℤ, negative, positive, is_zero, pos, ◌-ℤ◌}
use example_engine.Btree.Order
use example_engine.Btree.Order.{Compare, IsOrder}
use example_engine.Btree.Node.{NodeBlock, bytes}
use example_engine.Btree.Tree.{BTree}
use example_engine.Btree.Tree.Create.{create, construct}
use example_engine.Btree.Tree.Iterator.{Iterator, Pointer}
use example_engine.Btree.Tree.Shape.{room}
use example_engine.Btree.Tree.SplitSon.{capacity}
use example_engine.Btree.Tree.Reach.{opened, empty_tree, leaf_size, create-Valid}
use example_engine.Btree.Tree.Tests.{no_header, blank_data}
use example_engine.Handler.Table.{KeyPart, Table}
use example_engine.Handler.Keys.Search.{second_key_compare-second_key_compare_prefix}
use Prim.Native.Nat.{bit_or}
use example_engine.Handler.Keys.{second_key_compare, second_key_compare_prefix, pack_key}
use example_engine.Handler.Rows.{RecordBuffer, pack_row}
use example_engine.Handler.Engine.{Trees, Server, Handler, ok, write_row}
use example_engine.Handler.Engine.Contents.{Contents, Same, stored, stored_all}
use example_engine.Handler.Engine.Kept.{OrderedTree, ShowsMap, btrees, btrees-IsMap}
use example_engine.Handler.Engine.Write.{Packs, write_row-stored}

abbrev pub same_bytes : List ℕ → List ℕ → Bool
same_bytes [] [] = true
same_bytes [] (b ∷ bs) = false
same_bytes (a ∷ cs) [] = false
same_bytes (a ∷ cs) (b ∷ bs) = (a == b) && same_bytes cs bs

pub same_bytes_self : (k : List ℕ) → same_bytes k k ≡ true
same_bytes_self [] = refl
same_bytes_self (a ∷ cs) = ground (arith, same_bytes_self cs)

pub same_bytes-eq : (k k' : List ℕ) → same_bytes k k' ≡ true → k ≡ k'
same_bytes-eq [] [] e = refl
same_bytes-eq [] (b ∷ bs) e = cc
same_bytes-eq (a ∷ cs) [] e = cc
same_bytes-eq (a ∷ cs) (b ∷ bs) e = elim (Bool-cases (a == b)) [
  | inl p ↦
      let tail : same_bytes cs bs ≡ true = ground (arith, p, e) in
      let head : a ≡ b = ground (arith, p) in ap₂ ◌∷◌ head (same_bytes-eq cs bs tail)
  | inr p ↦
      absurd
        (let f : false ≡ true = (sym (ap (λ x. x && same_bytes cs bs) p)) ∙ e in ground (arith, f))
]

abbrev first_byte : List ℕ → ℕ
first_byte [] = 0
first_byte (b ∷ bs) = b

abbrev part_at : ℕ → KeyPart
part_at offset = record {
  nullable = false;
  is_null = λ b. false;
  variable_length = false;
  offset = offset;
  length = 1;
  store_length = 1;
  key_cmp = λ a b. pos (first_byte a) -ℤ pos (first_byte b);
}

abbrev table : Table
table = record {
  primary = record { key_length = 1; parts = part_at 0 ∷ [] };
  secondary = record { key_length = 1; parts = part_at 1 ∷ [] } ∷ [];
  fields = [];
  null_bytes = 2;
  reclength = 2;
  blob_length = λ b. 0;
  malloc = λ n. true;
}

abbrev server : Server
server = record { auto_increment = λ b. (0, b); key_restore = λ a b n. a }

abbrev no_buffer : RecordBuffer
no_buffer = record { size = 0; allocated = false }

abbrev by_first : Compare (List ℕ)
by_first a b = pos (first_byte a) -ℤ pos (first_byte b)

by_first-IsOrder : IsOrder by_first
by_first-IsOrder = record {
  flip = λ a b. ground arith;
  lt_trans = λ a b c p q. ground arith;
  lt_split = λ a b c p. ground arith;
}

abbrev blank : NodeBlock (List ℕ)
blank = record {
  header = no_header;
  count = 0;
  key_size = 0;
  val_size = 0;
  kv = λ _. record { key = []; flag = 0; value = bytes [] };
}

abbrev same_first : Same
same_first = Order.same by_first

-- an empty tree with values of that size
abbrev new_tree : ℕ → OrderedTree
new_tree value_size = record { tree = opened blank by_first 1 value_size; cmp = by_first }

rows_leaf : leaf_size blank by_first 1 0xffff ≡ 6
unfolding create construct
rows_leaf = refl

keys_leaf : leaf_size blank by_first 1 0 ≡ 0
unfolding create construct
keys_leaf = refl

rows_wide : (h : ℕ) → 3 ≤ room 1 (leaf_size blank by_first 1 0xffff) h
unfolding capacity
rows_wide zero = rw rows_leaf (omega arith)
rows_wide (suc h) = omega arith

keys_wide : (h : ℕ) → 3 ≤ room 1 (leaf_size blank by_first 1 0) h
unfolding capacity
keys_wide zero = rw keys_leaf (omega arith)
keys_wide (suc h) = omega arith

no_entries : Contents
no_entries k = none

rows_shows : ShowsMap (new_tree 0xffff) same_first none no_entries 2
unfolding create construct no_entries
rows_shows = record {
  order = by_first-IsOrder;
  same_is = λ a b. refl;
  ks = 1;
  lv = leaf_size blank by_first 1 0xffff;
  wide = rows_wide;
  h = zero;
  T = empty_tree blank by_first 1 0xffff;
  valid = (create-Valid blank by_first 1 0xffff (let w = rows_wide zero in omega (arith, w))).1;
  size_is = refl;
  numbers = (omega arith, (omega arith, tt));
  agrees = λ key. refl;
}

keys_shows : ShowsMap (new_tree 0) same_first (some 0) no_entries 2
unfolding create construct no_entries
keys_shows = record {
  order = by_first-IsOrder;
  same_is = λ a b. refl;
  ks = 1;
  lv = leaf_size blank by_first 1 0;
  wide = keys_wide;
  h = zero;
  T = empty_tree blank by_first 1 0;
  valid = (create-Valid blank by_first 1 0 (let w = keys_wide zero in omega (arith, w))).1;
  size_is = (refl, refl);
  numbers = (omega arith, (omega arith, tt));
  agrees = λ key. refl;
}

abbrev no_reader : BTree (List ℕ) → Pointer → Option (List ℕ)
no_reader t p = none

abbrev trees : Trees OrderedTree Iterator
trees = btrees blank blank_data no_reader

abbrev empty : Handler OrderedTree Iterator
empty = record {
  p_btree = new_tree 0xffff;
  s_btree = new_tree 0;
  primary_it = record { cur = 0; index = 0 };
  sec_it = record { cur = 0; index = 0 };
  active_index = 0;
  first_row = false;
  key_read = false;
  not_found = false;
  buffer = no_buffer;
  records = 0;
}

abbrev record_ : List ℕ
record_ = 3 ∷ 7 ∷ []

abbrev second_key : List ℕ
second_key = 1 ∷ 7 ∷ 3 ∷ []

packs : Packs table no_buffer record_
unfolding pack_row pack_key
packs = record {
  row = record_;
  primary = 3 ∷ [];
  secondary = second_key ∷ [];
  has_row = refl;
  has_primary = refl;
  has_secondary = (refl, tt);
  short = omega arith;
}

write_row-stored_example :
    (h' : Handler OrderedTree Iterator) × (write_row trees server table empty record_
      ≡ some (ok, h'))
    × ShowsMap h'.p_btree same_first none (stored same_first packs.primary packs.row no_entries) 1
    × ShowsMap h'.s_btree same_first (some 0) (stored_all same_first packs.secondary no_entries) 1
write_row-stored_example =
    write_row-stored trees server table (btrees-IsMap blank blank_data no_reader) empty same_first
      same_first no_entries no_entries 1 1 rows_shows keys_shows record_ record_ refl packs
      (unfold no_entries in refl) (unfold packs no_entries in (refl, tt))

-- the trees that hold the record
once :
    (h' : Handler OrderedTree Iterator) × (write_row trees server table empty record_
      ≡ some (ok, h'))
    × ShowsMap h'.p_btree same_first none (stored same_first (3 ∷ []) record_ no_entries) 1
    × ShowsMap h'.s_btree same_first (some 0) (stored same_first second_key [] no_entries) 1
unfolding packs
once = write_row-stored_example

abbrev full : Handler OrderedTree Iterator
full = record empty { p_btree = once.0.p_btree; s_btree = once.0.s_btree }

second_key_compare-second_key_compare_prefix_example :
    (p first last : ℤ) × (second_key_compare_prefix table second_key (1 ∷ 7 ∷ []) ≡ some p)
    × (second_key_compare_prefix table second_key (bit_or 1 0x80 ∷ 7 ∷ []) ≡ some p)
    × (second_key_compare table second_key (bit_or 1 0x80 ∷ 7 ∷ []) ≡ some first)
    × (second_key_compare table second_key (bit_or 1 0x40 ∷ 7 ∷ []) ≡ some last)
    × ((negative first ≡ negative p) × (is_zero first ≡ false))
    × ((positive last ≡ positive p) × (is_zero last ≡ false))
second_key_compare-second_key_compare_prefix_example =
    second_key_compare-second_key_compare_prefix table
      (record { key_length = 1; parts = part_at 1 ∷ [] }) 1 1 (7 ∷ 3 ∷ []) (7 ∷ []) (omega arith)
      (omega arith) refl
