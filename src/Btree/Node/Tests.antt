-- ===== src/Btree/Node/Tests.antt =====
-- The laws of a node of three items at inputs.
use example_engine.Prelude.{ℕ, ◌+◌, ◌<◌, ◌≡◌, refl, true, some, [], ◌∷◌, ◌++◌, arith, take, drop}
use example_engine.Prelude.Int.{ℤ, pos}
use example_engine.Block.Header.{BlockHeader, free_block}
use example_engine.Btree.Order.{compare_int, compare_int-IsOrder, lt}
use example_engine.Btree.Node.{NodeBlock, bytes, size, insert, insert_at, remove, merge, find, lub}
use example_engine.Btree.Node.Items.{items, lower, upper, new_slot}
use example_engine.Btree.Node.Search.{IsSorted, Splits, Finds, lub-Splits, find-Finds}
use example_engine.Btree.Node.Laws.{
  IsAbsent, insert-IsSorted, split-IsSorted, merge-split, remove-insert_at,
}

abbrev header : BlockHeader
header = record {
  magic = 0;
  type = free_block;
  reserved = 1;
  checksum = 0;
  index = 7;
  next = 9;
  last = 0;
}

-- the keys 0, 2 and 4
abbrev three : NodeBlock ℤ
three = record {
  header = header;
  count = 3;
  key_size = 4;
  val_size = 8;
  kv = λ i. record { key = pos (i + i); flag = 1; value = bytes [] };
}

three-IsSorted : IsSorted compare_int three
unfolding compare_int
three-IsSorted i j p q = ground arith

lub-three : lub compare_int three (pos 3) ≡ 2
unfolding lub compare_int
lub-three = refl

find-three : find compare_int three (pos 4) ≡ pos 2
unfolding find compare_int
find-three = refl

lub-Splits_example : Splits compare_int three (pos 3) (lub compare_int three (pos 3))
lub-Splits_example = lub-Splits compare_int compare_int-IsOrder three (pos 3) three-IsSorted

find-Finds_example :
    Finds compare_int compare_int-IsOrder three
      (pos 4)
      three-IsSorted
      (find compare_int three (pos 4))
find-Finds_example = find-Finds compare_int compare_int-IsOrder three (pos 4) three-IsSorted

three-room : 3 < size three
unfolding size
three-room = omega arith

three-IsAbsent : IsAbsent compare_int compare_int-IsOrder three (pos 3)
unfolding compare_int
three-IsAbsent i p = ground arith

insert-IsSorted_example :
    (n' : NodeBlock ℤ) × (insert compare_int three (pos 3) (bytes []) ≡ some n')
    × IsSorted compare_int n'
    × (items n'
        ≡ take (lub compare_int three (pos 3)) (items three)
          ++ (new_slot (pos 3) (bytes []) ∷ drop (lub compare_int three (pos 3)) (items three)))
    × Splits compare_int three (pos 3) (lub compare_int three (pos 3))
insert-IsSorted_example =
    insert-IsSorted compare_int compare_int-IsOrder three (pos 3) (bytes []) three-room
      three-IsSorted three-IsAbsent

split-IsSorted_example :
    (items three ≡ items (lower three three) ++ items (upper three three))
    × IsSorted compare_int (lower three three)
    × IsSorted compare_int (upper three three)
    × ((i j : ℕ)
        → i < (lower three three).count
        → j < (upper three three).count
        → lt compare_int ((lower three three).kv i).key ((upper three three).kv j).key ≡ true)
    × (0 < (lower three three).count)
    × (0 < (upper three three).count)
    × ((lower three three).count < size (lower three three))
    × ((upper three three).count < size (upper three three))
split-IsSorted_example =
    split-IsSorted compare_int compare_int-IsOrder three three (omega arith)
      (omega (arith, three-room)) refl three-IsSorted

merge-split_example :
    (items (merge (lower three three) (upper three three)) ≡ items three)
    × ((merge (lower three three) (upper three three)).count ≡ 3)
    × ((merge (lower three three) (upper three three)).header.next ≡ 9)
merge-split_example = merge-split three three (omega arith)

remove-insert_at_example :
    (m n' : NodeBlock ℤ) × (insert_at three (pos 3) (bytes []) 2 ≡ some m)
    × (remove m 2 ≡ some n')
    × (items n' ≡ items three)
remove-insert_at_example = remove-insert_at three (pos 3) (bytes []) 2 (omega arith) three-room
