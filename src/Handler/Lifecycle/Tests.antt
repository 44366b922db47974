-- ===== src/Handler/Lifecycle/Tests.antt =====
-- A table with a primary key of one byte and a second key of two, over the files of B+trees.
use example_engine.Prelude.{◌≡◌, refl, true, Option, none, some, [], ◌∷◌, arith}
use example_engine.Prelude.Int.{ℤ}
use example_engine.Btree.Tree.{BTree}
use example_engine.Btree.Tree.Tests.{blank}
use example_engine.Handler.Table.{Table}
use example_engine.Handler.Lifecycle.{opened, no_such_table, extension, any_size, create, open_}
use example_engine.Handler.Lifecycle.Laws.{open-create, handler_of, IsSecond}
use example_engine.Handler.Lifecycle.Disk.{Disk, disk, disk-IsStored}

abbrev two_keys : Table
two_keys = record {
  primary = record { key_length = 1; parts = [] };
  secondary = record { key_length = 2; parts = [] } ∷ [];
  fields = [];
  null_bytes = 0;
  reclength = 3;
  blob_length = λ r. 0;
  malloc = λ n. true;
}

abbrev no_files : Disk blank
no_files name = none

abbrev both_files : Disk blank
both_files = (create two_keys (disk blank) no_files (5 ∷ [])).1

-- A table of both keys is created and opened.
open-create_example :
    (p : BTree ℤ) × ((s : Option (BTree ℤ)) × ((open_ two_keys (disk blank) true both_files (5 ∷ [])
          ≡ (opened (handler_of two_keys (disk blank) (disk-IsStored blank) p s), both_files))
        × (((disk blank).open_tree both_files (5 ∷ extension) 1 any_size ≡ some p)
            × IsSecond two_keys (disk blank) (disk-IsStored blank) both_files (5 ∷ []) s)))
unfolding create
open-create_example =
    open-create two_keys (disk blank) (disk-IsStored blank) no_files both_files (5 ∷ [])
      (omega arith) refl

-- Without the second file, `open` fails.
no_second_file : (open_ two_keys (disk blank) true no_files (5 ∷ [])).0 ≡ no_such_table
unfolding open_
no_second_file = refl
