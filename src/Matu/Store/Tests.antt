-- ===== src/Matu/Store/Tests.antt =====
-- The queries over an index that is a list in the order of the ids.
use example_engine.Prelude.{
  ℕ, suc, ◌≡◌, refl, Bool, true, false, Option, none, some, List, [], ◌∷◌, length, if◌then◌else◌,
}
use example_engine.Prelude.Int.{ℤ, pos, lt_int}
use example_engine.Matu.Condition.{Condition, eq_first, and_}
use example_engine.Matu.Row.{RowData}
use example_engine.Matu.Store.{Index, query_condition}

abbrev placed : List RowData → Option (Bool × List RowData)
placed [] = some (false, [])
placed (r ∷ rows) = some (true, r ∷ rows)

abbrev behind : List RowData → Option (Bool × List RowData)
behind [] = none
behind (r ∷ rows) = placed rows

abbrev front : List RowData → Option RowData
front [] = none
front (r ∷ rows) = some r

abbrev drop_below : ℤ → List RowData → List RowData
drop_below a [] = []
drop_below a (r ∷ rows) = let rest = drop_below a rows in if lt_int r.id a then rest else r ∷ rows

abbrev listed : Index (List RowData) (List RowData)
listed = record {
  first = placed;
  locate = λ rows a flag. placed (drop_below a rows);
  next = λ rows it. behind it;
  row = λ rows it. front it;
  remove = λ rows it. none;
  put = λ rows r. none;
  limit = λ rows. suc (length rows);
}

abbrev row_of : ℕ → RowData
row_of id = record { id = pos id; sex = true; name = []; number = []; email = [] }

abbrev rows : List RowData
rows = row_of 2 ∷ row_of 5 ∷ row_of 7 ∷ []

abbrev from_3_to_7 : Condition
from_3_to_7 = record { a = pos 3; b = some (pos 7); flag = and_ }

both_rows : query_condition listed rows from_3_to_7 ≡ some (row_of 5 ∷ row_of 7 ∷ [])
unfolding query_condition
both_rows = refl

abbrev exactly_3 : Condition
exactly_3 = record { a = pos 3; b = none; flag = eq_first }

-- the row of 5 is no row of 3
eq_first_other : query_condition listed rows exactly_3 ≡ some (row_of 5 ∷ [])
unfolding query_condition
eq_first_other = refl
