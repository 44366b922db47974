-- ===== src/Matu/Condition/Tests.antt =====
-- Statements that are parsed, and the theorems on conditions at inputs.
use example_engine.Prelude.{ℕ, ◌≡◌, refl, true, false, some, none, List, [], ◌++◌, arith}
use example_engine.Prelude.Int.{ℤ, pos}
use example_engine.Matu.Condition.{eq, ge, le, both, Condition, lo, and_, or_, combine, parse}
use example_engine.Matu.Condition.Meaning.{
  joined, holds, matches, matches-combine, combine_mistaken,
}
use example_engine.Matu.Condition.Text.{
  codes, lt_, gt_, relates, IsNumeral, select, delete, statement_text, comparison, comparisons,
  Spacing,
}
use example_engine.Matu.Condition.Parse.{matches-parse, matches-parse_one}

parse_range :
    parse (codes "select * from table where id > 500 and id <999")
    ≡ some (record { a = pos 501; b = some (pos 998); flag = and_ })
unfolding parse
parse_range = refl

parse_update :
    parse (codes "update table set number = 20190603x where id<50 or id>9950")
    ≡ some (record { a = pos 49; b = some (pos 9951); flag = or_ })
unfolding parse
parse_update = refl

parse_nothing : parse (codes "select * from table") ≡ none
unfolding parse
parse_nothing = refl

parse_overflow : parse (codes "delete from table where id = 2147483648") ≡ none
unfolding parse
parse_overflow = refl

abbrev five : List ℕ
five = codes "5"

five-IsNumeral : IsNumeral five
five-IsNumeral = record {
  digits = (refl, tt);
  some_digit = λ e. ground (arith, e);
  fits = omega arith;
}

-- "id > " and "id <"
abbrev wide_gap : Spacing
wide_gap = record { before = 1; behind = 1 }

abbrev no_gap : Spacing
no_gap = record { before = 1; behind = 0 }

-- a statement of the tests in lib/matu.h
spaced :
    statement_text select ++ comparisons wide_gap gt_ (codes "500") both no_gap lt_ (codes "999")
    ≡ codes "select * from table where id > 500 and id <999"
spaced = refl

abbrev start : Condition
start = record { a = pos 5; b = none; flag = lo }

matches-combine_example :
    matches (combine le ge both (pos 5) (pos 9) start) (pos 7)
    ≡ joined both (holds ge (pos 5) (pos 7)) (holds le (pos 9) (pos 7))
matches-combine_example = matches-combine le ge both (pos 5) (pos 9) (pos 7) start (λ m. m)

combine_mistaken_example :
    (matches (combine eq le both (pos 5) (pos 3) start) (pos 5) ≡ true)
    × (joined both (holds le (pos 5) (pos 5)) (holds eq (pos 3) (pos 5)) ≡ false)
    × (matches (combine eq le both (pos 5) (pos 3) start) (pos 3) ≡ false)
    × (joined both (holds le (pos 5) (pos 3)) (holds eq (pos 3) (pos 3)) ≡ true)
combine_mistaken_example = combine_mistaken (pos 5) (pos 3) start (omega arith)

matches-parse_example :
    (cond : Condition) × (parse
        (statement_text select ++ comparisons wide_gap gt_ five both no_gap lt_ five)
      ≡ some cond)
    × ((id : ℤ) → matches cond id ≡ joined both (relates gt_ id 5) (relates lt_ id 5))
matches-parse_example =
    matches-parse select wide_gap gt_ five both no_gap lt_ five five-IsNumeral five-IsNumeral
      (λ m. m)

matches-parse_one_example :
    (cond : Condition) × (parse (statement_text delete ++ comparison wide_gap gt_ five [])
      ≡ some cond)
    × ((id : ℤ) → matches cond id ≡ relates gt_ id 5)
matches-parse_one_example = matches-parse_one delete wide_gap gt_ five five-IsNumeral
