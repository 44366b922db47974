-- ===== src/Matu/Condition/Parse.antt =====
-- `parse` on whole statements: the condition selects the ids that the comparisons name.
use example_engine.Prelude.{ℕ, ◌≡◌, refl, ap₂, ◌∙◌, some, List, [], ◌++◌, ◌>>=◌, arith, drop}
use example_engine.Prelude.Int.{ℤ}
use example_engine.Matu.Condition.{
  Op, Conn, both, either, Condition, find_op, number, first_condition, skip_to_conn, conn_of,
  combine, parse_second, parse,
}
use example_engine.Matu.Condition.Meaning.{joined, holds, matches, IsMistaken, matches-combine}
use example_engine.Matu.Condition.Text.{
  Relation, lt_, op, bound, relates, value, IsNumeral, EndsNumeral, number_lem, find_op_lem,
  skip_digits, skip_text, conn_text, skip_conn, comparison, comparisons, Spacing, spaces,
  skip_blanks, Statement, select, delete, statement_text,
}

-- A bound on the id says what the comparison says.
holds-bound : (r : Relation) (n : ℕ) (id : ℤ) → holds (op r) (bound r n) id ≡ relates r id n
holds-bound lt_ n id = ground arith
holds-bound _ n id = ground arith

conn_of_lem : (c : Conn) (s : List ℕ) → conn_of (drop 1 (conn_text c ++ s)) ≡ some c
unfolding conn_of
conn_of_lem both s = refl
conn_of_lem either s = refl

find_second : (c : Conn) (s : List ℕ) → find_op (drop 1 (conn_text c ++ s)) ≡ find_op s
unfolding find_op
find_second both s = refl
find_second either s = refl

-- The search for the first comparison ends at its operator.
find_first :
    (st : Statement) (s : List ℕ)
    → parse (statement_text st ++ s)
      ≡ (find_op s >>= λ (o, s'). number o s' >>= λ num. parse_second o num (skip_to_conn s'))
unfolding parse
find_first select s = refl
find_first delete s = refl

ends : (c : Conn) (s : List ℕ) → EndsNumeral (conn_text c ++ s)
ends both s = refl
ends either s = refl

module _ (b : Spacing) (r : Relation) (s : List ℕ) (ns : IsNumeral s) where
  abbrev first : Condition
  first = first_condition (op r) (bound r (value 0 s))

  parse_first :
      (st : Statement) (rest : List ℕ)
      → EndsNumeral rest
      → parse (statement_text st ++ comparison b r s rest)
        ≡ parse_second (op r) (bound r (value 0 s)) (skip_to_conn rest)
  parse_first st rest e =
      let behind = spaces b.behind ++ (s ++ rest) in
      find_first st (comparison b r s rest)
      ∙ rw (
        find_op_lem b.before r behind,
        number_lem b.behind s rest ns e r,
        skip_text r behind,
        skip_blanks b.behind (s ++ rest),
        skip_digits s rest ns.digits,
      )

  module _ (c : Conn) (d : Spacing) (q : Relation) (t : List ℕ) (nt : IsNumeral t) where
    second_lem :
        parse_second (op r) (bound r (value 0 s)) (drop 1 (conn_text c ++ comparison d q t []))
        ≡ some (combine (op q) (op r) c (bound r (value 0 s)) (bound q (value 0 t)) first)
    unfolding parse_second
    second_lem =
        let rest = comparison d q t [] in
        ground (
          arith,
          conn_of_lem c rest,
          find_second c rest,
          find_op_lem d.before q (spaces d.behind ++ (t ++ [])),
          number_lem d.behind t [] nt tt q,
        )

    -- A statement with two comparisons is parsed into the condition that `combine` makes of them.
    parse_lem :
        (st : Statement)
        → parse (statement_text st ++ comparisons b r s c d q t)
          ≡ some (combine (op q) (op r) c (bound r (value 0 s)) (bound q (value 0 t)) first)
    parse_lem st =
        let rest = comparison d q t [] in
        parse_first st (conn_text c ++ rest) (ends c rest) ∙ rw (skip_conn c rest) second_lem

-- Parsing "select * from table where id" or "delete from table where id", followed by two comparisons
-- that are joined by " and id" or " or id", with any number of blanks in front of the operators and
-- behind them, succeeds for all numerals that fit. But for one case the condition then selects exactly
-- the ids for which both comparisons hold, or one of them. The case that is excluded is
-- `id <= n and id = m`, or `id < n` so, with `m` below the greatest id that the first comparison allows.
pub matches-parse :
    (st : Statement) (b : Spacing) (r : Relation) (s : List ℕ) (c : Conn) (d : Spacing)
    (q : Relation) (t : List ℕ)
    → IsNumeral s
    → IsNumeral t
    → ¬ (IsMistaken (op q) (op r) c (bound r (value 0 s)) (bound q (value 0 t)))
    → (cond : Condition) × (parse (statement_text st ++ comparisons b r s c d q t) ≡ some cond)
      × ((id : ℤ)
          → matches cond id ≡ joined c (relates r id (value 0 s)) (relates q id (value 0 t)))
matches-parse st b r s c d q t ns nt m = (
  combine (op q) (op r) c (bound r (value 0 s)) (bound q (value 0 t)) (first b r s ns),
  parse_lem b r s ns c d q t nt st,
  λ id.
      matches-combine (op q) (op r) c (bound r (value 0 s)) (bound q (value 0 t)) id
        (first b r s ns) m
      ∙ ap₂ (joined c) (holds-bound r (value 0 s) id) (holds-bound q (value 0 t) id),
)

second_none :
    (o : Op) (num : ℤ) → parse_second o num (skip_to_conn []) ≡ some (first_condition o num)
unfolding parse_second skip_to_conn conn_of
second_none o num = refl

first_lem :
    (r : Relation) (n : ℕ) (id : ℤ)
    → matches (first_condition (op r) (bound r n)) id ≡ relates r id n
unfolding matches first_condition
first_lem lt_ n id = ground arith
first_lem _ n id = ground arith

-- Parsing "select * from table where id" or "delete from table where id", followed by one comparison
-- with any number of blanks in front of its operator and behind it and by nothing else, succeeds for
-- all numerals that fit, and the condition selects exactly the ids for which it holds.
pub matches-parse_one :
    (st : Statement) (b : Spacing) (r : Relation) (s : List ℕ)
    → IsNumeral s
    → (cond : Condition) × (parse (statement_text st ++ comparison b r s []) ≡ some cond)
      × ((id : ℤ) → matches cond id ≡ relates r id (value 0 s))
matches-parse_one st b r s ns = (
  first b r s ns,
  parse_first b r s ns st [] tt ∙ second_none (op r) (bound r (value 0 s)),
  λ id. first_lem r (value 0 s) id,
)
