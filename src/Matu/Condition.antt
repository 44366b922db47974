-- ===== src/Matu/Condition.antt =====
-- `conditionParse` of lib/matu.h with the types it uses. A position in the text is the list of the
-- bytes from there on. A return of `none` is undefined behaviour in the source: a number that is
-- not there or does not fit in `int`, or a condition that is returned with nothing assigned.
pub mod Meaning
pub mod Text
pub mod Parse
mod Tests
use example_engine.Prelude.{
  ℕ, zero, suc, ◌+◌, ◌-◌, ◌*◌, Bool, true, false, ◌&&◌, ◌||◌, not, Option, none, some, List, [],
  ◌∷◌, leb, ◌==◌, if◌then◌else◌, ◌>>=◌, drop,
}
use example_engine.Prelude.Int.{ℤ, pos, ◌+ℤ◌, ◌-ℤ◌, lt_int, le_int, eq_int}

-- `enum Op`
pub data Op : Type 0 where
  eq ge le : Op

-- `enum ResFlag`
pub data ResFlag : Type 0 where
  bad eq_first hi lo eq_both and_ or_ eq_lo eq_hi all_ : ResFlag

-- `conn`: 1 and 0; the -1 of no connective is a `none`
pub data Conn : Type 0 where
  both either : Conn

-- `b` is `none` where it was not assigned
pub record Condition : Type 0 where
  pub a : ℤ
  pub b : Option ℤ
  pub flag : ResFlag

-- `sql[start + i]`. The tests are read from left to right and stop at the first that fails, so no
-- position behind the final zero is read.
unfoldable pub char_at : List ℕ → ℕ → ℕ
char_at [] i = 0
char_at (c ∷ s) zero = c
char_at (c ∷ s) (suc i) = char_at s i

abbrev pub is_digit : ℕ → Bool
is_digit c = leb b'0' c && leb c b'9'

-- `while (str[i] < '0' || str[i] > '9') i++;`
unfoldable pub skip_to_digit : List ℕ → Option (List ℕ)
skip_to_digit [] = none
skip_to_digit (c ∷ s) = let rest = skip_to_digit s in if is_digit c then some (c ∷ s) else rest

abbrev pub int_max : ℕ
int_max = 2147483647

-- `while (...) { res = res * 10 + str[i] - '0'; i++; }`
unfoldable pub digits : ℕ → List ℕ → Option ℕ
digits res [] = some res
digits res (c ∷ s) =
    let rest = digits (res * 10 + c - b'0') s in
    if is_digit c then (if leb (res * 10 + c) int_max then rest else none) else some res

unfoldable pub str2int : List ℕ → Option ℕ
unfolding skip_to_digit digits
str2int s = do s' ← skip_to_digit s; digits 0 s'

-- the test for " where ", whose first blank is the byte in front of `s`
unfoldable pub at_where : ℕ → List ℕ → Bool
unfolding char_at
at_where previous s =
    previous == b' '
    && char_at s 0 == b'w'
    && char_at s 1 == b'h'
    && char_at s 2 == b'e'
    && char_at s 3 == b'r'
    && char_at s 4 == b'e'
    && char_at s 5 == b' '

-- the first loop
unfoldable pub find_where : ℕ → List ℕ → List ℕ
unfolding at_where
find_where previous [] = []
find_where previous (c ∷ s) =
    let rest = find_where c s in if at_where previous (c ∷ s) then drop 5 (c ∷ s) else rest

abbrev pub op_of : ℕ → Option Op
op_of c =
    if c == b'>'
    then some ge
    else if c == b'='
    then some eq
    else if c == b'<'
    then some le
    else none

-- the search for an operator of the second and of the last loop
unfoldable pub find_op : List ℕ → Option (Op × List ℕ)
find_op [] = none
find_op (c ∷ s) =
    let rest = find_op s in elim (op_of c) [ none ↦ rest | some op ↦ some (op, c ∷ s) ]

-- the number of a comparison, made into the bound of `>=` or `<=`
unfoldable pub number : Op → List ℕ → Option ℤ
unfolding str2int char_at
number ge s = do n ← str2int s; some (pos n +ℤ pos (if char_at s 1 == b'=' then 0 else 1))
number eq s = do n ← str2int s; some (pos n)
number le s = do n ← str2int s; some (pos n -ℤ pos (if char_at s 1 == b'=' then 0 else 1))

-- what the second loop assigns
unfoldable pub first_condition : Op → ℤ → Condition
first_condition ge num = record { a = num; b = none; flag = lo }
first_condition eq num = record { a = num; b = none; flag = eq_first }
first_condition le num = record { a = num; b = none; flag = hi }

-- `while (start < len && (sql[start] != 'a' && sql[start] != 'o')) start++;`
unfoldable pub skip_to_conn : List ℕ → List ℕ
skip_to_conn [] = []
skip_to_conn (c ∷ s) =
    let rest = skip_to_conn s in if not (c == b'a') && not (c == b'o') then rest else c ∷ s

unfoldable pub conn_of : List ℕ → Option Conn
unfolding char_at
conn_of s =
    if char_at s 0 == b'a' && char_at s 1 == b'n' && char_at s 2 == b'd'
    then some both
    else if char_at s 0 == b'o' && char_at s 1 == b'r'
    then some either
    else none

abbrev pub max : ℤ → ℤ → ℤ
max a b = if lt_int a b then b else a

abbrev pub min : ℤ → ℤ → ℤ
min a b = if lt_int b a then b else a

-- The last loop at its operator, by the second operator, the first and the connective. What a branch
-- does not assign stays as it was.
unfoldable pub combine : Op → Op → Conn → ℤ → ℤ → Condition → Condition
combine ge ge both num x res = record res { a = max num x; flag = lo }
combine ge ge either num x res = record res { a = min num x; flag = lo }
combine ge eq both num x res =
    if lt_int num x then record res { flag = bad } else record res { a = num; flag = eq_first }
combine ge eq either num x res =
    if le_int x num
    then record res { a = x; flag = lo }
    else record { a = num; b = some x; flag = eq_lo }
combine ge le both num x res =
    if lt_int num x
    then record res { flag = bad }
    else if eq_int x num
    then record res { a = x; flag = eq_first }
    else record { a = x; b = some num; flag = and_ }
combine ge le either num x res =
    if le_int x (num +ℤ pos 1)
    then record res { flag = all_ }
    else record { a = num; b = some x; flag = or_ }
combine eq eq both num x res =
    if eq_int x num then record res { a = x; flag = eq_first } else record res { flag = bad }
combine eq eq either num x res =
    if eq_int x num
    then record res { a = x; flag = eq_first }
    else record { a = x; b = some num; flag = eq_both }
combine eq ge both num x res =
    if lt_int x num then record res { flag = bad } else record res { a = x; flag = eq_first }
combine eq ge either num x res =
    if le_int num x
    then record res { a = num; flag = lo }
    else record { a = x; b = some num; flag = eq_lo }
combine eq le both num x res =
    if lt_int num x then record res { flag = bad } else record res { a = num; flag = eq_first }
combine eq le either num x res =
    if lt_int num x
    then record { a = x; b = some num; flag = eq_hi }
    else record res { a = num; flag = hi }
combine le ge both num x res =
    if lt_int x num
    then record res { flag = bad }
    else if eq_int x num
    then record res { a = x; flag = eq_first }
    else record { a = num; b = some x; flag = and_ }
combine le ge either num x res =
    if le_int num (x +ℤ pos 1)
    then record res { flag = all_ }
    else record { a = x; b = some num; flag = or_ }
combine le eq both num x res =
    if lt_int x num then record res { flag = bad } else record res { a = num; flag = eq_first }
combine le eq either num x res =
    if lt_int x num
    then record { a = num; b = some x; flag = eq_hi }
    else record res { a = x; flag = hi }
combine le le both num x res = record res { a = min num x; flag = hi }
combine le le either num x res = record res { a = max num x; flag = hi }

-- after the connective
unfoldable pub parse_second : Op → ℤ → List ℕ → Option Condition
parse_second op num s =
    let res = first_condition op num in
    elim (conn_of s) [
      | none ↦ some res
      | some conn ↦ elim (find_op s) [
        | none ↦ some res
        | some (second, s') ↦ do x ← number second s'; some (combine second op conn num x res)
      ]
    ]

-- `conditionParse(sql)`
unfoldable pub parse : List ℕ → Option Condition
unfolding find_where find_op number skip_to_conn parse_second conn_of combine first_condition
parse [] = none
parse (c ∷ sql) = do
  (op, s) ← find_op (find_where c sql)
  num ← number op s
  parse_second op num (skip_to_conn s)
