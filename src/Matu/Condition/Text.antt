-- ===== src/Matu/Condition/Text.antt =====
-- Statements of two comparisons as text, and what `parse` makes of them.
use Prim.Native.String.{String}
use Prim.Native.Char.{code}
use example_engine.Prelude.{
  ℕ, zero, suc, ◌+◌, ◌-◌, ◌*◌, ◌≤◌, ◌≡◌, refl, ◌∙◌, Bool, true, false, not, some, List, [], ◌∷◌,
  ◌++◌, leb, ◌&&◌, drop, le→leb, ◌==◌, arith, ◌≢◌,
}
use example_engine.Prelude.Int.{ℤ, pos, ◌+ℤ◌, ◌-ℤ◌, lt_int, le_int, eq_int}
use example_engine.Matu.Condition.{
  Op, eq, ge, le, Conn, both, either, is_digit, int_max, digits, str2int, find_op, number,
  skip_to_conn, char_at,
}

-- the bytes of an ASCII text
abbrev pub codes : String → List ℕ
codes String.[] = []
codes (String.◌∷◌ c s) = code c ∷ codes s

-- the comparisons of the dialect
pub data Relation : Type 0 where
  lt_ le_ eq_ ge_ gt_ : Relation

abbrev pub op : Relation → Op
op lt_ = le
op le_ = le
op eq_ = eq
op ge_ = ge
op gt_ = ge

abbrev pub text : Relation → List ℕ
text lt_ = b'<' ∷ []
text le_ = b'<' ∷ b'=' ∷ []
text eq_ = b'=' ∷ []
text ge_ = b'>' ∷ b'=' ∷ []
text gt_ = b'>' ∷ []

-- the bound that `number` makes of it
abbrev pub bound : Relation → ℕ → ℤ
bound lt_ n = pos n -ℤ pos 1
bound le_ n = pos n
bound eq_ n = pos n
bound ge_ n = pos n
bound gt_ n = pos n +ℤ pos 1

-- what the comparison means
abbrev pub relates : Relation → ℤ → ℕ → Bool
relates lt_ id n = lt_int id (pos n)
relates le_ id n = le_int id (pos n)
relates eq_ id n = eq_int id (pos n)
relates ge_ id n = le_int (pos n) id
relates gt_ id n = lt_int (pos n) id

abbrev pub AreDigits : List ℕ → Type 0
AreDigits [] = Unit {0}
AreDigits (c ∷ s) = (is_digit c ≡ true) × AreDigits s

-- the number that digits stand for, behind a number read so far
abbrev pub value : ℕ → List ℕ → ℕ
value res [] = res
value res (c ∷ s) = value (res * 10 + c - b'0') s

-- digits, at least one, of a number that is read without overflow
pub record IsNumeral (s : List ℕ) : Type 0 where
  pub digits : AreDigits s
  pub some_digit : s ≢ []
  pub fits : value 0 s + b'0' ≤ int_max

value-ge : (res : ℕ) (s : List ℕ) → AreDigits s → res ≤ value res s
value-ge res [] h = omega arith
value-ge res (c ∷ s) h =
    let d : b'0' ≤ c = ground arith in omega (arith, value-ge (res * 10 + c - b'0') s h.1)

-- what follows a numeral begins with no digit
abbrev pub EndsNumeral : List ℕ → Type 0
EndsNumeral [] = Unit {0}
EndsNumeral (c ∷ _) = is_digit c ≡ false

digits_lem :
    (res : ℕ) (s rest : List ℕ)
    → AreDigits s
    → EndsNumeral rest
    → value res s + b'0' ≤ int_max
    → digits res (s ++ rest) ≡ some (value res s)
unfolding digits
digits_lem res [] [] h e f = refl
digits_lem res [] (c ∷ rest) h e f = rw e
digits_lem res (c ∷ s) rest h e f =
    let d : b'0' ≤ c = ground arith in
    let fit : leb (res * 10 + c) int_max ≡ true =
      le→leb (res * 10 + c) int_max (omega (arith, value-ge (res * 10 + c - b'0') s h.1)) in
    rw (h.0, fit) (digits_lem (res * 10 + c - b'0') s rest h.1 e f)

str2int_digits :
    (s rest : List ℕ) → IsNumeral s → EndsNumeral rest → str2int (s ++ rest) ≡ some (value 0 s)
unfolding str2int
str2int_digits [] rest n e = absurd (n.some_digit refl)
str2int_digits (c ∷ s) rest n e = rw (n.digits.0) (digits_lem 0 (c ∷ s) rest n.digits e n.fits)

-- A byte that is no digit is passed over.
str2int_skip : (c : ℕ) (s : List ℕ) → is_digit c ≡ false → str2int (c ∷ s) ≡ str2int s
unfolding str2int
str2int_skip c s h = rw h

-- so many blanks
abbrev pub spaces : ℕ → List ℕ
spaces zero = []
spaces (suc n) = b' ' ∷ spaces n

str2int-spaces : (a : ℕ) (s : List ℕ) → str2int (spaces a ++ s) ≡ str2int s
str2int-spaces zero s = refl
str2int-spaces (suc a) s = str2int_skip b' ' (spaces a ++ s) refl ∙ str2int-spaces a s

-- The blank or digit behind `<` or `>` is no `=`.
no_equals :
    (c a : ℕ) (s rest : List ℕ)
    → IsNumeral s
    → (char_at (c ∷ (spaces a ++ (s ++ rest))) 1 == b'=') ≡ false
unfolding char_at
no_equals c (suc a) s rest n = refl
no_equals c zero [] rest n = absurd (n.some_digit refl)
no_equals c zero (d ∷ s) rest n = let h : is_digit d ≡ true = n.digits.0 in ground arith

equals : (c : ℕ) (s : List ℕ) → (char_at (c ∷ b'=' ∷ s) 1 == b'=') ≡ true
unfolding char_at
equals c s = refl

module _ (a : ℕ) (s rest : List ℕ) (n : IsNumeral s) (e : EndsNumeral rest) where
  one_skip :
      (c : ℕ) → is_digit c ≡ false → str2int (c ∷ (spaces a ++ (s ++ rest))) ≡ some (value 0 s)
  one_skip c h =
      str2int_skip c (spaces a ++ (s ++ rest)) h
      ∙ str2int-spaces a (s ++ rest)
      ∙ str2int_digits s rest n e

  two_skips :
      (c : ℕ)
      → is_digit c ≡ false
      → str2int (c ∷ b'=' ∷ (spaces a ++ (s ++ rest))) ≡ some (value 0 s)
  two_skips c h = str2int_skip c (b'=' ∷ (spaces a ++ (s ++ rest))) h ∙ one_skip b'=' refl

  -- The comparison's text is read as its bound.
  pub number_lem :
      (r : Relation)
      → number (op r) (text r ++ (spaces a ++ (s ++ rest))) ≡ some (bound r (value 0 s))
  unfolding number
  number_lem lt_ = ground (arith, one_skip b'<' refl, no_equals b'<' a s rest n)
  number_lem le_ = ground (arith, two_skips b'<' refl, equals b'<' (spaces a ++ (s ++ rest)))
  number_lem eq_ = ground (arith, one_skip b'=' refl)
  number_lem ge_ = ground (arith, two_skips b'>' refl, equals b'>' (spaces a ++ (s ++ rest)))
  number_lem gt_ = ground (arith, one_skip b'>' refl, no_equals b'>' a s rest n)

-- The search for an operator passes over blanks and ends at the operator.
pub find_op_lem :
    (a : ℕ) (r : Relation) (s : List ℕ)
    → find_op (spaces a ++ (text r ++ s)) ≡ some (op r, text r ++ s)
unfolding find_op
find_op_lem zero lt_ s = refl
find_op_lem zero _ s = refl
find_op_lem (suc a) r s = find_op_lem a r s

-- The search for the connective passes over blanks and digits.
pub skip_blanks : (a : ℕ) (s : List ℕ) → skip_to_conn (spaces a ++ s) ≡ skip_to_conn s
unfolding skip_to_conn
skip_blanks zero s = refl
skip_blanks (suc a) s = skip_blanks a s

pub skip_digits : (s rest : List ℕ) → AreDigits s → skip_to_conn (s ++ rest) ≡ skip_to_conn rest
unfolding skip_to_conn
skip_digits [] rest h = refl
skip_digits (c ∷ s) rest h =
    let d : (not (c == b'a') && not (c == b'o')) ≡ true =
      (let k : is_digit c ≡ true = h.0 in ground arith) in
    rw d (skip_digits s rest h.1)

pub skip_text : (r : Relation) (s : List ℕ) → skip_to_conn (text r ++ s) ≡ skip_to_conn s
unfolding skip_to_conn
skip_text lt_ s = refl
skip_text _ s = refl

abbrev pub conn_text : Conn → List ℕ
conn_text both = codes " and id"
conn_text either = codes " or id"

pub skip_conn :
    (c : Conn) (s : List ℕ) → skip_to_conn (conn_text c ++ s) ≡ drop 1 (conn_text c ++ s)
unfolding skip_to_conn
skip_conn both s = refl
skip_conn either s = refl

-- the blanks in front of an operator and behind it
pub record Spacing : Type 0 where
  pub before : ℕ
  pub behind : ℕ

-- what stands behind an `id`: an operator and a number
abbrev pub comparison : Spacing → Relation → List ℕ → List ℕ → List ℕ
comparison b r s rest = spaces b.before ++ (text r ++ (spaces b.behind ++ (s ++ rest)))

-- the two comparisons, joined, behind "where id"
abbrev pub comparisons : Spacing → Relation → List ℕ → Conn → Spacing → Relation → List ℕ → List ℕ
comparisons b r s c d q t = comparison b r s (conn_text c ++ comparison d q t [])

-- the statements in front of their comparisons
pub data Statement : Type 0 where
  select delete : Statement

abbrev pub statement_text : Statement → List ℕ
statement_text select = codes "select * from table where id"
statement_text delete = codes "delete from table where id"
