-- ===== src/Matu/Store/Statement.antt =====
-- What `update` of lib/matu.h reads from its statement, and `up`, which applies it to a row.
use example_engine.Prelude.{
  ℕ, Bool, ◌&&◌, not, Option, none, some, List, [], ◌∷◌, ◌==◌, if◌then◌else◌, ◌>>=◌, drop, length,
  leb,
}
use example_engine.Matu.Condition.{char_at, str2int}
use example_engine.Matu.Row.{RowData}

-- `sex` is `none` for -1; an empty string leaves its field alone.
pub record Change : Type 0 where
  pub sex : Option ℕ
  pub name : List ℕ
  pub num : List ℕ
  pub mail : List ℕ

abbrev pub or_kept : List ℕ → List ℕ → List ℕ
or_kept [] old = old
or_kept (c ∷ s) old = c ∷ s

abbrev pub or_sex : Option ℕ → Bool → Bool
or_sex none old = old
or_sex (some n) old = not (n == 0)

-- the row that `up` encodes
unfoldable pub up : RowData → Change → RowData
up t c = record t {
  sex = or_sex c.sex t.sex;
  name = or_kept c.name t.name;
  number = or_kept c.num t.number;
  email = or_kept c.mail t.email;
}

abbrev pub no_change : Change
no_change = record { sex = none; name = []; num = []; mail = [] }

-- `for (i = 0; i < sql.size(); i++) if (sql[i] == 's' && sql[i + 1] == 'e') break;`
unfoldable pub find_set : List ℕ → List ℕ
unfolding char_at
find_set [] = []
find_set (c ∷ s) = let rest = find_set s in if c == b's' && char_at s 0 == b'e' then c ∷ s else rest

-- `while (sql[i] == ' ') i++;`
unfoldable pub skip_blanks : List ℕ → List ℕ
skip_blanks [] = []
skip_blanks (c ∷ s) = let rest = skip_blanks s in if c == b' ' then rest else c ∷ s

-- `while (sql[i] != '=') i++; i++;`, which runs past a text without the sign
unfoldable pub behind_equals : List ℕ → Option (List ℕ)
behind_equals [] = none
behind_equals (c ∷ s) = let rest = behind_equals s in if c == b'=' then some s else rest

-- `while (sql[j] != ' ') j++;`: the bytes up to the next blank, which has to be there
unfoldable pub up_to_blank : List ℕ → Option (List ℕ)
up_to_blank [] = none
up_to_blank (c ∷ s) =
    let rest = up_to_blank s in if c == b' ' then some [] else (rest >>= λ t. some (c ∷ t))

-- a word, whose first byte is taken whatever it is
abbrev first_word : List ℕ → Option (List ℕ)
first_word [] = none
first_word (c ∷ s) = up_to_blank s >>= λ t. some (c ∷ t)

-- the word behind the sign
unfoldable pub word_behind : List ℕ → Option (List ℕ)
unfolding behind_equals skip_blanks up_to_blank
word_behind s = behind_equals s >>= λ t. first_word (skip_blanks t)

-- `i += 3`, which may not pass the final zero
abbrev pub past_set : List ℕ → Option (List ℕ)
past_set s = if leb 3 (length s) then some (drop 3 s) else none

unfoldable pub parse_set : List ℕ → Option Change
unfolding find_set skip_blanks behind_equals word_behind str2int
parse_set sql = do
  t ← past_set (find_set sql)
  let s = skip_blanks t
  let c = char_at s 0
  let d = char_at s 1
  let by_sex =
      (behind_equals s >>= λ u. str2int u >>= λ n. some (record no_change { sex = some n }))
  let by_mail = (word_behind s >>= λ w. some (record no_change { mail = w }))
  let by_name = (word_behind s >>= λ w. some (record no_change { name = w }))
  let by_number = (word_behind s >>= λ w. some (record no_change { num = w }))
  (if c == b's'
      then by_sex
      else if c == b'e'
      then by_mail
      else if c == b'n' && d == b'a'
      then by_name
      else if c == b'n' && d == b'u'
      then by_number
      else some no_change)
