-- ===== src/Matu/Row.antt =====
-- `RowData`, `encode` and `decode` of lib/matu.h. A pointer into a record is the list of the bytes
-- from there on, and a read past the end of the record is a `none`.
pub mod Codec
mod Tests
use example_engine.Prelude.{
  ℕ, zero, suc, ◌+◌, ◌-◌, ◌*◌, ◌/◌, ◌%◌, ◌^◌, Bool, true, false, not, Option, none, some, List, [],
  ◌∷◌, ◌++◌, ltb, ◌==◌, if◌then◌else◌, ◌>>=◌, length, take, drop, get_elem?,
}
use example_engine.Prelude.Int.{ℤ, pos, negsuc}
use example_engine.Block.Header.{u16, u32}

-- A string is its bytes.
pub record RowData : Type 0 where
  pub id : ℤ
  pub sex : Bool
  pub name : List ℕ
  pub number : List ℕ
  pub email : List ℕ

-- an `int` as the four bytes that it is stored in, and back
abbrev pub to_u32 : ℤ → ℕ
to_u32 (pos n) = n % 2 ^ 32
to_u32 (negsuc n) = 2 ^ 32 - 1 - n % 2 ^ 32

abbrev pub of_u32 : ℕ → ℤ
of_u32 n = if ltb n (2 ^ 31) then pos n else negsuc (2 ^ 32 - 1 - n)

-- `*(u16 *)p = v; p += 2;`, with what is written behind it
abbrev pub put16 : ℕ → List ℕ → List ℕ
put16 v rest = v % 256 ∷ v / 256 ∷ rest

abbrev pub put32 : ℕ → List ℕ → List ℕ
put32 v rest = v % 256 ∷ v / 256 % 256 ∷ v / 65536 % 256 ∷ v / 16777216 ∷ rest

abbrev pub byte_of_bool : Bool → ℕ
byte_of_bool true = 1
byte_of_bool false = 0

-- the length that a string is given
abbrev pub length16 : List ℕ → ℕ
length16 s = u16 (length s)

-- `memcpy(p, s.c_str(), len); p += len; *p = '\0'; p++;`
abbrev pub put_string : List ℕ → List ℕ → List ℕ
put_string s rest = take (length16 s) s ++ (0 ∷ rest)

unfoldable pub encode : RowData → List ℕ
encode r = put16 (u16 (16 + length16 r.name + length16 r.email + length16 r.number)) (
    put16 (length16 r.name) (
      put16 (length16 r.number) (
        put16 (length16 r.email) (
          put32 (to_u32 r.id) (
            byte_of_bool r.sex
            ∷ put_string r.name (put_string r.number (put_string r.email [])))))))

-- `*(u16 *)p`
abbrev pub get16 : List ℕ → Option ℕ
get16 (b₀ ∷ b₁ ∷ _) = some (b₀ + 256 * b₁)
get16 _ = none

abbrev pub get32 : List ℕ → Option ℕ
get32 (b₀ ∷ b₁ ∷ b₂ ∷ b₃ ∷ _) = some (b₀ + 256 * b₁ + 65536 * b₂ + 16777216 * b₃)
get32 _ = none

-- the string that begins at `(char *)p`: the bytes in front of the first zero
unfoldable pub c_string : List ℕ → Option (List ℕ)
c_string [] = none
c_string (c ∷ s) = let rest = c_string s in if c == 0 then some [] else (rest >>= λ t. some (c ∷ t))

unfoldable pub decode : List ℕ → Option RowData
unfolding c_string
decode record_ = do
  let p = drop 2 record_
  name_len ← get16 p
  num_len ← get16 (drop 2 p)
  email_len ← get16 (drop 4 p)
  id ← get32 (drop 6 p)
  sex ← get_elem? p 10
  name ← c_string (drop 11 p)
  number ← c_string (drop name_len (drop 12 p))
  email ← c_string (drop name_len (drop num_len (drop 13 p)))
  some
      (record { id = of_u32 id; sex = not (sex == 0); name = name; number = number; email = email })
