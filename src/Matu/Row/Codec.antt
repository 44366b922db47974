-- ===== src/Matu/Row/Codec.antt =====
-- `decode` reads back what `encode` wrote.
use example_engine.Prelude.{
  ℕ, ◌+◌, ◌*◌, ◌/◌, ◌%◌, ◌^◌, ◌<◌, ◌≡◌, ◌≢◌, refl, sym, ap, ◌∙◌, Bool, true, false, not, Option,
  some, List, [], ◌∷◌, ◌++◌, arith, append_assoc, length, length-append, take-length, drop,
  drop-append, drop-drop, ◌==◌, ◌>>=◌,
}
use example_engine.Prelude.Int.{ℤ, pos, negsuc}
use example_engine.Block.Header.{u16}
use example_engine.Matu.Row.{
  RowData, to_u32, of_u32, put16, put32, put_string, byte_of_bool, length16, encode, get16, get32,
  c_string, decode,
}

-- `int` holds the integer
abbrev pub IsInt : ℤ → Type 0
IsInt (pos n) = n < 2 ^ 31
IsInt (negsuc n) = n < 2 ^ 31

-- no byte of the string is zero
abbrev pub NoZero : List ℕ → Type 0
NoZero [] = Unit {0}
NoZero (c ∷ s) = (c ≢ 0) × NoZero s

-- a row whose record has its size in a `u16`
pub record Fits (r : RowData) : Type 0 where
  pub id : IsInt r.id
  pub name : NoZero r.name
  pub number : NoZero r.number
  pub email : NoZero r.email
  pub size : 16 + length r.name + length r.number + length r.email < 2 ^ 16

of_u32-to_u32 : (i : ℤ) → IsInt i → of_u32 (to_u32 i) ≡ i
of_u32-to_u32 (pos n) h = ground arith
of_u32-to_u32 (negsuc n) h = ground arith

sex_lem : (b : Bool) → not (byte_of_bool b == 0) ≡ b
sex_lem true = refl
sex_lem false = refl

get16_lem : (v : ℕ) (rest : List ℕ) → get16 (put16 v rest) ≡ some v
get16_lem v rest = ground arith

get32_lem : (v : ℕ) (rest : List ℕ) → get32 (put32 v rest) ≡ some v
get32_lem v rest = ground arith

c_string_lem : (s rest : List ℕ) → NoZero s → c_string (s ++ (0 ∷ rest)) ≡ some s
unfolding c_string
c_string_lem [] rest h = refl
c_string_lem (c ∷ s) rest h =
    let z : (c == 0) ≡ false = (let k : c ≢ 0 = h.0 in ground arith) in
    rw (z, c_string_lem s rest h.1)

put_string_lem : (s rest : List ℕ) → length s < 2 ^ 16 → put_string s rest ≡ s ++ (0 ∷ rest)
put_string_lem s rest h = ap (λ t. t ++ (0 ∷ rest)) (take-length s (length16 s) (omega arith))

-- behind a string and its zero
behind_one : (s rest : List ℕ) (k : ℕ) → k ≡ length s + 1 → drop k (s ++ (0 ∷ rest)) ≡ rest
behind_one s rest k h =
    ap (drop k) (sym (append_assoc s (0 ∷ []) rest))
    ∙ drop-append (s ++ (0 ∷ [])) rest k (omega (arith, length-append s (0 ∷ [])))

behind_two :
    (s t rest : List ℕ) (n m : ℕ)
    → n ≡ length s
    → m ≡ length t
    → drop n (drop m (drop 2 (s ++ (0 ∷ (t ++ (0 ∷ rest)))))) ≡ rest
behind_two s t rest n m h k =
    let all_ = s ++ (0 ∷ (t ++ (0 ∷ rest))) in
    ap (drop n) (drop-drop m 2 (m + 2) all_ refl)
    ∙ drop-drop n (m + 2) (n + (m + 2)) all_ refl
    ∙ sym (drop-drop (m + 1) (n + 1) (n + (m + 2)) all_ (omega arith))
    ∙ ap (drop (m + 1)) (behind_one s (t ++ (0 ∷ rest)) (n + 1) (omega arith))
    ∙ behind_one t rest (m + 1) (omega arith)

-- what `decode` makes of the strings behind the fixed part of a record
abbrev strings : ℕ → ℕ → ℤ → Bool → List ℕ → Option RowData
strings name_len num_len id sex rest = do
  name ← c_string rest
  number ← c_string (drop name_len (drop 1 rest))
  email ← c_string (drop name_len (drop num_len (drop 2 rest)))
  some (record { id = id; sex = sex; name = name; number = number; email = email })

decode_fixed :
    (size name_len num_len email_len id sex : ℕ) (rest : List ℕ)
    → decode (put16 size (put16 name_len (put16 num_len (put16 email_len (put32 id (sex ∷ rest))))))
      ≡ strings name_len num_len (of_u32 id) (not (sex == 0)) rest
unfolding decode
decode_fixed size name_len num_len email_len id sex rest =
    let e : name_len % 256 + 256 * (name_len / 256) ≡ name_len = omega arith in
    let f : num_len % 256 + 256 * (num_len / 256) ≡ num_len = omega arith in
    let g : id % 256
          + 256 * (id / 256 % 256)
          + 65536 * (id / 65536 % 256)
          + 16777216 * (id / 16777216)
        ≡ id =
      omega arith in
    rw (e, f, g)

strings_lem :
    (r : RowData) (n m : ℕ)
    → Fits r
    → n ≡ length r.name
    → m ≡ length r.number
    → strings n m r.id r.sex (r.name ++ (0 ∷ (r.number ++ (0 ∷ (r.email ++ (0 ∷ [])))))) ≡ some r
strings_lem r n m fits h k =
    let tail = r.email ++ (0 ∷ []) in
    rw (
      c_string_lem r.name (r.number ++ (0 ∷ tail)) fits.name,
      drop-drop n 1 (n + 1) (r.name ++ (0 ∷ (r.number ++ (0 ∷ tail)))) refl,
      behind_one r.name (r.number ++ (0 ∷ tail)) (n + 1) (omega arith),
      c_string_lem r.number tail fits.number,
      behind_two r.name r.number tail n m h k,
      c_string_lem r.email [] fits.email,
    )

abbrev strings_of : RowData → List ℕ
strings_of r = put_string r.name (put_string r.number (put_string r.email []))

strings_of_lem :
    (r : RowData)
    → Fits r
    → strings_of r ≡ r.name ++ (0 ∷ (r.number ++ (0 ∷ (r.email ++ (0 ∷ [])))))
strings_of_lem r fits =
    ap (λ t. put_string r.name (put_string r.number t))
      (put_string_lem r.email [] (omega (arith, fits.size)))
    ∙ ap (put_string r.name) (put_string_lem r.number _ (omega (arith, fits.size)))
    ∙ put_string_lem r.name _ (omega (arith, fits.size))

-- A row whose strings hold no zero byte, whose id is an `int` and whose record has a size that fits
-- in 16 bits is read back from its record as it was.
pub decode-encode : (r : RowData) → Fits r → decode (encode r) ≡ some r
unfolding encode
decode-encode r fits =
    decode_fixed (u16 (16 + length16 r.name + length16 r.email + length16 r.number))
      (length16 r.name) (length16 r.number) (length16 r.email) (to_u32 r.id) (byte_of_bool r.sex)
      (strings_of r)
    ∙ rw (of_u32-to_u32 r.id fits.id, sex_lem r.sex, strings_of_lem r fits)
        (strings_lem r (length16 r.name) (length16 r.number) fits (omega (arith, fits.size))
          (omega (arith, fits.size)))

length-string : (s rest : List ℕ) → length (s ++ (0 ∷ rest)) ≡ length s + 1 + length rest
length-string s rest = omega (arith, length-append s (0 ∷ rest))

-- The first two bytes of such a row's record are the number of its bytes, by which the record is
-- inserted in the tree.
pub get16-encode : (r : RowData) → Fits r → get16 (encode r) ≡ some (length (encode r))
unfolding encode
get16-encode r fits =
    let e = ap length (strings_of_lem r fits) in
    let t = r.number ++ (0 ∷ (r.email ++ (0 ∷ []))) in
    get16_lem (u16 (16 + length16 r.name + length16 r.email + length16 r.number)) []
    ∙ ap (λ (n : ℕ). some n)
        (omega (
          arith,
          fits.size,
          e,
          length-string r.name t,
          length-string r.number (r.email ++ (0 ∷ [])),
          length-string r.email [],
        ))
