-- ===== src/Handler/Keys.antt =====
-- The comparisons of keys and `key_copy`, `pack_key` of ha_example.cc. A pointer into a key is the
-- list of the bytes from there on. A return of `none` is a failed `assert` or a read past the parts.
pub mod Search
use Prim.Native.Nat.{bit_and}
use example_engine.Prelude.{
  ℕ, zero, suc, ◌+◌, ◌-◌, ◌^◌, Bool, not, Option, none, some, List, [], ◌∷◌, ◌++◌, ltb, ◌==◌,
  if◌then◌else◌, ◌>>=◌, ◌>>◌, assert, take, drop, replicate, length, get_elem?,
}
use example_engine.Prelude.Int.{ℤ, pos, negsuc, ◌-ℤ◌, is_zero}
use example_engine.Block.Header.{u32}
use example_engine.Handler.Table.{KeyPart, Key, Table}

-- the byte of the null flag in front of a part
abbrev pub null_size : KeyPart → ℕ
null_size part = if part.nullable then 1 else 0

-- The loop over the parts: the comparison of the first part that differs, or 0 with the bytes behind
-- all parts.
unfoldable pub compare_parts : List KeyPart → List ℕ → List ℕ → ℤ × List ℕ × List ℕ
compare_parts [] ap bp = (pos 0, ap, bp)
compare_parts (part ∷ parts) ap bp =
    let cmp = part.key_cmp (drop (null_size part) ap) (drop (null_size part) bp) in
    let rest = compare_parts parts (drop part.store_length ap) (drop part.store_length bp) in
    if is_zero cmp then rest else (cmp, ap, bp)

unfoldable pub primary_key_compare : Table → List ℕ → List ℕ → ℤ
unfolding compare_parts
primary_key_compare share a b = (compare_parts share.primary.parts a b).0

-- the first byte of a key of the second tree: the number of the index, and the flags of a search
abbrev pub first_byte : List ℕ → ℕ
first_byte [] = 0
first_byte (c ∷ _) = c

-- `key_info[key_num]`
abbrev pub key_info : Table → ℕ → Option Key
key_info share zero = some share.primary
key_info share (suc n) = get_elem? share.secondary n

-- `table->s->keys`
abbrev pub keys : Table → ℕ
keys share = length share.secondary + 1

unfoldable pub second_key_compare_prefix : Table → List ℕ → List ℕ → Option ℤ
unfolding compare_parts
second_key_compare_prefix share a b =
    let key_num = bit_and (first_byte a) 0x7f in
    let key_numb = bit_and (first_byte b) 0x7f in
    let parts =
      (key_info share key_num >>= λ key. some (compare_parts key.parts (drop 1 a) (drop 1 b)).0) in
    if key_num == key_numb then parts else some (pos key_num -ℤ pos key_numb)

-- the end of `second_key_compare`: `b` with a flag stands in front of or behind all keys with its
-- parts, and without one the primary keys decide
abbrev pub break_tie : Table → Bool → Bool → ℤ × List ℕ × List ℕ → ℤ
break_tie share first_flag last_flag (cmp, ap, bp) =
    if is_zero cmp
    then (if last_flag
        then negsuc 0
        else if first_flag
        then pos 1
        else primary_key_compare share ap bp)
    else cmp

unfoldable pub second_key_compare : Table → List ℕ → List ℕ → Option ℤ
unfolding compare_parts primary_key_compare
second_key_compare share a b =
    let key_num = bit_and (first_byte a) 0x3f in
    let key_numb = bit_and (first_byte b) 0x3f in
    let first_flag = not (bit_and (first_byte b) 0x80 == 0) in
    let last_flag = not (bit_and (first_byte b) 0x40 == 0) in
    let tied =
      (assert (bit_and (first_byte a) 0x80 == 0) >> key_info share key_num >>= λ key.
      some
        (break_tie share first_flag last_flag (compare_parts key.parts (drop 1 a) (drop 1 b)))) in
    if key_num == key_numb then tied else some (pos key_num -ℤ pos key_numb)

-- `HA_KEY_BLOB_LENGTH`
abbrev pub blob_length_size : ℕ
blob_length_size = 2

-- `key_length -= HA_KEY_BLOB_LENGTH` in `u32`, for a part of variable length
abbrev pub kept : KeyPart → ℕ → ℕ
kept part left = if part.variable_length then u32 (left + 2 ^ 32 - blob_length_size) else left

-- the bytes that are copied of a part, for so many bytes of the key left
abbrev pub copied_length : KeyPart → ℕ → ℕ
copied_length part left = if ltb left part.length then left else part.length

-- `(int)key_length`, or 0 where that is negative
abbrev pub as_int : ℕ → ℕ
as_int n = if ltb n (2 ^ 31) then n else 0

-- the null flag of a part
abbrev pub null_flag : KeyPart → List ℕ → List ℕ
null_flag part record_ = if part.nullable then (if part.is_null record_ then 1 else 0) ∷ [] else []

-- The bytes that the pointer into the key passes for a part, in a buffer of zeros: two more than are
-- copied for a part of variable length.
abbrev pub copied_part : KeyPart → List ℕ → ℕ → List ℕ
copied_part part record_ length =
    take length (drop part.offset record_)
    ++ replicate (if part.variable_length then blob_length_size else 0) 0

-- `key_copy`, for so many bytes of `key_length` left; it reads on past the parts if they are shorter
unfoldable pub key_copy : List KeyPart → List ℕ → ℕ → Option (List ℕ)
key_copy [] record_ zero = some []
key_copy [] record_ (suc left) = none
key_copy (part ∷ parts) record_ zero = some []
key_copy (part ∷ parts) record_ (suc left) =
    let flag = null_flag part record_ in
    let left' = kept part (suc left - length flag) in
    let n = copied_length part left' in
    key_copy parts record_ (as_int (u32 (left' + 2 ^ 32 - n))) >>= λ rest.
    some (flag ++ (copied_part part record_ n ++ rest))

-- `pack_key`, without the zeros behind the key: the primary key goes to where the secondary one ends
-- by its length, over what `key_copy` may have written there.
unfoldable pub pack_key : Table → ℕ → List ℕ → Option (List ℕ)
unfolding key_copy
pack_key table zero record_ = key_copy table.primary.parts record_ table.primary.key_length
pack_key table (suc n) record_ = do
  key ← key_info table (suc n)
  second ← key_copy key.parts record_ key.key_length
  primary ← key_copy table.primary.parts record_ table.primary.key_length
  let front = take key.key_length (second ++ replicate key.key_length 0)
  let behind = drop (key.key_length + length primary) second
  some (suc n ∷ (front ++ (primary ++ behind)))
