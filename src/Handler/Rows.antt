-- ===== src/Handler/Rows.antt =====
-- `pack_row` and `unpack_row` of ha_example.cc.
use example_engine.Prelude.{
  ℕ, ◌+◌, Bool, Option, none, some, List, [], ◌∷◌, ◌++◌, ltb, if◌then◌else◌, take, drop, length,
}
use example_engine.Handler.Table.{Field, Table}

-- the loop over the fields
unfoldable pub pack_fields : List Field → List ℕ → List ℕ
pack_fields [] buf = []
pack_fields (field ∷ fields) buf =
    if field.is_null buf
    then pack_fields fields buf
    else field.pack (drop field.offset buf) ++ pack_fields fields buf

-- `buf_size`, and whether `record_buffer` is not null
pub record RecordBuffer : Type 0 where
  pub size : ℕ
  pub allocated : Bool

-- the buffer after it has grown to hold a row
unfoldable pub grown : Table → RecordBuffer → List ℕ → RecordBuffer
grown table b buf =
    let max_len = table.reclength + table.blob_length buf in
    if ltb b.size max_len then record { size = max_len; allocated = table.malloc max_len } else b

-- The row in the record buffer; `none` is the return of -1 where there is no buffer.
unfoldable pub pack_row : Table → RecordBuffer → List ℕ → Option (List ℕ) × RecordBuffer
unfolding pack_fields grown
pack_row table b buf =
    let b' = grown table b buf in
    (
      if b'.allocated
          then some (take table.null_bytes buf ++ pack_fields table.fields buf)
          else none,
      b',
    )

-- `to`, with the bytes of a value written over those at an offset
abbrev pub overwrite : List ℕ → ℕ → List ℕ → List ℕ
overwrite to offset bytes = take offset to ++ (bytes ++ drop (offset + length bytes) to)

-- The loop over the fields: whether a field is null is read from the record that is being filled.
unfoldable pub unpack_fields : List Field → List ℕ → List ℕ → List ℕ
unpack_fields [] from to = to
unpack_fields (field ∷ fields) from to =
    let (value, rest) = field.unpack from in
    if field.is_null to
    then unpack_fields fields from to
    else unpack_fields fields rest (overwrite to field.offset value)

unfoldable pub unpack_row : Table → List ℕ → List ℕ → List ℕ
unfolding unpack_fields
unpack_row table from to =
    unpack_fields table.fields (drop table.null_bytes from)
      (overwrite to 0 (take table.null_bytes from))
