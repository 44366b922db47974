-- ===== src/Handler/Table.antt =====
-- What the engine reads of the server's description of a table (`TABLE`, `TABLE_SHARE`, `KEY`,
-- `KEY_PART_INFO`, `Field`). These are the server's: `key_cmp`, `pack` and `unpack` are parameters.
use example_engine.Prelude.{ℕ, Bool, List}
use example_engine.Prelude.Int.{ℤ}

-- A key part with the comparison of its field. `is_null` is `MY_TEST` on the null bit of a record.
pub record KeyPart : Type 0 where
  pub nullable : Bool
  pub is_null : List ℕ → Bool
  pub variable_length : Bool
  pub offset : ℕ
  pub length : ℕ
  pub store_length : ℕ
  pub key_cmp : List ℕ → List ℕ → ℤ

pub record Key : Type 0 where
  pub key_length : ℕ
  pub parts : List KeyPart

-- `is_null` is `field->is_null()`, which reads `table->record[0]`: the record that the engine packs or
-- fills is taken for that one. `pack` writes the field's value from the record, `unpack` reads it from the front of a row and
-- leaves the rest.
pub record Field : Type 0 where
  pub is_null : List ℕ → Bool
  pub offset : ℕ
  pub pack : List ℕ → List ℕ
  pub unpack : List ℕ → List ℕ × List ℕ

-- `malloc` says which sizes are allocated; `blob_length` is the sum over the blob fields; the first
-- of the keys is the primary key.
pub record Table : Type 0 where
  pub primary : Key
  pub secondary : List Key
  pub fields : List Field
  pub null_bytes : ℕ
  pub reclength : ℕ
  pub blob_length : List ℕ → ℕ
  pub malloc : ℕ → Bool
