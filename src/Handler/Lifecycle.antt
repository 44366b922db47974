-- ===== src/Handler/Lifecycle.antt =====
-- `create`, `open` and `close` of `ha_example` (ha_example.cc), over the files of the two trees. The
-- names of files are lists of character codes.
pub mod Laws
pub mod Disk
mod Tests
use example_engine.Prelude.{
  ℕ, ◌+◌, Bool, true, false, Option, none, some, List, [], ◌∷◌, ltb, if◌then◌else◌,
}
use example_engine.Block.Header.{u16}
use example_engine.Handler.Table.{Key, Table}
use example_engine.Handler.Keys.{keys}
use example_engine.Handler.Engine.{Code, ok, internal_error}

-- The files `F` and the trees `T` on them. `format_name` is the server's `fn_format`, for a name and
-- an extension; a tree is created and opened with the sizes of its keys and values, and `close_tree`
-- is its destructor.
pub record Files (F T : Type 0) : Type 0 where
  pub format_name : List ℕ → List ℕ → List ℕ
  pub create_tree : F → List ℕ → ℕ → ℕ → Bool × F
  pub open_tree : F → List ℕ → ℕ → ℕ → Option T
  pub close_tree : F → T → F

-- What `open` sets in the handler, with the size of `key_buffer`.
pub record Opened (T : Type 0) : Type 0 where
  pub p_btree : T
  pub s_btree : Option T
  pub primary_key_length : ℕ
  pub max_second_key_length : ℕ
  pub key_buffer : ℕ

-- The returns of `open`: 1, `HA_ERR_NO_SUCH_TABLE` and 0.
pub data Opening (T : Type 0) : Type 0 where
  no_share no_such_table : Opening T
  opened : Opened T → Opening T

-- ".db" and "_sec.db"
abbrev pub extension : List ℕ
extension = 46 ∷ 100 ∷ 98 ∷ []

abbrev pub sec_extension : List ℕ
sec_extension = 95 ∷ 115 ∷ 101 ∷ 99 ∷ extension

-- the value sizes of the trees: what `BTree` takes for no size, and none
abbrev pub any_size : ℕ
any_size = 0xffff

abbrev pub no_size : ℕ
no_size = 0

-- the loop for `max_second_key_length`, a `u16`
unfoldable pub longest : ℕ → List Key → ℕ
longest so_far [] = so_far
longest so_far (key ∷ rest) =
    longest (if ltb so_far key.key_length then u16 key.key_length else so_far) rest

module _ (table : Table) where
  abbrev pub primary_key_length : ℕ
  primary_key_length = u16 table.primary.key_length

  abbrev pub max_second_key_length : ℕ
  max_second_key_length = longest 0 table.secondary

  -- what `BTree` takes for the size of the secondary tree's keys, a `u16`
  abbrev pub second_key_size : ℕ
  second_key_size = u16 (primary_key_length + max_second_key_length + 1)

  module _ {F T : Type 0} (files : Files F T) where
    -- the part of `create` for the secondary keys
    abbrev pub create_secondary : F → List ℕ → Code × F
    create_secondary f name =
        let (done, f') =
          files.create_tree f (files.format_name name sec_extension) second_key_size no_size in
        if ltb 1 (keys table) then (if done then ok else internal_error, f') else (ok, f)

    unfoldable pub create : F → List ℕ → Code × F
    create f name =
        let (done, f') =
          files.create_tree f (files.format_name name extension) primary_key_length any_size in
        if done then create_secondary f' name else (internal_error, f')

    abbrev pub with_trees : T → Option T → Opened T
    with_trees p s = record {
      p_btree = p;
      s_btree = s;
      primary_key_length = primary_key_length;
      max_second_key_length = max_second_key_length;
      key_buffer = primary_key_length + max_second_key_length + 1;
    }

    -- the rest of `open`, with the tree of the primary key
    abbrev pub open_secondary : F → List ℕ → T → Opening T × F
    open_secondary f name p =
        if ltb 1 (keys table)
        then elim (files.open_tree f (files.format_name name sec_extension) second_key_size
            no_size) [
              | none ↦ (no_such_table, files.close_tree f p)
              | some s ↦ (opened (with_trees p (some s)), f)
            ]
        else (opened (with_trees p none), f)

    -- `open`, with whether `get_share` gave a share
    unfoldable pub open_ : Bool → F → List ℕ → Opening T × F
    open_ share f name =
        if share
        then elim (files.open_tree f (files.format_name name extension) primary_key_length
            any_size) [ none ↦ (no_such_table, f) | some p ↦ open_secondary f name p ]
        else (no_share, f)

    -- `delete`, if the pointer is not null
    abbrev pub delete_tree : F → Option T → F
    delete_tree f none = f
    delete_tree f (some t) = files.close_tree f t

    unfoldable pub close : F → Option T → Option T → F
    close f p s = delete_tree (delete_tree f p) s
