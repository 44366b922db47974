-- ===== src/Handler/Engine.antt =====
-- `ha_example` of ha_example.cc: the handler's state and its operations, over what they use of the
-- trees and of the server. A return of `none` is a fault of a callee.
pub mod Contents
pub mod Write
pub mod Kept
pub mod Tests
use example_engine.Prelude.{
  ℕ, zero, suc, ◌+◌, ◌-◌, Bool, true, false, Option, none, some, List, [], ◌∷◌, ◌==◌, if◌then◌else◌,
  ◌>>=◌, drop, length,
}
use Prim.Native.Nat.{bit_or}
use example_engine.Prelude.Int.{is_zero}
use example_engine.Btree.Tree.Insert.{Outcome, inserted, duplicate, failed}
use example_engine.Btree.Tree.Iterator.{
  IterFlag, exact_key, key_or_next, key_or_prev, after_key, before_key,
}
use example_engine.Handler.Table.{Table}
use example_engine.Handler.Keys.{keys, key_info, pack_key, second_key_compare_prefix}
use example_engine.Handler.Rows.{RecordBuffer, pack_row, unpack_row}

-- The operations of `BTree` and `BTree::Iterator`: `T` is the state of a tree, `I` that of an
-- iterator.
pub record Trees (T I : Type 0) : Type 0 where
  pub put : T → List ℕ → List ℕ → ℕ → Option (Outcome × T)
  pub locate : T → List ℕ → IterFlag → Option (Bool × I)
  pub first : T → Option (Bool × I)
  pub last : T → Option (Bool × I)
  pub next : T → I → Option (Bool × I)
  pub prev : T → I → Option (Bool × I)
  pub remove : T → I → Option T
  pub get_key : T → I → Option (List ℕ)
  pub get_value : T → I → Option (Option (List ℕ))
  pub count_of_items : T → ℕ

-- The return codes: 0 and the `HA_ERR_*` that the engine uses; `server_error` is an error of
-- `update_auto_increment`.
pub data Code : Type 0 where
  ok found_dupp_key key_not_found end_of_file internal_error out_of_mem wrong_command : Code
  server_error : ℕ → Code

-- The search flags of the server (`ha_rkey_function`); `other_flag` stands for those without a case.
pub data RkeyFunction : Type 0 where
  read_key_exact read_key_or_next read_key_or_prev read_after_key read_before_key : RkeyFunction
  read_prefix_last_or_prev other_flag : RkeyFunction

-- The members of `ha_example` and of `handler` that the operations read and write. `not_found` is
-- `table->status == STATUS_NOT_FOUND`.
pub record Handler (T I : Type 0) : Type 0 where
  pub p_btree : T
  pub s_btree : T
  pub primary_it : I
  pub sec_it : I
  pub active_index : ℕ
  pub first_row : Bool
  pub key_read : Bool
  pub not_found : Bool
  pub buffer : RecordBuffer
  pub records : ℕ

-- `auto_increment` is `update_auto_increment`, where it is called: an error code and the record.
-- `key_restore` is the server's function of that name.
pub record Server : Type 0 where
  pub auto_increment : List ℕ → ℕ × List ℕ
  pub key_restore : List ℕ → List ℕ → ℕ → List ℕ

module _ {T I : Type 0} (trees : Trees T I) (server : Server) (table : Table) where
  -- the loop of `write_row` over the indexes from `idx` on, for so many left
  unfoldable pub put_secondary : ℕ → ℕ → T → List ℕ → Option (Code × T)
  put_secondary zero idx s buf = some (ok, s)
  put_secondary (suc left) idx s buf = do
    key ← pack_key table idx buf
    (res, s') ← trees.put s key [] 0
    let rest = put_secondary left (idx + 1) s' buf
    elim res [ inserted ↦ rest | _ ↦ some (internal_error, s') ]

  -- `write_row` from the primary key on, with the packed row
  unfoldable pub put_row : Handler T I → List ℕ → List ℕ → Option (Code × Handler T I)
  unfolding put_secondary
  put_row h buf row = do
    key ← pack_key table 0 buf
    (res, p) ← trees.put h.p_btree key row (length row)
    let h' = record h { p_btree = p }
    let secondary = put_secondary (keys table - 1) 1 h.s_btree buf
    elim res [
      | failed ↦ some (internal_error, h')
      | duplicate ↦ some (found_dupp_key, h')
      | inserted ↦ (secondary >>= λ (code, s). some (code, record h' { s_btree = s }))
    ]

  -- `write_row` behind `update_auto_increment`
  abbrev pub write_numbered : Handler T I → ℕ × List ℕ → Option (Code × Handler T I)
  write_numbered h (error, buf) =
      let (row, buffer) = pack_row table h.buffer buf in
      let h' = record h { buffer = buffer } in
      let stored : Option (Code × Handler T I) = elim row [
        | none ↦ some (out_of_mem, h')
        | some bytes ↦ put_row h' buf bytes
      ] in
      if error == 0 then stored else some (server_error error, h)

  -- `write_row`; the record is the one with its automatic number
  unfoldable pub write_row : Handler T I → List ℕ → Option (Code × Handler T I)
  write_row h buf₀ = write_numbered h (server.auto_increment buf₀)

  -- the loop of `delete_row` over the indexes
  unfoldable pub remove_secondary : ℕ → ℕ → T → List ℕ → Option (Code × T)
  remove_secondary zero idx s buf = some (ok, s)
  remove_secondary (suc left) idx s buf = do
    key ← pack_key table idx buf
    (found, it) ← trees.locate s key exact_key
    let rest = (trees.remove s it >>= λ s'. remove_secondary left (idx + 1) s' buf)
    (if found then rest else some (key_not_found, s))

  unfoldable pub delete_row : Handler T I → List ℕ → Option (Code × Handler T I)
  unfolding remove_secondary
  delete_row h buf = do
    key ← pack_key table 0 buf
    (found, it) ← trees.locate h.p_btree key exact_key
    let removed = (do
      p ← trees.remove h.p_btree it
      (code, s) ← remove_secondary (keys table - 1) 1 h.s_btree buf
      some (code, record h { p_btree = p; s_btree = s }))
    (if found then removed else some (key_not_found, h))

  -- `update_row`; the result of the first `update_auto_increment` is not looked at
  unfoldable pub update_row : Handler T I → List ℕ → List ℕ → Option (Code × Handler T I)
  update_row h old_data new_data = do
    (rc, h') ← delete_row h old_data
    let written = write_row h' (server.auto_increment new_data).1
    elim rc [ ok ↦ written | code ↦ some (code, h') ]

  -- What a read leaves in the record buffer `buf`.
  abbrev pub Reading : Type 0
  Reading = Option (Code × List ℕ × Handler T I)

  -- `get_cur_row(0, buf)`
  unfoldable pub get_primary_row : Handler T I → List ℕ → Reading
  unfolding unpack_row
  get_primary_row h buf = do
    value ← trees.get_value h.p_btree h.primary_it
    some (elim value [
      | none ↦ (internal_error, buf, h)
      | some row ↦ (ok, unpack_row table row buf, h)
    ])

  -- `rnd_pos`
  unfoldable pub rnd_pos : Handler T I → List ℕ → List ℕ → Reading
  unfolding get_primary_row
  rnd_pos h buf pos = do
    (found, it) ← trees.locate h.p_btree pos exact_key
    let h' = record h { primary_it = it }
    (if found then get_primary_row h' buf else some (key_not_found, buf, h'))

  -- `get_cur_row`
  unfoldable pub get_cur_row : Handler T I → ℕ → List ℕ → Reading
  unfolding get_primary_row rnd_pos
  get_cur_row h zero buf = get_primary_row h buf
  get_cur_row h (suc n) buf = do
    key ← key_info table (suc n)
    sec_key ← trees.get_key h.s_btree h.sec_it
    let behind = drop (1 + key.key_length) sec_key
    let restored = server.key_restore (server.key_restore buf (drop 1 sec_key) (suc n)) behind 0
    (if h.key_read then some (ok, restored, h) else rnd_pos h buf behind)

  -- the iterator of the active index moved
  abbrev pub placed : Handler T I → I → Handler T I
  placed h it =
      if h.active_index == 0 then record h { primary_it = it } else record h { sec_it = it }

  -- The end of the index operations: the iterator of the active index was moved, with `missing` for
  -- its failure.
  unfoldable pub finish : Handler T I → Option (Bool × I) → Code → List ℕ → Reading
  unfolding get_cur_row
  finish h moved missing buf = do
    (found, it) ← moved
    let h' = placed h it
    (code, buf', h'') ←
        (if found then get_cur_row h' h.active_index buf else some (missing, buf, h'))
    some (code, buf', record h'' { not_found = false })

  -- a `locate` with the iterator of the active index, for the key with a flag on its first byte
  abbrev pub locate_active : Handler T I → List ℕ → ℕ → IterFlag → Option (Bool × I)
  locate_active h key bits flag =
      if h.active_index == 0
      then trees.locate h.p_btree key flag
      else trees.locate h.s_btree (bit_or h.active_index bits ∷ key) flag

  -- The test behind `HA_READ_KEY_EXACT` on another index than the primary: the item has the key.
  unfoldable pub has_prefix : Handler T I → I → List ℕ → Option Bool
  has_prefix h it key =
      if h.active_index == 0
      then some true
      else (trees.get_key h.s_btree it >>= λ sec_key.
          second_key_compare_prefix table sec_key (bit_or h.active_index 0x80 ∷ key) >>= λ c.
          some (is_zero c))

  -- the cases of `index_read` that search and then read
  unfoldable pub read_found : Handler T I → List ℕ → Option (Bool × I) → Option Bool → Reading
  unfolding get_cur_row
  read_found h buf moved accepted = do
    (found, it) ← moved
    let h' = placed h it
    let read =
        (get_cur_row h' h.active_index buf >>= λ (code, buf', h'').
        some (code, buf', record h'' { not_found = false }))
    fits ← (if found then accepted else some false)
    (if fits then read else some (key_not_found, buf, h'))

  -- `index_read`
  unfoldable pub index_read : Handler T I → List ℕ → List ℕ → RkeyFunction → Reading
  unfolding has_prefix read_found
  index_read h₀ buf key find_flag =
      let h = record h₀ { not_found = true } in
      let search = (λ (bits : ℕ) (flag : IterFlag).
        read_found h buf (locate_active h key bits flag) (some true)) in
      let exact = (do
        (found, it) ←
            locate_active h key 0x80 (if h.active_index == 0 then exact_key else key_or_next)
        read_found h buf (some (found, it)) (has_prefix h it key)) in
      elim find_flag [
        | read_key_exact ↦ exact
        | read_key_or_next ↦ search 0x80 key_or_next
        | read_key_or_prev ↦ search 0x80 key_or_prev
        | read_after_key ↦ search 0x80 after_key
        | read_before_key ↦ search 0x80 before_key
        | read_prefix_last_or_prev ↦ search 0x40 key_or_prev
        | other_flag ↦ some (wrong_command, buf, h)
      ]

  unfoldable pub index_next : Handler T I → List ℕ → Reading
  unfolding finish
  index_next h buf =
      finish h
        (if h.active_index == 0
          then trees.next h.p_btree h.primary_it
          else trees.next h.s_btree h.sec_it)
        end_of_file buf

  unfoldable pub index_prev : Handler T I → List ℕ → Reading
  unfolding finish
  index_prev h buf =
      finish h
        (if h.active_index == 0
          then trees.prev h.p_btree h.primary_it
          else trees.prev h.s_btree h.sec_it)
        end_of_file buf

  unfoldable pub index_first : Handler T I → List ℕ → Reading
  unfolding finish
  index_first h buf =
      finish h (if h.active_index == 0 then trees.first h.p_btree else trees.first h.s_btree)
        key_not_found buf

  unfoldable pub index_last : Handler T I → List ℕ → Reading
  unfolding finish
  index_last h buf =
      finish h (if h.active_index == 0 then trees.last h.p_btree else trees.last h.s_btree)
        key_not_found buf

  abbrev pub rnd_init : Handler T I → Handler T I
  rnd_init h = record h { active_index = 0; first_row = true }

  abbrev pub rnd_end : Handler T I → Handler T I
  rnd_end h = record h { first_row = false }

  unfoldable pub rnd_next : Handler T I → List ℕ → Reading
  unfolding index_first index_next
  rnd_next h buf =
      if h.first_row then index_first (record h { first_row = false }) buf else index_next h buf

  unfoldable pub info : Handler T I → Handler T I
  info h = record h { records = trees.count_of_items h.p_btree }
