-- ===== src/Block/Data.antt =====
-- `DataBlock` of lib/block.h and lib/block.cpp: records are kept at the far end of the block, and
-- their offsets in a directory that grows towards them.
pub mod Records
use example_engine.Prelude.{
  ℕ, ◌+◌, ◌-◌, ◌*◌, ◌^◌, Option, none, some, List, leb, ◌==◌, if◌then◌else◌, take,
}
use example_engine.Prelude.Int.{ℤ, pos, ◌-ℤ◌, lt_int}
use example_engine.Prelude.Memory.{Memory, read16, write16, write_bytes}
use example_engine.Block.Header
use example_engine.Block.Header.{BlockHeader, data_block, block_size, u16}

-- `page` is the block by offset. The fields in front of `directory` are kept beside it; from
-- `directory_at` on it holds the directory and the records.
pub record DataBlock : Type 0 where
  pub header : BlockHeader
  pub count : ℕ
  pub free : ℕ
  pub page : Memory

-- the offset of `directory`, packed behind the header, `count` and `free`
abbrev pub directory_at : ℕ
directory_at = 24

-- `&directory[i]`, as an offset
abbrev pub directory_addr : ℕ → ℕ
directory_addr i = directory_at + 2 * i

unfoldable pub init : DataBlock → ℕ → DataBlock
unfolding Header.init
init b index = record b {
  header = record (Header.init b.header index) { type = data_block };
  count = 0;
  free = block_size;
}

unfoldable pub free_size : DataBlock → ℤ
free_size b = pos b.free -ℤ pos (directory_addr (b.count + 1)) -ℤ pos 2 -ℤ pos 2

-- `free -= size + 2`
abbrev pub lowered : DataBlock → ℕ → ℕ
lowered b size = u16 (b.free + 2 ^ 17 - (size + 2))

-- The block that an insertion with room leaves: the record is copied to the lowered `free`, and
-- that offset is written to the directory.
unfoldable pub inserted : DataBlock → List ℕ → ℕ → DataBlock
inserted b data_ size = record b {
  free = lowered b size;
  page =
      write16 (write_bytes b.page (lowered b size) (take size data_)) (directory_addr b.count)
        (lowered b size);
  count = u16 (b.count + 1);
}

-- `some (position, block)` is the return of `true`, with what goes through `position`. The list is
-- what `data` points to, of which `size` bytes are copied.
unfoldable pub insert : DataBlock → List ℕ → ℕ → Option (ℕ × DataBlock)
unfolding free_size
insert b data_ size =
    if lt_int (free_size b) (pos size) then none else some (b.count, inserted b data_ size)

-- The pointer that is returned, as an offset into the block.
unfoldable pub get : DataBlock → ℕ → Option ℕ
get b position =
    let offset = read16 b.page (directory_addr position) in
    if leb b.count position then none else if offset == 0 then none else some offset
