-- ===== src/Block/Header.antt =====
-- lib/block.h: block types and `BlockHeader`.
use example_engine.Prelude.{ℕ, ◌%◌, ◌^◌}

-- `BLOCK_TYPE_*`
pub data BlockType : Type 0 where
  free_block data_block meta_block leaf_block node_block log_block : BlockType

abbrev pub magic_num : ℕ
magic_num = 0x1ef0c6c1

abbrev pub block_size : ℕ
block_size = 4096

-- The bit field `type` holds a `BlockType`; `reserved` is the other bit field.
pub record BlockHeader : Type 0 where
  pub magic : ℕ
  pub type : BlockType
  pub reserved : ℕ
  pub checksum : ℕ
  pub index : ℕ
  pub next : ℕ
  pub last : ℕ

unfoldable pub init : BlockHeader → ℕ → BlockHeader
init h index = record h { index = index; magic = magic_num; next = 0; last = 0 }

-- `sizeof(BlockHeader)`, packed: 4 + 2 + 2 + 4 + 4 + 4
abbrev pub header_size : ℕ
header_size = 20

-- conversion to `u16`
abbrev pub u16 : ℕ → ℕ
u16 n = n % 2 ^ 16

-- conversion to `u32`
abbrev pub u32 : ℕ → ℕ
u32 n = n % 2 ^ 32
