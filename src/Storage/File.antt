-- ===== src/Storage/File.antt =====
-- `MyFile` of lib/file.h and lib/file.cpp, over the file functions of Windows.
pub mod Blocks
use example_engine.Prelude.{
  ℕ, ◌-◌, ◌*◌, ◌^◌, Bool, true, false, not, Option, none, some, ◌&&◌, ltb, ◌==◌, if◌then◌else◌,
}
use example_engine.Prelude.Int.{ℤ, pos, negsuc}
use example_engine.Block.Header.{BlockHeader, block_size, u32}

-- The bytes of a block: its header and what stands behind it.
pub record Page : Type 0 where
  pub header : BlockHeader
  pub body : ℕ → ℕ

-- `SetFilePointer(handle, off, NULL, FILE_BEGIN)` with the position it returns, `WriteFile` and
-- `ReadFile` of a block at the position, with the number of bytes written, and `SetEndOfFile`.
-- `ReadFile` is given what the memory holds that it reads to. `H` is the state behind the handle.
pub record Device (H : Type 0) : Type 0 where
  pub set_file_pointer : H → ℤ → ℕ × H
  pub write_file : H → Page → Bool × ℕ × H
  pub read_file : H → Page → Bool × Page × H
  pub set_end_of_file : H → Bool × H

-- An offset is passed on as a `LONG`.
abbrev pub long : ℕ → ℤ
long off = if ltb off (2 ^ 31) then pos off else negsuc (2 ^ 32 - 1 - off)

-- `offset * blockSize`, a product of two `u32`
abbrev pub byte_position : ℕ → ℕ → ℕ
byte_position offset size = u32 (offset * size)

module _ {H : Type 0} (device : Device H) where
  unfoldable pub write_block : H → Page → ℕ → ℕ → Bool × H
  write_block h block offset size =
      let off = byte_position offset size in
      let (at, h') = device.set_file_pointer h (long off) in
      let (done, written, h'') = device.write_file h' block in
      if at == off then (done && (written == block_size), h'') else (false, h')

  -- `block` is what the memory holds that is read to.
  unfoldable pub read_block : H → Page → ℕ → ℕ → Bool × Page × H
  read_block h block offset size =
      let off = byte_position offset size in
      let (at, h') = device.set_file_pointer h (long off) in
      if at == off then device.read_file h' block else (false, block, h')

  -- A position counts as true if it is not 0.
  unfoldable pub resize : H → ℕ → ℕ → Bool × H
  resize h number size =
      let (at, h') = device.set_file_pointer h (long (byte_position size number)) in
      if at == 0 then (false, h') else device.set_end_of_file h'

  -- `create`, given what `CreateFileA` returns; the file is closed again where it succeeds
  unfoldable pub create : Option H → ℕ → ℕ → Bool × Option H
  unfolding resize
  create none number size = (false, none)
  create (some h) number size = let (done, h') = resize h number size in (done, some h')
