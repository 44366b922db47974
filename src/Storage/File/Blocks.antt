-- ===== src/Storage/File/Blocks.antt =====
-- Blocks are read and written where the file holds them, up to the offsets that a `LONG` reaches.
use example_engine.Prelude.{ℕ, ◌+◌, ◌*◌, ◌^◌, ◌<◌, ◌≡◌, ◌≢◌, refl, ◌∙◌, true, ◌==◌, arith}
use example_engine.Prelude.Int.{pos}
use example_engine.Block.Header.{block_size}
use example_engine.Storage.File.{Page, Device, long, byte_position, write_block, read_block}

-- What Windows documents of a file of whole blocks: a position from the beginning that is not
-- negative is set and returned; a block of the file is written and read at the position.
pub record IsFile {H : Type 0} (device : Device H) : Type 0 where
  pub at : H → ℕ
  pub blocks : H → ℕ
  pub block : H → ℕ → Page
  pub seek :
      (h : H) (p : ℕ)
      → p < 2 ^ 31
      → ((device.set_file_pointer h (pos p)).0 ≡ p)
        × (at (device.set_file_pointer h (pos p)).1 ≡ p)
        × (blocks (device.set_file_pointer h (pos p)).1 ≡ blocks h)
        × ((j : ℕ) → block (device.set_file_pointer h (pos p)).1 j ≡ block h j)
  pub write :
      (h : H) (page : Page) (i : ℕ)
      → at h ≡ i * block_size
      → i < blocks h
      → ((device.write_file h page).0 ≡ true)
        × ((device.write_file h page).1 ≡ block_size)
        × (blocks (device.write_file h page).2 ≡ blocks h)
        × (block (device.write_file h page).2 i ≡ page)
        × ((j : ℕ) → j ≢ i → block (device.write_file h page).2 j ≡ block h j)
  pub read :
      (h : H) (page : Page) (i : ℕ)
      → at h ≡ i * block_size
      → i < blocks h
      → ((device.read_file h page).0 ≡ true)
        × ((device.read_file h page).1 ≡ block h i)
        × (blocks (device.read_file h page).2 ≡ blocks h)
        × ((j : ℕ) → block (device.read_file h page).2 j ≡ block h j)

-- the position of a block below 2^19 is passed on as it is
position_lem :
    (i : ℕ)
    → i < 2 ^ 19
    → (byte_position i block_size ≡ i * block_size)
      × (long (byte_position i block_size) ≡ pos (i * block_size))
      × (i * block_size < 2 ^ 31)
position_lem i small =
    let e : byte_position i block_size ≡ i * block_size = omega arith in
    let f : i * block_size < 2 ^ 31 = omega arith in (e, rw e (ground arith), f)

module _ {H : Type 0} (device : Device H) (file : IsFile device) where
  -- A block below 2^19 that the file has is written in its place, and no other block changes.
  pub write_block-block :
      (h : H) (page : Page) (i : ℕ)
      → i < 2 ^ 19
      → i < file.blocks h
      → ((write_block device h page i block_size).0 ≡ true)
        × (file.blocks (write_block device h page i block_size).1 ≡ file.blocks h)
        × (file.block (write_block device h page i block_size).1 i ≡ page)
        × ((j : ℕ)
            → j ≢ i
            → file.block (write_block device h page i block_size).1 j ≡ file.block h j)
  unfolding write_block
  write_block-block h page i small inside =
      let (e, l, f) = position_lem i small in
      let p = i * block_size in
      let (at, here, same_size, same) = file.seek h p f in
      let h' = (device.set_file_pointer h (pos p)).1 in
      let (done, all_, kept, new, others) = file.write h' page i here (omega (arith, same_size)) in
      let t : ((device.set_file_pointer h (pos p)).0 == byte_position i block_size) ≡ true =
        ground (arith, at, e) in
      rw (l, t, done, all_) (refl, kept ∙ same_size, new, λ j other. others j other ∙ same j)

  -- A block below 2^19 that the file has is read as it is, and the file does not change.
  pub read_block-block :
      (h : H) (page : Page) (i : ℕ)
      → i < 2 ^ 19
      → i < file.blocks h
      → ((read_block device h page i block_size).0 ≡ true)
        × ((read_block device h page i block_size).1 ≡ file.block h i)
        × (file.blocks (read_block device h page i block_size).2 ≡ file.blocks h)
        × ((j : ℕ) → file.block (read_block device h page i block_size).2 j ≡ file.block h j)
  unfolding read_block
  read_block-block h page i small inside =
      let (e, l, f) = position_lem i small in
      let p = i * block_size in
      let (at, here, same_size, same) = file.seek h p f in
      let h' = (device.set_file_pointer h (pos p)).1 in
      let (done, it, kept, others) = file.read h' page i here (omega (arith, same_size)) in
      let t : ((device.set_file_pointer h (pos p)).0 == byte_position i block_size) ≡ true =
        ground (arith, at, e) in
      rw (l, t) (done, it ∙ same i, kept ∙ same_size, λ j. others j ∙ same j)

-- A block is written over the one that is 2^20 blocks in front of it.
pub write_block-wraps :
    {H : Type 0} (device : Device H) (h : H) (page : Page) (i : ℕ)
    → write_block device h page (i + 2 ^ 20) block_size ≡ write_block device h page i block_size
unfolding write_block
write_block-wraps device h page i =
    let e : byte_position (i + 2 ^ 20) block_size ≡ byte_position i block_size = omega arith in rw e
