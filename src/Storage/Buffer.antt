-- ===== src/Storage/Buffer.antt =====
-- `BufferManager` of lib/buffer.h and lib/buffer.cpp. The pool is a list of the cached blocks with
-- their indices, in the order in which `unordered_map` is walked.
pub mod View
mod Pages
pub mod Serve
use example_engine.Prelude.{
  ℕ, ◌%◌, ◌^◌, Bool, true, false, Option, none, some, List, [], ◌∷◌, ◌==◌, if◌then◌else◌, ◌>>=◌,
  ◌>>◌, assert,
}
use example_engine.Block.Header.{block_size}
use example_engine.Storage.File.{Page, Device, read_block, write_block}

abbrev pub Pool : Type 0
Pool = List (ℕ × Page)

pub record BufferManager (H : Type 0) : Type 0 where
  pub file : H
  pub pool : Pool

-- `reserved` is a bit field of 13 bits
abbrev pub with_reserved : ℕ → Page → Page
with_reserved flag page = record page { header = record page.header { reserved = flag % 2 ^ 13 } }

-- `pool.find(index)`
unfoldable pub lookup : ℕ → Pool → Option Page
lookup index [] = none
lookup index ((i, page) ∷ pool) =
    let rest = lookup index pool in if i == index then some page else rest

-- what is written through the pointer of a cached block
unfoldable pub put_page : ℕ → Page → Pool → Pool
put_page index new [] = []
put_page index new ((i, page) ∷ pool) =
    let rest = put_page index new pool in if i == index then (i, new) ∷ pool else (i, page) ∷ rest

-- `if (block->reserved == 0) block->reserved = flag;`
abbrev pub marked : ℕ → Page → Page
marked flag page = if page.header.reserved == 0 then with_reserved flag page else page

module _ {H : Type 0} (device : Device H) where
  -- a block that is not in the pool, with what `_aligned_malloc` returns; one that is not read faults
  -- at its header
  abbrev pub load : Option Page → BufferManager H → ℕ → ℕ → Option (Bool × BufferManager H)
  load none b index flag = some (false, b)
  load (some fresh) b index flag =
      let (done, page, file) = read_block device b.file fresh index block_size in
      if done
      then some (true, record { file = file; pool = (index, with_reserved flag page) ∷ b.pool })
      else none

  -- `getBlock`, given what the pool has: whether the pointer is not null, which then is that of the
  -- block in the pool
  abbrev pub serve :
      Option Page → BufferManager H → ℕ → ℕ → Option Page → Option (Bool × BufferManager H)
  serve memory b index flag (some page) = do
    assert (page.header.index == index)
    some (true, record b { pool = put_page index (marked flag page) b.pool })
  serve memory b index flag none = load memory b index flag

  unfoldable pub get_block : Option Page → BufferManager H → ℕ → ℕ → Option (Bool × BufferManager H)
  get_block memory b index flag = serve memory b index flag (lookup index b.pool)

  -- the loop of `save`; after a failure the rest of the pool is left
  unfoldable pub save_pool : H → Pool → Bool × H × Pool
  save_pool h [] = (true, h, [])
  save_pool h ((i, page) ∷ pool) =
      let clean = with_reserved 0 page in
      let (done, h') = write_block device h clean i block_size in
      let (skipped_done, skipped_h, skipped) = save_pool h pool in
      let (rest_done, rest_h, rest) = save_pool h' pool in
      if page.header.reserved == 0
      then (skipped_done, skipped_h, (i, page) ∷ skipped)
      else if done
      then (rest_done, rest_h, (i, clean) ∷ rest)
      else (false, h', (i, with_reserved 1 page) ∷ pool)

  unfoldable pub save : BufferManager H → Bool × BufferManager H
  unfolding save_pool
  save b =
      let (done, file, pool) = save_pool b.file b.pool in
      (done, record { file = file; pool = pool })
