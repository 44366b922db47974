-- ===== src/Storage/Buffer/Serve.antt =====
-- `getBlock` serves a block as the buffer shows it, and a block that is changed in memory reaches the
-- file with `save`.
use example_engine.Prelude.{
  ℕ, ◌%◌, ◌^◌, ◌<◌, ◌≡◌, ◌≢◌, refl, sym, ap, ◌∙◌, true, false, some, ◌∷◌, ◌==◌, arith, inl, inr,
  Option-cases,
}
use example_engine.Block.Header.{block_size}
use example_engine.Storage.File.{Page, Device, read_block}
use example_engine.Storage.File.Blocks.{IsFile, read_block-block}
use example_engine.Storage.Buffer.{
  BufferManager, with_reserved, lookup, put_page, marked, get_block, save,
}
use example_engine.Storage.Buffer.View.{
  settled, IsAbsent, choice-eq, shown, view, IsPool, shown-absent, shown-agree, IsPool-agree,
  save-view,
}
use example_engine.Storage.Buffer.Pages.{
  lookup-none, put_page-shown, put_page-IsPool, marked-settled, marked-clean, marked-dirty,
  lookup-clean,
}

module _ {H : Type 0} (device : Device H) (file : IsFile device) where
  -- What `getBlock` promises of its result: the pool holds the block as it was shown, marked if the
  -- flag says so; nothing is shown otherwise than before.
  abbrev pub IsServed : BufferManager H → ℕ → ℕ → BufferManager H → Type 0
  IsServed b index flag b' =
      ((page : Page) × (lookup index b'.pool ≡ some page)
        × (settled page ≡ view device file b index)
        × (flag % 2 ^ 13 ≢ 0 → page.header.reserved ≢ 0))
      × ((j : ℕ) → view device file b' j ≡ view device file b j)
      × IsPool device file b'.file b'.pool

  get_cached :
      (b : BufferManager H) (index flag : ℕ) (page : Page)
      → lookup index b.pool ≡ some page
      → IsPool device file b.file b.pool
      → IsServed b index flag (record b { pool = put_page index (marked flag page) b.pool })
  get_cached b index flag page e valid =
      let m = marked flag page in
      let (found, same, others) = put_page-shown device file b.file b.pool index page m e in
      let s = marked-settled device file flag page in
      (
        (m, found, s ∙ sym same, marked-dirty device file flag page),
        λ j.
            others j
            ∙ choice-eq index j (settled m) (view device file b j) (view device file b j)
                (λ q. rw q (s ∙ sym same)) (λ q. refl),
        put_page-IsPool device file b.file b.pool index m
            (λ z.
              s
              ∙ lookup-clean device file b.file b.pool index page e valid
                  (marked-clean device file flag page z))
            valid,
      )

  get_read :
      (b : BufferManager H) (index flag : ℕ) (fresh : Page)
      → index < 2 ^ 19
      → index < file.blocks b.file
      → IsAbsent index b.pool
      → IsPool device file b.file b.pool
      → ((read_block device b.file fresh index block_size).0 ≡ true)
        × IsServed b index flag (record {
          file = (read_block device b.file fresh index block_size).2;
          pool =
              (index, with_reserved flag (read_block device b.file fresh index block_size).1)
              ∷ b.pool;
        })
  get_read b index flag fresh small inside absent valid =
      let (done, it, size, same) = read_block-block device file b.file fresh index small inside in
      let page = (read_block device b.file fresh index block_size).1 in
      let h' = (read_block device b.file fresh index block_size).2 in
      let self : (index == index) ≡ true = ground arith in
      let was : settled page ≡ view device file b index =
        ap settled it ∙ sym (shown-absent device file b.file b.pool index absent) in
      (
        done,
        (
          (with_reserved flag page, unfold lookup in rw self refl, was, λ dirty. dirty),
          λ j.
              choice-eq index j (settled page) (shown device file h' b.pool j)
                (view device file b j) (λ q. rw q was)
                (λ q. shown-agree device file b.file h' b.pool j (same j)),
          (
            small,
            omega (arith, size),
            absent,
            λ z. ap settled (it ∙ sym (same index)),
            IsPool-agree device file b.file h' b.pool index size (λ j q. same j) absent valid,
          ),
        ),
      )

  -- In a buffer whose blocks have a place in the file, `getBlock` of a block that the file has, below
  -- 2^19, returns a pointer to the block as the buffer shows it, if there is memory and a block that
  -- is cached bears its index. The block is then marked as changed if the flag says so, the buffer
  -- shows every block as before, and its blocks still have a place in the file.
  pub get_block-IsServed :
      (b : BufferManager H) (index flag : ℕ) (fresh : Page)
      → index < 2 ^ 19
      → index < file.blocks b.file
      → IsPool device file b.file b.pool
      → ((page : Page) → lookup index b.pool ≡ some page → page.header.index ≡ index)
      → (b' : BufferManager H) × (get_block device (some fresh) b index flag ≡ some (true, b'))
        × IsServed b index flag b'
  unfolding get_block
  get_block-IsServed b index flag fresh small inside valid bears =
      elim (Option-cases (lookup index b.pool)) [
        | inl e ↦
            let (done, served) =
              get_read b index flag fresh small inside (lookup-none device file b.pool index e)
                valid in
            let page = (read_block device b.file fresh index block_size).1 in
            (
              record {
                file = (read_block device b.file fresh index block_size).2;
                pool = (index, with_reserved flag page) ∷ b.pool;
              },
              rw (e, done) refl,
              served,
            )
        | inr (page, e) ↦
            let same : (page.header.index == index) ≡ true = ground (arith, bears page e) in
            (
              record b { pool = put_page index (marked flag page) b.pool },
              rw (e, same) refl,
              get_cached b index flag page e valid,
            )
      ]

  -- A cached block that is changed in memory, while it is marked, is in the file after `save` as it
  -- was written, but for `reserved`, and every other block as the buffer showed it.
  pub save-put_page :
      (b : BufferManager H) (index : ℕ) (page new : Page)
      → IsPool device file b.file b.pool
      → lookup index b.pool ≡ some page
      → new.header.reserved ≢ 0
      → ((save device (record b { pool = put_page index new b.pool })).0 ≡ true)
        × (settled (
              file.block (save device (record b { pool = put_page index new b.pool })).1.file index)
            ≡ settled new)
        × ((j : ℕ)
            → j ≢ index
            → settled
                (file.block (save device (record b { pool = put_page index new b.pool })).1.file j)
              ≡ view device file b j)
  save-put_page b index page new valid e dirty =
      let (found, same, others) = put_page-shown device file b.file b.pool index page new e in
      let (done, written, shows, clean) =
        save-view device file (record b { pool = put_page index new b.pool })
          (put_page-IsPool device file b.file b.pool index new (λ z. absurd (dirty z)) valid) in
      let self : (index == index) ≡ true = ground arith in
      (
        done,
        written index ∙ others index ∙ rw self refl,
        λ j other.
            written j
            ∙ others j
            ∙ (let u : (j == index) ≡ false = ground (arith, other) in rw u refl),
      )
