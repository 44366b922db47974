-- ===== src/Storage/Tests.antt =====
-- A buffer of one changed block, over a file of four.
use example_engine.Prelude.{
  ℕ, ◌+◌, ◌-◌, ◌/◌, ◌^◌, ◌≡◌, ◌≢◌, refl, ap, true, false, some, [], ◌∷◌, ltb, ◌==◌, if◌then◌else◌,
  arith,
}
use example_engine.Prelude.Int.{pos, negsuc}
use example_engine.Block.Header.{free_block, block_size}
use example_engine.Storage.File.{Page, Device, write_block}
use example_engine.Storage.File.Blocks.{IsFile, write_block-wraps}
use example_engine.Storage.Buffer.{BufferManager, lookup, put_page, get_block, save}
use example_engine.Storage.Buffer.View.{settled, view, IsPool, IsClean, save-view}
use example_engine.Storage.Buffer.Serve.{IsServed, get_block-IsServed, save-put_page}

record Disk : Type 0 where
  at : ℕ
  blocks : ℕ
  block : ℕ → Page

abbrev disk_device : Device Disk
disk_device = record {
  set_file_pointer =
      λ h off. elim off [ pos p ↦ (p, record h { at = p }) | negsuc p ↦ (2 ^ 32 - 1, h) ];
  write_file = λ h page. (
    true,
    block_size,
    record h {
      blocks = if ltb (h.at / block_size) h.blocks then h.blocks else h.at / block_size + 1;
      block = λ j. if j == h.at / block_size then page else h.block j;
    },
  );
  read_file = λ h page. (true, h.block (h.at / block_size), h);
  set_end_of_file = λ h. (true, record h { blocks = h.at / block_size });
}

disk_device-IsFile : IsFile disk_device
disk_device-IsFile = record {
  at = λ h. h.at;
  blocks = λ h. h.blocks;
  block = λ h. h.block;
  seek = λ h p small. (refl, refl, refl, λ j. refl);
  write = λ h page i at inside.
      let e : h.at / block_size ≡ i = omega arith in
      let t : ltb i h.blocks ≡ true = ground arith in
      let self : (i == i) ≡ true = ground arith in
      (
        refl,
        refl,
        rw (e, t) refl,
        rw (e, self) refl,
        λ j other. let u : (j == i) ≡ false = ground (arith, other) in rw (e, u) refl,
      );
  read = λ h page i at inside.
      let e : h.at / block_size ≡ i = omega arith in (refl, ap h.block e, refl, λ j. refl);
}

abbrev page_of : ℕ → ℕ → Page
page_of index flag = record {
  header = record {
    magic = 0;
    type = free_block;
    reserved = flag;
    checksum = 0;
    index = index;
    next = 0;
    last = 0;
  };
  body = λ _. flag;
}

abbrev four : Disk
four = record { at = 0; blocks = 4; block = λ i. page_of i 0 }

abbrev buffer : BufferManager Disk
buffer = record { file = four; pool = (2, page_of 2 1) ∷ [] }

buffer-IsPool : IsPool disk_device disk_device-IsFile four buffer.pool
unfolding disk_device-IsFile
buffer-IsPool = (omega arith, omega arith, tt, (λ e. absurd (omega arith)), tt)

saved_body : ((save disk_device buffer).1.file.block 2).body 5 ≡ 1
unfolding save write_block
saved_body = refl

save-view_example :
    ((save disk_device buffer).0 ≡ true)
    × ((j : ℕ)
        → settled ((save disk_device buffer).1.file.block j)
          ≡ view disk_device disk_device-IsFile buffer j)
    × ((j : ℕ)
        → view disk_device disk_device-IsFile (save disk_device buffer).1 j
          ≡ view disk_device disk_device-IsFile buffer j)
    × IsClean (save disk_device buffer).1.pool
unfolding disk_device-IsFile
save-view_example = save-view disk_device disk_device-IsFile buffer buffer-IsPool

get_block-IsServed_example :
    (b' : BufferManager Disk) × (get_block disk_device (some (page_of 9 9)) buffer 3 1
      ≡ some (true, b'))
    × IsServed disk_device disk_device-IsFile buffer 3 1 b'
unfolding disk_device-IsFile
get_block-IsServed_example =
    get_block-IsServed disk_device disk_device-IsFile buffer 3 1 (page_of 9 9) (omega arith)
      (omega arith) buffer-IsPool (λ page e. absurd (unfold lookup in cc))

save-put_page_example :
    ((save disk_device (record buffer { pool = put_page 2 (page_of 2 7) buffer.pool })).0 ≡ true)
    × (settled (
          (save disk_device
              (record buffer { pool = put_page 2 (page_of 2 7) buffer.pool })).1.file.block
            2)
        ≡ settled (page_of 2 7))
    × ((j : ℕ)
        → j ≢ 2
        → settled (
            (save disk_device
                (record buffer { pool = put_page 2 (page_of 2 7) buffer.pool })).1.file.block
              j)
          ≡ view disk_device disk_device-IsFile buffer j)
unfolding disk_device-IsFile
save-put_page_example =
    save-put_page disk_device disk_device-IsFile buffer 2 (page_of 2 1) (page_of 2 7) buffer-IsPool
      (unfold lookup in refl) (λ e. ground (arith, e))

write_block-wraps_example :
    write_block disk_device four (page_of 1 1) (0 + 2 ^ 20) block_size
    ≡ write_block disk_device four (page_of 1 1) 0 block_size
write_block-wraps_example = write_block-wraps disk_device four (page_of 1 1) 0
