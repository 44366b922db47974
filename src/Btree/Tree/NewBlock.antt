-- ===== src/Btree/Tree/NewBlock.antt =====
-- A value that goes into a block with room for it, and the tree with a new data block.
use example_engine.Prelude.{
  ℕ, ◌+◌, ◌^◌, ◌≤◌, ◌<◌, ◌≡◌, ◌≢◌, refl, sym, ap, ◌∙◌, true, false, Option, some, List, length,
  arith, ◌==◌, Bool-cases, inl, inr,
}
use example_engine.Prelude.Int.{pos, le_int}
use example_engine.Block.Header
use example_engine.Block.Header.{BlockHeader, block_size, u16, u32}
use example_engine.Block.Data
use example_engine.Block.Data.{DataBlock}
use example_engine.Block.Data.Records.{IsValid, Fits, init-IsValid, insert-eq-some}
use example_engine.Btree.Node.{Location}
use example_engine.Btree.Tree.{
  values, Metadata, BTree, write, grown, raw_data, get_free_data_block, stored_in, store_value,
}
use example_engine.Btree.Tree.Values.{
  Holds, Keeps, Stored, write_self, write_other, same_data, written_lem, node≢values,
}

pub header-inserted :
    (b : DataBlock) (d : List ℕ) (size : ℕ) → (Data.inserted b d size).header ≡ b.header
unfolding Data.inserted
header-inserted b d size = refl

pub Fits-room :
    (b : DataBlock) (size : ℕ) → le_int (Data.free_size b) (pos size) ≡ false → Fits b size
unfolding Data.free_size
Fits-room b size room = ground (arith, room)

pub tight_lem :
    (b : DataBlock) (size : ℕ)
    → IsValid b
    → 4066 ≤ size
    → le_int (Data.free_size b) (pos size) ≡ true
unfolding Data.free_size
tight_lem b size valid long = ground (arith, valid.inside)

pub meta-grown :
    (m : Metadata)
    → ((grown m).root ≡ m.root)
      × ((grown m).count_of_item ≡ m.count_of_item)
      × ((grown m).count_of_block ≡ m.count_of_block)
unfolding grown
meta-grown m = elim (Bool-cases (m.number_of_block == m.count_of_block)) [
  | inl e ↦ rw e (refl, refl, refl)
  | inr e ↦ rw e (refl, refl, refl)
]

module _ {K : Type 0} where
  at_block : BTree K → ℕ → ℕ → Option Location × BTree K
  at_block t position index = (some (record { index = index; position = position }), t)

  run_lem :
      (blank : DataBlock) (t : BTree K) (i p : ℕ) (b b' : DataBlock) (value : List ℕ)
      → length value < 2 ^ 16
      → b.header.index ≡ i
      → Data.insert b value (length value) ≡ some (p, b')
      → store_value blank t i b value (length value)
        ≡ (some (record { index = i; position = p }), write t i (values b'))
  unfolding store_value at_block
  run_lem blank t i p b b' value small index done =
      let e : u16 (length value) ≡ length value = omega arith in
      ap (λ n. stored_in blank t i b (Data.insert b value n)) e
      ∙ ap (stored_in blank t i b) done
      ∙ ap (at_block (write t i (values b')) p) index

  -- a value that a data block in use has room for
  pub store_lem :
      (blank : DataBlock) (t : BTree K) (i : ℕ) (b : DataBlock) (value : List ℕ)
      → Holds t
      → i < t.meta.count_of_block
      → t.blocks i ≡ values b
      → le_int (Data.free_size b) (pos (length value)) ≡ false
      → (loc : Location) × (t' : BTree K) × (store_value blank t i b value (length value)
          ≡ (some loc, t'))
        × Holds t'
        × Keeps t t'
        × Stored t' loc value
        × (t'.meta.count_of_block ≡ t.meta.count_of_block)
  store_lem blank t i b value holds used e room =
      let (valid, index, next) = holds i b used e in
      let fits = Fits-room b (length value) room in
      let small : length value < 2 ^ 16 = omega (arith, valid.inside, fits) in
      let done = insert-eq-some b value (length value) fits in
      let b' = Data.inserted b value (length value) in
      let (holds', keeps, stored) =
        written_lem t i b.count b b' value holds used e done
          (header-inserted b value (length value)) in
      (
        record { index = i; position = b.count },
        write t i (values b'),
        run_lem blank t i b.count b b' value small index done,
        holds',
        keeps,
        stored,
        refl,
      )

  abbrev pub new_block : DataBlock → BTree K → DataBlock
  new_block blank t =
      Data.init (raw_data blank (t.blocks t.meta.count_of_block)) t.meta.count_of_block

  pub free-new_block :
      (blank : DataBlock) (t : BTree K) (size : ℕ)
      → size < 4066
      → le_int (Data.free_size (new_block blank t)) (pos size) ≡ false
  unfolding Data.free_size Data.init
  free-new_block blank t size small = ground arith

  -- the tree with a new data block
  pub free_lem :
      (blank : DataBlock) (t : BTree K)
      → Holds t
      → t.meta.count_of_block + 1 < 2 ^ 32
      → Holds (get_free_data_block blank t).1
        × Keeps t (get_free_data_block blank t).1
        × ((get_free_data_block blank t).1.blocks t.meta.count_of_block
            ≡ values (new_block blank t))
        × ((get_free_data_block blank t).1.meta.count_of_block ≡ t.meta.count_of_block + 1)
  unfolding get_free_data_block
  free_lem blank t holds small =
      let i = t.meta.count_of_block in
      let b = new_block blank t in
      let at = write_self t i (values b) in
      let (root_same, item_same, count_same) = meta-grown t.meta in
      let c : u32 ((grown t.meta).count_of_block + 1) ≡ i + 1 = omega (arith, count_same) in
      let t' = (get_free_data_block blank t).1 in
      (
        λ j d h q. elim (Bool-cases (j == i)) [
          | inl w ↦
              let v : j ≡ i = ground (arith, w) in
              let f : b ≡ d =
                same_data b d ((write t i (values b)).blocks j)
                  (ap (write t i (values b)).blocks v ∙ at) q in
              rw (← f, v)
                (
                  init-IsValid (raw_data blank (t.blocks i)) i,
                  unfold Data.init Header.init in refl,
                  unfold Data.init Header.init in refl,
                )
          | inr w ↦
              holds j d (ground (arith, w, c, h))
                (sym (write_other t i j (values b) (ground (arith, w))) ∙ q)
        ],
        record {
          count = omega (arith, c);
          nodes = λ j n h q. write_other t i j (values b) (omega arith) ∙ q;
          back = λ j n h q.
              let old : j ≢ i = (λ v. node≢values (t'.blocks j) n b q (ap t'.blocks v ∙ at)) in
              (ground (arith, c, h, old), sym (write_other t i j (values b) old) ∙ q);
          settings_same = rw (root_same, item_same) refl;
          data_ = λ j d h q.
              (d, write_other t i j (values b) (omega arith) ∙ q, λ k off n g. (g, refl));
        },
        at,
        c,
      )

  pub new_block-tight :
      (blank : DataBlock) (t : BTree K) (size : ℕ)
      → 4066 ≤ size
      → le_int (Data.free_size (new_block blank t)) (pos size) ≡ true
  unfolding Data.free_size Data.init
  new_block-tight blank t size long = ground arith
