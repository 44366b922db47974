-- ===== src/Btree/Tree/Values.antt =====
-- Values in data blocks: `insertValue` stores a value where `getValue` finds it, and leaves the nodes
-- and all other values as they are.
use example_engine.Prelude.{
  ℕ, ◌+◌, ◌≤◌, ◌<◌, ◌≡◌, ◌≢◌, Bool, refl, sym, ap, ◌∙◌, true, false, some, List, length, arith,
  ◌==◌, Bool-cases, inl, inr, lt→ltb,
}
use example_engine.Prelude.Memory.{read_bytes}
use example_engine.Block.Header.{BlockHeader, block_size}
use example_engine.Block.Data
use example_engine.Block.Data.{DataBlock}
use example_engine.Block.Data.Records.{IsValid, insert-IsValid, get-insert, get-insert_old}
use example_engine.Btree.Node.{NodeBlock, Location}
use example_engine.Btree.Tree.{Block, node, values, BTree, write, get_value}

module _ {K : Type 0} where
  -- The data blocks in use are well formed, bear their index and stand in no chain.
  abbrev pub Holds : BTree K → Type 0
  Holds t =
      (j : ℕ) (b : DataBlock)
      → j < t.meta.count_of_block
      → t.blocks j ≡ values b
      → IsValid b × (b.header.index ≡ j) × (b.header.next ≡ 0)

  -- what no operation on blocks changes
  abbrev pub settings : BTree K → ℕ × ℕ × ℕ × Bool × ℕ × ℕ
  settings t = (
    t.root, t.key_size, t.leaf_value_size, t.is_const_value_size, t.meta.root, t.meta.count_of_item,
  )

  -- a data block of `t` with the values that it has in `t'`
  abbrev pub DataKept : BTree K → BTree K → Type 0
  DataKept t t' =
      (j : ℕ) (b : DataBlock)
      → j < t.meta.count_of_block
      → t.blocks j ≡ values b
      → (b' : DataBlock) × (t'.blocks j ≡ values b')
        × ((p off n : ℕ)
            → Data.get b p ≡ some off
            → (Data.get b' p ≡ some off) × (read_bytes b'.page off n ≡ read_bytes b.page off n))

  -- The nodes in use are the same in `t` and `t'`, and `t'` has the values of `t`.
  pub record Keeps (t t' : BTree K) : Type 0 where
    pub count : t.meta.count_of_block ≤ t'.meta.count_of_block
    pub nodes :
        (j : ℕ) (n : NodeBlock K)
        → j < t.meta.count_of_block
        → t.blocks j ≡ node n
        → t'.blocks j ≡ node n
    pub back :
        (j : ℕ) (n : NodeBlock K)
        → j < t'.meta.count_of_block
        → t'.blocks j ≡ node n
        → (j < t.meta.count_of_block) × (t.blocks j ≡ node n)
    pub settings_same : settings t' ≡ settings t
    pub data_ : DataKept t t'

  -- `getValue` finds the value at the location.
  abbrev pub Stored : BTree K → Location → List ℕ → Type 0
  Stored t loc value =
      (b : DataBlock) × (off : ℕ) × (t.blocks loc.index ≡ values b)
      × (get_value t loc ≡ some (some (loc.index, off)))
      × (read_bytes b.page off (length value) ≡ value)
      × (off + length value ≤ block_size)

  pub write_self : (t : BTree K) (i : ℕ) (b : Block K) → (write t i b).blocks i ≡ b
  write_self t i b = let e : (i == i) ≡ true = ground arith in rw e refl

  pub write_other :
      (t : BTree K) (i j : ℕ) (b : Block K) → j ≢ i → (write t i b).blocks j ≡ t.blocks j
  write_other t i j b other = let e : (j == i) ≡ false = ground (arith, other) in rw e refl

  pub same_data : (b b' : DataBlock) (c : Block K) → c ≡ values b → c ≡ values b' → b ≡ b'
  same_data b b' c e e' = cc

  pub node≢values : (c : Block K) (n : NodeBlock K) (b : DataBlock) → c ≡ node n → c ≡ values b → ⊥
  node≢values c n b e e' = cc

  -- A value that was inserted in a data block in use, once the block is written back.
  pub written_lem :
      (t : BTree K) (i p : ℕ) (b b' : DataBlock) (value : List ℕ)
      → Holds t
      → i < t.meta.count_of_block
      → t.blocks i ≡ values b
      → Data.insert b value (length value) ≡ some (p, b')
      → b'.header ≡ b.header
      → Holds (write t i (values b'))
        × Keeps t (write t i (values b'))
        × Stored (write t i (values b')) (record { index = i; position = p }) value
  written_lem t i p b b' value holds used e done header =
      let (valid, index, next) = holds i b used e in
      let t' = write t i (values b') in
      let at = write_self t i (values b') in
      let (off, found, read, inside) = get-insert b value (length value) p b' valid refl done in
      let new_valid : IsValid b' =
        ((insert-IsValid b value (length value) valid).0 (p, b') done).0 in
      let found_lem : get_value t' (record { index = i; position = p }) ≡ some (some (i, off)) =
        unfold get_value in rw (lt→ltb i t.meta.count_of_block used, at, found) refl in
      (
        λ j c h q. elim (Bool-cases (j == i)) [
          | inl w ↦
              let v : j ≡ i = ground (arith, w) in
              let f : b' ≡ c = same_data b' c (t'.blocks j) (ap t'.blocks v ∙ at) q in
              rw (← f, v)
                (
                  new_valid,
                  ap (λ (x : BlockHeader). x.index) header ∙ index,
                  ap (λ (x : BlockHeader). x.next) header ∙ next,
                )
          | inr w ↦ holds j c h (sym (write_other t i j (values b') (ground (arith, w))) ∙ q)
        ],
        record {
          count = omega arith;
          nodes = λ j n h q.
              write_other t i j (values b')
                (λ v. node≢values (t.blocks j) n b q (ap t.blocks v ∙ e))
              ∙ q;
          back = λ j n h q. (
            h,
            sym (
                  write_other t i j (values b')
                    (λ v. node≢values (t'.blocks j) n b' q (ap t'.blocks v ∙ at)))
                ∙ q,
          );
          settings_same = refl;
          data_ = λ j c h q. elim (Bool-cases (j == i)) [
            | inl w ↦
                let v : j ≡ i = ground (arith, w) in
                let f : b ≡ c = same_data b c (t.blocks j) (ap t.blocks v ∙ e) q in
                (
                  b',
                  ap t'.blocks v ∙ at,
                  rw (← f) (λ k off n g.
                      get-insert_old b value (length value) p b' k off n valid done g),
                )
            | inr w ↦
                (c, write_other t i j (values b') (ground (arith, w)) ∙ q, λ k off n g. (g, refl))
          ];
        },
        (b', off, at, found_lem, read, inside),
      )
