-- ===== src/Btree/Tree/Stored.antt =====
-- `insertValue`: a value goes into the block that is given, or into a new one.
use example_engine.Prelude.{
  ℕ, zero, suc, ◌+◌, ◌^◌, ◌≤◌, ◌<◌, ◌≡◌, refl, ap, ◌∙◌, true, false, none, some, List, length,
  arith, ◌==◌, if◌then◌else◌, Bool-cases, inl, inr, leb, ltb,
}
use example_engine.Prelude.Int.{pos, le_int}
use example_engine.Block.Header
use example_engine.Block.Header.{BlockHeader, block_size, u16, u32}
use example_engine.Block.Data
use example_engine.Block.Data.{DataBlock}
use example_engine.Btree.Node.{Location}
use example_engine.Btree.Tree.{
  values, BTree, get_free_data_block, data_block_at, store_value, insert_value,
}
use example_engine.Btree.Tree.Values.{Holds, Keeps, Stored}
use example_engine.Btree.Tree.NewBlock.{
  tight_lem, store_lem, free_lem, free-new_block, new_block, new_block-tight,
}

module _ {K : Type 0} where
  pub Keeps-trans : (t t₁ t' : BTree K) → Keeps t t₁ → Keeps t₁ t' → Keeps t t'
  Keeps-trans t t₁ t' k k' = record {
    count = omega (arith, k.count, k'.count);
    nodes = λ j n h q. k'.nodes j n (omega (arith, k.count)) (k.nodes j n h q);
    back = λ j n h q. let (h₁, q₁) = k'.back j n h q in k.back j n h₁ q₁;
    settings_same = k'.settings_same ∙ k.settings_same;
    data_ = λ j b h q.
        let (b₁, at₁, same₁) = k.data_ j b h q in
        let (b', at, same) = k'.data_ j b₁ (omega (arith, k.count)) at₁ in
        (
          b',
          at,
          λ p off n g.
              let (g₁, r₁) = same₁ p off n g in let (g', r) = same p off n g₁ in (g', r ∙ r₁),
        );
  }

  -- one round of the recursion
  step_lem :
      (blank : DataBlock) (fuel : ℕ) (t t' : BTree K) (index i : ℕ) (b : DataBlock) (value : List ℕ)
      → data_block_at blank t index ≡ some (i, t')
      → t'.blocks i ≡ values b
      → length value < 2 ^ 31
      → insert_value blank (suc fuel) t index value (length value) ≡ (
          if le_int (Data.free_size b) (pos (length value))
          then insert_value blank fuel t'
              (if b.header.next == 0 then t'.meta.count_of_block else b.header.next)
              value
              (length value)
          else some (store_value blank t' i b value (length value)))
  unfolding insert_value
  step_lem blank fuel t t' index i b value e f short =
      let q : ltb (length value) (2 ^ 31) ≡ true = ground (arith, short) in rw (e, f, q) refl

  found_new :
      (blank : DataBlock) (t : BTree K)
      → data_block_at blank t t.meta.count_of_block
        ≡ some (t.meta.count_of_block, (get_free_data_block blank t).1)
  unfolding get_free_data_block
  found_new blank t =
      let i = t.meta.count_of_block in
      let e : leb i i ≡ true = ground arith in
      let f : (i == i) ≡ true = ground arith in rw (e, f) refl

  found_used :
      (blank : DataBlock) (t : BTree K) (index : ℕ)
      → index < t.meta.count_of_block
      → data_block_at blank t index ≡ some (index, t)
  found_used blank t index used =
      let e : leb index t.meta.count_of_block ≡ true = ground arith in
      let f : (index == t.meta.count_of_block) ≡ false = ground arith in rw (e, f) refl

  pub new_lem :
      (blank : DataBlock) (fuel : ℕ) (t : BTree K) (value : List ℕ)
      → Holds t
      → t.meta.count_of_block + 1 < 2 ^ 32
      → length value < 4066
      → (loc : Location) × (t' : BTree K) × (insert_value blank
            (suc fuel)
            t
            t.meta.count_of_block
            value
            (length value)
          ≡ some (some loc, t'))
        × Holds t'
        × Keeps t t'
        × Stored t' loc value
        × (t'.meta.count_of_block ≤ t.meta.count_of_block + 1)
  new_lem blank fuel t value holds small short =
      let i = t.meta.count_of_block in
      let b = new_block blank t in
      let t₁ = (get_free_data_block blank t).1 in
      let (holds₁, keeps₁, at, more) = free_lem blank t holds small in
      let room = free-new_block blank t (length value) short in
      let (loc, t', run, holds', keeps, stored, same) =
        store_lem blank t₁ i b value holds₁ (omega (arith, more)) at room in
      let found = found_new blank t in
      (
        loc,
        t',
        step_lem blank fuel t t₁ i i b value found at (omega (arith, short))
            ∙ rw room (ap some run),
        holds',
        Keeps-trans t t₁ t' keeps₁ keeps,
        stored,
        omega (arith, more, same),
      )

  -- In a tree whose data blocks in use are well formed and stand in no chain, a value of less than
  -- 4066 bytes is stored by `insertValue` from any data block in use, after at most two rounds: at
  -- the location that comes back `getValue` finds the value, inside its block. All nodes and all
  -- values from before are kept, there is no new node and at most one new block, and the data blocks
  -- are still well formed.
  pub insert_value-Stored :
      (blank : DataBlock) (fuel : ℕ) (t : BTree K) (index : ℕ) (b : DataBlock) (value : List ℕ)
      → Holds t
      → index < t.meta.count_of_block
      → t.blocks index ≡ values b
      → t.meta.count_of_block + 1 < 2 ^ 32
      → length value < 4066
      → (loc : Location) × (t' : BTree K) × (insert_value blank
            (suc (suc fuel))
            t
            index
            value
            (length value)
          ≡ some (some loc, t'))
        × Holds t'
        × Keeps t t'
        × Stored t' loc value
        × (t'.meta.count_of_block ≤ t.meta.count_of_block + 1)
  insert_value-Stored blank fuel t index b value holds used e small short =
      let found = found_used blank t index used in
      let step = step_lem blank (suc fuel) t t index index b value found e (omega (arith, short)) in
      elim (Bool-cases (le_int (Data.free_size b) (pos (length value)))) [
        | inr room ↦
            let (loc, t', run, holds', keeps, stored, same) =
              store_lem blank t index b value holds used e room in
            (loc, t', step ∙ rw room (ap some run), holds', keeps, stored, omega (arith, same))
        | inl tight ↦
            let last : (b.header.next == 0) ≡ true =
              (let z = (holds index b used e).2 in ground (arith, z)) in
            let (loc, t', run, holds', keeps, stored, more) =
              new_lem blank fuel t value holds small short in
            (loc, t', step ∙ rw (tight, last) run, holds', keeps, stored, more)
      ]

  out_of_fuel :
      (blank : DataBlock) (t : BTree K) (index : ℕ) (value : List ℕ)
      → insert_value blank zero t index value (length value) ≡ none
  unfolding insert_value
  out_of_fuel blank t index value = refl

  none-new_block :
      (blank : DataBlock) (fuel : ℕ) (t : BTree K) (value : List ℕ)
      → Holds t
      → t.meta.count_of_block + fuel < 2 ^ 32
      → 4066 ≤ length value
      → length value < 2 ^ 31
      → insert_value blank fuel t t.meta.count_of_block value (length value) ≡ none
  none-new_block blank zero t value holds small long bounded =
      out_of_fuel blank t t.meta.count_of_block value
  none-new_block blank (suc fuel) t value holds small long bounded =
      let i = t.meta.count_of_block in
      let b = new_block blank t in
      let t₁ = (get_free_data_block blank t).1 in
      let (holds₁, keeps₁, at, more) = free_lem blank t holds (omega arith) in
      let tight = new_block-tight blank t (length value) long in
      let last : (b.header.next == 0) ≡ true = unfold Data.init Header.init in refl in
      step_lem blank fuel t t₁ i i b value (found_new blank t) at bounded
      ∙ rw (tight, last)
          (none-new_block blank fuel t₁ value holds₁ (omega (arith, more)) long bounded)

  -- A value of 4066 bytes or more, but less than 2^31, never gets a place: from any data block in use, with no chain of
  -- data blocks, `insertValue` does not return, however many rounds it is given, as long as the
  -- number of blocks stays below 2^32.
  pub insert_value-none :
      (blank : DataBlock) (fuel : ℕ) (t : BTree K) (index : ℕ) (b : DataBlock) (value : List ℕ)
      → Holds t
      → index < t.meta.count_of_block
      → t.blocks index ≡ values b
      → t.meta.count_of_block + fuel < 2 ^ 32
      → 4066 ≤ length value
      → length value < 2 ^ 31
      → insert_value blank fuel t index value (length value) ≡ none
  insert_value-none blank zero t index b value holds used e small long bounded =
      out_of_fuel blank t index value
  insert_value-none blank (suc fuel) t index b value holds used e small long bounded =
      let (valid, at, next) = holds index b used e in
      let tight = tight_lem b (length value) valid long in
      let last : (b.header.next == 0) ≡ true = ground (arith, next) in
      step_lem blank fuel t t index index b value (found_used blank t index used) e bounded
      ∙ rw (tight, last) (none-new_block blank fuel t value holds (omega arith) long bounded)
