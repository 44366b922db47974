-- ===== src/Btree/Tree/Storing.antt =====
-- Where the value of an item goes: what `stored_value` leaves of the tree.
use example_engine.Prelude.{
  ℕ, ◌+◌, ◌^◌, ◌≤◌, ◌<◌, ◌≡◌, ◌⊎◌, inl, inr, refl, sym, ap, ◌∙◌, true, false, Option, some, take,
  leb, List, length, arith, ltb, ◌==◌, Bool-cases, Option-cases, ltb→lt,
}
use example_engine.Block.Data
use example_engine.Block.Data.{DataBlock}
use example_engine.Btree.Order.{Compare}
use example_engine.Btree.Node
use example_engine.Btree.Node.{Location, Value, child, place, bytes, Slot, NodeBlock}
use example_engine.Btree.Node.Items.{items}
use example_engine.Btree.Node.Sorted.{All}
use example_engine.Btree.Node.Slots.{All-items}
use example_engine.Btree.Tree.{values, BTree, get_value, insert_value}
use example_engine.Btree.Tree.Insert.{stored_value, value_block, new_value_block, value_fuel}
use example_engine.Btree.Tree.Values.{Holds, Keeps, Stored}
use example_engine.Btree.Tree.Stored.{insert_value-Stored, new_lem}
use example_engine.Btree.Tree.View.{View, view_at, Grows, Grows-refl, node_at_view, view_at-node}
use example_engine.Btree.Tree.Shape.{HasPlace, Means}

module _ {K : Type 0} where
  Keeps-Grows : (t t' : BTree K) → Keeps t t' → Holds t' → Grows (λ i. 0) t t'
  Keeps-Grows t t' k holds' =
      let keep : (i : ℕ) (v : View K) → view_at t i ≡ some v → view_at t' i ≡ some v = (λ i v e.
        let (n, at, used, same, _) = node_at_view t i v e in
        (view_at-node t' i n (omega (arith, used, k.count)) (k.nodes i n used at)).0
        ∙ ap some same) in
      record {
        settings_same = k.settings_same;
        count = k.count;
        keep = λ i v e z. keep i v e;
        all_lead = λ a i v e.
            let (n, at, used, same, _) = node_at_view t' i v e in
            let (used₀, at₀) = k.back i n used at in
            elim (a i v ((view_at-node t i n used₀ at₀).0 ∙ ap some same)) [
              | inl z ↦ inl z
              | inr (w, f) ↦ inr (w, keep v.next w f)
            ];
        holds = λ a. holds';
        data_ = k.data_;
      }

  -- the guards of `getValue`
  get_value_lem :
      (t : BTree K) (l : Location) (b : DataBlock) (i off : ℕ)
      → t.blocks l.index ≡ values b
      → get_value t l ≡ some (some (i, off))
      → (l.index < t.meta.count_of_block) × (Data.get b l.position ≡ some off)
  unfolding get_value
  get_value_lem t l b i off at e = elim (Bool-cases (ltb l.index t.meta.count_of_block)) [
    | inr q ↦ let f = rw q at e in cc
    | inl q ↦ elim (Option-cases (Data.get b l.position)) [
      | inl z ↦ let f = rw (q, at, z) at e in cc
      | inr (off', z) ↦
          let f = rw (q, at, z) at e in
          let g : off' ≡ off = cc in (ltb→lt l.index t.meta.count_of_block q, z ∙ ap some g)
    ]
  ]

  Stored-Means :
      (t : BTree K) (l : Location) (value : List ℕ) → Stored t l value → Means K t (place l) value
  Stored-Means t l value (b, off, at, found, read, inside) =
      let (used, get) = get_value_lem t l b l.index off at found in
      inr (l, b, off, refl, used, at, get, read)

  -- where a value can go: a new data block, or one in use
  abbrev pub Source : BTree K → Option ℕ → Type 0
  Source t i =
      (t.is_const_value_size ≡ true)
      ⊎ (i ≡ some t.meta.count_of_block)
      ⊎ ((j : ℕ) × (b : DataBlock) × (i ≡ some j)
          × (j < t.meta.count_of_block)
          × (t.blocks j ≡ values b))

  module _ (blank : NodeBlock K) (blank_data : DataBlock) (cmp : Compare K) where
    pub value_block-Source :
        (t : BTree K) (n : NodeBlock K) (i : ℕ)
        → HasPlace K t (n.kv i)
        → Source t (value_block blank blank_data cmp n i)
    unfolding Node.get_value
    value_block-Source t n i (inl e) = inl e
    value_block-Source t n i (inr (l, b, v, used, at)) = inr (inr (l.index, b, rw v refl, used, at))

    -- a neighbour's block, or a new one for the first item of a leaf
    pub new_value_block-Source :
        (t : BTree K) (n : NodeBlock K) (i : ℕ)
        → All (HasPlace K t) (items n)
        → i ≤ n.count
        → Source t (new_value_block blank blank_data cmp t n i)
    unfolding Node.empty
    new_value_block-Source t n i all inside = elim (Bool-cases (n.count == 0)) [
      | inl e ↦ rw e (inr (inl refl))
      | inr e ↦ rw e (value_block-Source t n _ (All-items (HasPlace K t) n _ all (ground arith)))
    ]

    const_run :
        (t : BTree K) (val_size : ℕ) (i : Option ℕ) (value : List ℕ) (size : ℕ)
        → t.is_const_value_size ≡ true
        → val_size ≤ length value
        → stored_value blank blank_data cmp t val_size i value size
          ≡ some (some (bytes (take val_size value)), t)
    unfolding stored_value
    const_run t val_size i value size e fits =
        let q : leb val_size (length value) ≡ true = ground (arith, fits) in rw (e, q) refl

    placed_run :
        (t t' : BTree K) (val_size j : ℕ) (value : List ℕ) (size : ℕ) (l : Location)
        → t.is_const_value_size ≡ false
        → insert_value blank_data value_fuel t j value size ≡ some (some l, t')
        → stored_value blank blank_data cmp t val_size (some j) value size
          ≡ some (some (place l), t')
    unfolding stored_value
    placed_run t t' val_size j value size l e f = rw (f, e) refl

    -- The value is stored, and no node changes.
    pub stored_value-Means :
        (t : BTree K) (val_size : ℕ) (i : Option ℕ) (value : List ℕ)
        → (t.is_const_value_size ≡ true
            → (val_size ≡ t.leaf_value_size) × (val_size ≤ length value))
        → Source t i
        → Holds t
        → t.meta.count_of_block + 1 < 2 ^ 32
        → length value < 4066
        → (v : Value) × (t₁ : BTree K) × (stored_value blank blank_data cmp t val_size i value
              (length value)
            ≡ some (some v, t₁))
          × Means K t₁ v value
          × Grows (λ j. 0) t t₁
          × (t₁.meta.count_of_block ≤ t.meta.count_of_block + 1)
    stored_value-Means t val_size i value fits source holds small short =
        elim (Bool-cases t.is_const_value_size) [
          | inl e ↦
              let (same, enough) = fits e in
              (
                bytes (take val_size value),
                t,
                const_run t val_size i value (length value) e enough,
                inl (e, ap (λ n. bytes (take n value)) same),
                Grows-refl _ t,
                omega arith,
              )
          | inr e ↦ elim source [
            | inl f ↦ let z = sym e ∙ f in cc
            | inr (inl f) ↦
                let (l, t₁, run, holds', keeps, stored, more) =
                  new_lem blank_data 2 t value holds small short in
                (
                  place l,
                  t₁,
                  rw f
                      (placed_run t t₁ val_size t.meta.count_of_block value (length value) l e run),
                  Stored-Means t₁ l value stored,
                  Keeps-Grows t t₁ keeps holds',
                  more,
                )
            | inr (inr (j, b, f, used, at)) ↦
                let (l, t₁, run, holds', keeps, stored, more) =
                  insert_value-Stored blank_data 1 t j b value holds used at small short in
                (
                  place l,
                  t₁,
                  rw f (placed_run t t₁ val_size j value (length value) l e run),
                  Stored-Means t₁ l value stored,
                  Keeps-Grows t t₁ keeps holds',
                  more,
                )
          ]
        ]
