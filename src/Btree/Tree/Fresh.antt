-- ===== src/Btree/Tree/Fresh.antt =====
-- New blocks and the link back of a split, as changes of views.
use native.Mathlib.Decide.{dec_lt}
use example_engine.Prelude.{
  ℕ, ◌+◌, ◌^◌, ◌<◌, ◌≡◌, ◌≢◌, inl, inr, refl, sym, ap, ◌∙◌, some, [], arith, ◌==◌, Bool-cases,
  lt→ltb,
}
use example_engine.Block.Header
use example_engine.Block.Header.{BlockHeader, BlockType, u32}
use example_engine.Block.Data.{DataBlock}
use example_engine.Btree.Order.{Compare}
use example_engine.Btree.Node
use example_engine.Btree.Node.{Slot, NodeBlock}
use example_engine.Btree.Node.Items.{items, slots}
use example_engine.Btree.Tree.{node, BTree, write, grown, raw_node, get_free_node_block}
use example_engine.Btree.Tree.Values.{settings, write_self, write_other, node≢values}
use example_engine.Btree.Tree.NewBlock.{meta-grown}
use example_engine.Btree.Tree.Insert.{relink}
use example_engine.Btree.Tree.View.{
  View, view, view_at, Leads, AllLead, Grows, Grows-refl, view_at-node, node_at_view,
  view_at-write_self, view_at-write_other, write-Grows,
}

module _ {K : Type 0} where
  -- a node without a next one put behind the blocks in use
  module _ (t t' : BTree K) (n : NodeBlock K) (ends : n.header.next ≡ 0)
      (same : settings t' ≡ settings t) (more : t'.meta.count_of_block ≡ t.meta.count_of_block + 1)
      (at : t'.blocks t.meta.count_of_block ≡ node n)
      (others : (j : ℕ) → j < t.meta.count_of_block → t'.blocks j ≡ t.blocks j) where
    kept : (j : ℕ) (v : View K) → view_at t j ≡ some v → view_at t' j ≡ some v
    kept j v e =
        let (m, f, used, v_same, _) = node_at_view t j v e in
        (view_at-node t' j m (omega (arith, more)) (others j used ∙ f)).0 ∙ ap some v_same

    Leads-kept : (j : ℕ) → Leads t j → Leads t' j
    Leads-kept j (inl z) = inl z
    Leads-kept j (inr (w, e)) = inr (w, kept j w e)

    extended-Grows : (view_at t' t.meta.count_of_block ≡ some (view n)) × Grows (λ j. 0) t t'
    extended-Grows =
        let i = t.meta.count_of_block in
        let self : view_at t' i ≡ some (view n) =
          (view_at-node t' i n (omega (arith, more)) at).0 in
        (
          self,
          record {
            settings_same = same;
            count = omega (arith, more);
            keep = λ j v e z. kept j v e;
            all_lead = λ a j v e.
                let (m, f, used, v_same, _) = node_at_view t' j v e in
                elim (dec_lt j i) [
                  | yes q ↦
                      let g = (view_at-node t j m q (sym (others j q) ∙ f)).0 in
                      Leads-kept v.next (a j v (g ∙ ap some v_same))
                  | no q ↦
                      let r : j ≡ i = omega (arith, more) in
                      let u : view n ≡ v = (let x = sym self ∙ ap (view_at t') (sym r) ∙ e in cc) in
                      inl (ap (λ (x : View K). x.next) (sym u) ∙ ends)
                ];
            holds = λ a j b h e. elim (dec_lt j i) [
              | yes q ↦ a j b q (sym (others j q) ∙ e)
              | no q ↦
                  let r : j ≡ i = omega (arith, more) in
                  absurd (node≢values (t'.blocks i) n b at (ap t'.blocks (sym r) ∙ e))
            ];
            data_ = λ j b h e. (b, others j h ∙ e, λ p off k g. (g, refl));
          },
        )

  -- The new block is a node without items at `countOfBlock`, and the other views stay.
  pub free_node-Grows :
      (blank : NodeBlock K) (t : BTree K) (type : BlockType) (key_size value_size : ℕ)
      → t.meta.count_of_block + 1 < 2 ^ 32
      → let (i, t') = get_free_node_block blank t type key_size value_size in
        (i ≡ t.meta.count_of_block)
        × (view_at t' t.meta.count_of_block
            ≡ some (record {
              type = type;
              index = t.meta.count_of_block;
              next = 0;
              key_size = key_size;
              val_size = value_size;
              items = [];
            }))
        × Grows (λ j. 0) t t'
        × (t'.meta.count_of_block ≡ t.meta.count_of_block + 1)
  unfolding get_free_node_block
  free_node-Grows blank t type key_size value_size small =
      let i = t.meta.count_of_block in
      let n = Node.init (raw_node blank (t.blocks i)) i type key_size value_size in
      let t' = (get_free_node_block blank t type key_size value_size).1 in
      let (r, c, b) = meta-grown t.meta in
      let more : u32 ((grown t.meta).count_of_block + 1) ≡ i + 1 = omega (arith, b) in
      let ends : n.header.next ≡ 0 = unfold Node.init Header.init in refl in
      let same : settings t' ≡ settings t = rw (r, c) refl in
      let (self, grows) =
        extended-Grows t t' n ends same more (write_self t i (node n))
          (λ j q. write_other t i j (node n) (omega arith)) in
      let v_lem : view n ≡ record {
        type = type;
        index = i;
        next = 0;
        key_size = key_size;
        val_size = value_size;
        items = [];
      } =
        unfold Node.init Header.init items slots in refl in
      (refl, self ∙ ap some v_lem, grows, more)

  module _ (blank : NodeBlock K) (blank_data : DataBlock) (cmp : Compare K) where
    some_node :
        (t : BTree K) (i : ℕ)
        → Leads t i
        → i ≢ 0
        → (n : NodeBlock K) × (t.blocks i ≡ node n) × (i < t.meta.count_of_block)
    some_node t i (inl z) h = absurd (h z)
    some_node t i (inr (w, e)) h = let (n, at, used, _, _) = node_at_view t i w e in (n, at, used)

    -- The link back from the old neighbour changes no view.
    pub relink-Grows :
        (t : BTree K) (old next : ℕ)
        → Leads t old
        → AllLead t
        → (t' : BTree K) × (relink blank blank_data cmp t old next ≡ some t')
          × ((i : ℕ) (v : View K) → view_at t i ≡ some v → view_at t' i ≡ some v)
          × Grows (λ j. 0) t t'
          × (t'.meta.count_of_block ≡ t.meta.count_of_block)
    unfolding relink
    relink-Grows t old next lead all = elim (Bool-cases (old == 0)) [
      | inl e ↦ (t, rw e refl, (λ i v h. h), Grows-refl _ t, refl)
      | inr e ↦
          let (n, at, used) = some_node t old lead (λ z. ground (arith, e, z)) in
          let m = record n { header = record n.header { last = next } } in
          let m_lem : view m ≡ view n = unfold items in refl in
          let t' = write t old (node m) in
          let old_view : view_at t old ≡ some (view n) = (view_at-node t old n used at).0 in
          let written = write-Grows t old m used (view n) old_view (all old (view n) old_view) in
          let views : (i : ℕ) (v : View K) → view_at t i ≡ some v → view_at t' i ≡ some v =
            (λ i v h. elim (Bool-cases (i == old)) [
              | inl q ↦
                  let f : i ≡ old = ground (arith, q) in
                  ap (view_at t') f
                  ∙ view_at-write_self t old m used
                  ∙ ap some m_lem
                  ∙ sym old_view
                  ∙ ap (view_at t) (sym f)
                  ∙ h
              | inr q ↦ view_at-write_other t old m used i q ∙ h
            ]) in
          (
            t',
            rw (e, lt→ltb old t.meta.count_of_block used, at) refl,
            views,
            record {
              settings_same = refl;
              count = omega arith;
              keep = λ i v h z. views i v h;
              all_lead = written.all_lead;
              holds = written.holds;
              data_ = written.data_;
            },
            refl,
          )
    ]
