-- ===== src/Btree/Tree/SplitRoot.antt =====
-- The nodes that the split of the root by `put` writes.
use example_engine.Prelude.{
  ℕ, ◌+◌, ◌/◌, ◌^◌, ◌<◌, ◌≡◌, inl, inr, refl, sym, ap, ap₂, ◌∙◌, false, some, List, [], ◌∷◌, ◌++◌,
  length, arith, ◌==◌,
}
use example_engine.Block.Header.{node_block}
use example_engine.Block.Data.{DataBlock}
use example_engine.Btree.Order.{Compare}
use example_engine.Btree.Node
use example_engine.Btree.Node.{Value, child, Slot, NodeBlock, max_key}
use example_engine.Btree.Node.Items.{items, slots, upper}
use example_engine.Btree.Tree.{node, BTree, node_value_size, write, get_free_node_block}
use example_engine.Btree.Tree.Insert.{split_root}
use example_engine.Btree.Tree.View.{
  View, view, view_at, AllLead, Grows, Grows-trans, view_at-used, view_at-write_self,
  view_at-write_other, write-Grows,
}
use example_engine.Btree.Tree.Fresh.{free_node-Grows}
use example_engine.Btree.Tree.SplitSon.{one_at, left_of, right_of, halves_lem}

module _ {K : Type 0} where
  -- the tree with the root `top`
  abbrev pub rooted : BTree K → ℕ → BTree K
  rooted t top = record t { meta = record t.meta { root = top }; root = top }

  -- the upper half of the root, which has no next node
  abbrev pub root_right : NodeBlock K → NodeBlock K → NodeBlock K
  root_right old fresh =
      let r = upper old fresh in record r { header = record r.header { last = old.header.index } }

  -- the new root over the two halves
  abbrev pub root_over : NodeBlock K → K → ℕ → K → ℕ → NodeBlock K
  root_over new_root low i high next =
      record (Node.set (Node.set new_root 1 (some high) (some (child next)) 1) 0 (some low)
        (some (child i)) 1) { count = 2 }

  pub root_right-view :
      (old fresh : NodeBlock K) (next : ℕ) (l r : List (Slot K))
      → items old ≡ l ++ r
      → length l ≡ (old.count + 1) / 2
      → old.header.next ≡ 0
      → view fresh ≡ record {
        type = old.header.type;
        index = next;
        next = 0;
        key_size = old.key_size;
        val_size = old.val_size;
        items = [];
      }
      → view (root_right old fresh) ≡ record (view old) { index = next; items = r }
  unfolding Node.split
  root_right-view old fresh next l r e h z f =
      let same : items (root_right old fresh) ≡ items (right_of old fresh) = unfold items in refl in
      ap (λ (x : View K). let v : View K = record x { items = items (root_right old fresh) } in v) f
      ∙ ap₂ (λ a xs. let v : View K = record (view old) { index = next; next = a; items = xs } in v)
          (sym z) (same ∙ (halves_lem old fresh next l r e h).1)

  pub root_over-view :
      (new_root : NodeBlock K) (low : K) (i : ℕ) (high : K) (next : ℕ)
      → view (root_over new_root low i high next) ≡ record (view new_root) {
        items =
            record { key = low; flag = 1; value = child i }
            ∷ record { key = high; flag = 1; value = child next }
            ∷ [];
      }
  unfolding items slots Node.set
  root_over-view new_root low i high next = refl

module _ {K : Type 0} (blank : NodeBlock K) (blank_data : DataBlock) (cmp : Compare K) where
  -- the two new blocks
  abbrev pub new_top : BTree K → ℕ × BTree K
  new_top t = get_free_node_block blank t node_block t.key_size node_value_size

  abbrev pub new_next : BTree K → NodeBlock K → ℕ × BTree K
  new_next t old = get_free_node_block blank (new_top t).1 old.header.type t.key_size old.val_size

  pub root_run :
      (t t₂ : BTree K) (old new_root fresh : NodeBlock K) (top next i : ℕ) (low high : K)
      → t.blocks t.root ≡ node old
      → (new_top t).0 ≡ top
      → (new_next t old).0 ≡ next
      → (new_next t old).1 ≡ t₂
      → t₂.blocks top ≡ node new_root
      → t₂.blocks next ≡ node fresh
      → max_key old ≡ high
      → max_key (left_of old fresh next) ≡ low
      → old.header.index ≡ i
      → split_root blank blank_data cmp t
        ≡ some (
            rooted
              (write
                (write
                  (write t₂ next (node (root_right old fresh)))
                  t.root
                  (node (left_of old fresh next)))
                top
                (node (root_over new_root low i high next)))
              top)
  unfolding split_root Node.split
  root_run t t₂ old new_root fresh top next i low high at a b c at_top at_next hi lo self =
      rw (at, a, b, c, at_top, at_next, hi, lo, self) refl

  pub new_blocks :
      (t : BTree K) (old : NodeBlock K)
      → old.key_size ≡ t.key_size
      → t.meta.count_of_block + 2 < 2 ^ 32
      → let top = t.meta.count_of_block in
        let next = t.meta.count_of_block + 1 in
        let t₂ = (new_next t old).1 in
        ((new_top t).0 ≡ top)
        × ((new_next t old).0 ≡ next)
        × (view_at t₂ top
            ≡ some (record {
              type = node_block;
              index = top;
              next = 0;
              key_size = t.key_size;
              val_size = node_value_size;
              items = [];
            }))
        × (view_at t₂ next
            ≡ some (record {
              type = old.header.type;
              index = next;
              next = 0;
              key_size = old.key_size;
              val_size = old.val_size;
              items = [];
            }))
        × Grows (λ j. 0) t t₂
        × (t₂.meta.count_of_block ≡ next + 1)
  new_blocks t old keys small =
      let top = t.meta.count_of_block in
      let (at_top, top_view, grows₁, count₁) =
        free_node-Grows blank t node_block t.key_size node_value_size (omega arith) in
      let t₁ = (new_top t).1 in
      let (at_next, next_view, grows₂, count₂) =
        free_node-Grows blank t₁ old.header.type t.key_size old.val_size (omega (arith, count₁)) in
      let t₂ = (new_next t old).1 in
      (
        at_top,
        at_next ∙ count₁,
        grows₂.keep top _ top_view refl,
        ap (view_at t₂) (sym count₁)
            ∙ next_view
            ∙ ap₂
                (λ i ks.
                  let x : View K = record {
                    type = old.header.type;
                    index = i;
                    next = 0;
                    key_size = ks;
                    val_size = old.val_size;
                    items = [];
                  } in
                  some x)
                count₁ (sym keys),
        Grows-trans _ _ (λ j. 0) t t₁ t₂ (λ i q z. (refl, refl)) grows₁ grows₂,
        omega (arith, count₁, count₂),
      )

  -- three nodes that take the places of others
  pub three_written :
      (t : BTree K) (a b c : ℕ) (n m p : NodeBlock K) (v w u : View K)
      → view_at t a ≡ some v
      → view_at t b ≡ some w
      → view_at t c ≡ some u
      → (a == b) ≡ false
      → (a == c) ≡ false
      → (b == c) ≡ false
      → AllLead t
      → n.header.next ≡ 0
      → m.header.next ≡ a
      → p.header.next ≡ 0
      → let t' = write (write (write t a (node n)) b (node m)) c (node p) in
        (view_at t' a ≡ some (view n))
        × (view_at t' b ≡ some (view m))
        × (view_at t' c ≡ some (view p))
        × Grows (λ i. one_at a i + one_at b i + one_at c i) t t'
  three_written t a b c n m p v w u at_a at_b at_c ab ac bc lead zn zm zp =
      let t₁ = write t a (node n) in
      let t₂ = write t₁ b (node m) in
      let used_a = view_at-used t a v at_a in
      let used_b = view_at-used t b w at_b in
      let used_c = view_at-used t c u at_c in
      let self_a = view_at-write_self t a n used_a in
      let at_b₁ = view_at-write_other t a n used_a b (ground (arith, ab)) ∙ at_b in
      let at_c₁ = view_at-write_other t a n used_a c (ground (arith, ac)) ∙ at_c in
      let at_c₂ = view_at-write_other t₁ b m used_b c (ground (arith, bc)) ∙ at_c₁ in
      let at_a₂ = view_at-write_other t₁ b m used_b a ab ∙ self_a in
      (
        view_at-write_other t₂ c p used_c a ac ∙ at_a₂,
        view_at-write_other t₂ c p used_c b bc ∙ view_at-write_self t₁ b m used_b,
        view_at-write_self t₂ c p used_c,
        Grows-trans _ _ _ t t₁ _ (λ i q z. (omega (arith, z), omega (arith, z)))
            (write-Grows t a n used_a v at_a (inl zn))
            (Grows-trans _ _ (λ i. one_at b i + one_at c i) t₁ t₂ _
              (λ i q z. (omega (arith, z), omega (arith, z)))
              (write-Grows t₁ b m used_b w at_b₁ (inr (view n, ap (view_at t₁) zm ∙ self_a)))
              (write-Grows t₂ c p used_c u at_c₂ (inl zp))),
      )
