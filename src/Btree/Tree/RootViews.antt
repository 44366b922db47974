-- ===== src/Btree/Tree/RootViews.antt =====
-- The split of the root by `put`: the views of the two halves and of the new root.
use example_engine.Prelude.{
  ◌+◌, ◌/◌, ◌^◌, ◌<◌, ◌≡◌, refl, ap, ◌∙◌, some, List, [], ◌∷◌, ◌++◌, length, arith,
}
use example_engine.Block.Header.{node_block}
use example_engine.Block.Data.{DataBlock}
use example_engine.Btree.Order.{Compare}
use example_engine.Btree.Node.{child, Slot, NodeBlock}
use example_engine.Btree.Node.Items.{items, length-items}
use example_engine.Btree.Node.Sorted.{last_key}
use example_engine.Btree.Node.Slots.{max_key-last}
use example_engine.Btree.Tree.{node, BTree, node_value_size, write}
use example_engine.Btree.Tree.Insert.{split_root}
use example_engine.Btree.Tree.View.{View, view_at, AllLead, Grows, Grows-trans, node_at_view}
use example_engine.Btree.Tree.SplitSon.{one_at, left_of, left-view}
use example_engine.Btree.Tree.SplitRoot.{
  rooted, root_right, root_over, root_right-view, root_over-view, new_next, root_run, new_blocks,
  three_written,
}

module _ {K : Type 0} (blank : NodeBlock K) (blank_data : DataBlock) (cmp : Compare K) where
  -- The root keeps the first half of its items, the rest goes to a new block, and another new block
  -- is the root over the two.
  pub split_root-Grows :
      (t : BTree K) (v : View K) (l r : List (Slot K)) (low high : K)
      → view_at t t.root ≡ some v
      → AllLead t
      → t.meta.count_of_block + 2 < 2 ^ 32
      → v.next ≡ 0
      → v.index ≡ t.root
      → v.key_size ≡ t.key_size
      → v.items ≡ l ++ r
      → length l ≡ (length v.items + 1) / 2
      → last_key l ≡ some low
      → last_key v.items ≡ some high
      → let top = t.meta.count_of_block in
        let next = t.meta.count_of_block + 1 in
        (t' : BTree K) × (split_root blank blank_data cmp t ≡ some (rooted t' top))
        × (view_at t' t.root ≡ some (record v { next = next; items = l }))
        × (view_at t' next ≡ some (record v { index = next; items = r }))
        × (view_at t' top
            ≡ some (record {
              type = node_block;
              index = top;
              next = 0;
              key_size = t.key_size;
              val_size = node_value_size;
              items =
                  record { key = low; flag = 1; value = child t.root }
                  ∷ record { key = high; flag = 1; value = child next }
                  ∷ [];
            }))
        × Grows (one_at t.root) t t'
        × (t'.meta.count_of_block ≡ next + 1)
  split_root-Grows t v l r low high at lead small ends self keys halves long last_low last_high =
      let top = t.meta.count_of_block in
      let next = t.meta.count_of_block + 1 in
      let (old, on_old, used, same, _) = node_at_view t t.root v at in
      let (at_top, at_next, top_view, next_view, grows, count) =
        new_blocks blank blank_data cmp t old (ap (λ (x : View K). x.key_size) same ∙ keys) small in
      let t₂ = (new_next blank blank_data cmp t old).1 in
      let (new_root, on_top, used_top, same_top, _) = node_at_view t₂ top _ top_view in
      let (fresh, on_next, used_next, same_next, _) = node_at_view t₂ next _ next_view in
      let old_items : items old ≡ l ++ r = ap (λ (x : View K). x.items) same ∙ halves in
      let old_long : length l ≡ (old.count + 1) / 2 =
        omega (arith, long, length-items old, ap (λ (x : View K). length x.items) same) in
      let old_ends : old.header.next ≡ 0 = ap (λ (x : View K). x.next) same ∙ ends in
      let n = root_right old fresh in
      let m = left_of old fresh next in
      let p = root_over new_root low t.root high next in
      let n_view =
        root_right-view old fresh next l r old_items old_long old_ends same_next
        ∙ ap (λ (x : View K). let y : View K = record x { index = next; items = r } in y) same in
      let m_view =
        left-view old fresh next l r old_items old_long
        ∙ ap (λ (x : View K). let y : View K = record x { next = next; items = l } in y) same in
      let two : List (Slot K) =
        record { key = low; flag = 1; value = child t.root }
        ∷ record { key = high; flag = 1; value = child next }
        ∷ [] in
      let p_view =
        root_over-view new_root low t.root high next
        ∙ ap (λ (x : View K). let y : View K = record x { items = two } in y) same_top in
      let (a, b, c, written) =
        three_written blank blank_data cmp t₂ next t.root top n m p _ v _ next_view
          (grows.keep t.root v at refl) top_view (ground (arith, used)) (ground arith)
          (ground (arith, used)) (grows.all_lead lead) (ap (λ (x : View K). x.next) n_view ∙ ends)
          (ap (λ (x : View K). x.next) m_view) (ap (λ (x : View K). x.next) p_view) in
      (
        write (write (write t₂ next (node n)) t.root (node m)) top (node p),
        root_run blank blank_data cmp t t₂ old new_root fresh top next t.root low high on_old at_top
            at_next refl on_top on_next
            (max_key-last old high (ap (λ (x : View K). last_key x.items) same ∙ last_high))
            (max_key-last m low (ap (λ (x : View K). last_key x.items) m_view ∙ last_low))
            (ap (λ (x : View K). x.index) same ∙ self),
        b ∙ ap some m_view,
        a ∙ ap some n_view,
        c ∙ ap some p_view,
        Grows-trans _ _ _ t t₂ _ (λ i q z. (refl, ground (arith, q, z))) grows written,
        count,
      )
