-- ===== src/Btree/Tree/AfterSon.antt =====
-- A parent once a child has taken a value: its greatest key, and the split of a child that is full.
use native.Mathlib.Decide.{dec_lt}
use example_engine.Prelude.{
  ℕ, zero, suc, ◌≤◌, ◌≡◌, inl, inr, refl, sym, ap, ap₂, ◌∙◌, subst, Bool, false, some, List, [],
  ◌∷◌, ◌++◌, map, length, arith, ◌==◌, Bool-cases, append-nil,
}
use example_engine.Block.Data.{DataBlock}
use example_engine.Btree.Order.{Compare, IsOrder}
use example_engine.Btree.Node
use example_engine.Btree.Node.{Value, child, Slot, NodeBlock, size}
use example_engine.Btree.Node.Items.{items, length-items}
use example_engine.Btree.Node.Sorted.{last_key}
use example_engine.Btree.Tree.{node, BTree}
use example_engine.Btree.Tree.Insert.{inserted, after_son}
use example_engine.Btree.Tree.View.{
  View, view, view_at, Grows, Grows-trans, view_at-used, node_at_view,
}
use example_engine.Btree.Tree.SplitSon.{capacity, size-capacity, one_at}
use example_engine.Btree.Tree.Shape.{
  Tree, occ, Linked, root_index, leaves, blocks, width, kid_slot, room, root_view,
}
use example_engine.Btree.Tree.Frame.{length-map, Represents-kept, Means-kept}
use example_engine.Btree.Tree.Kids.{map-append}
use example_engine.Btree.Tree.Halves.{width-view, last_key-root, Represents-root}
use example_engine.Btree.Tree.Taken.{Taken, ChildTaken, Kids, occ_kids, replaced_lem}
use example_engine.Btree.Tree.Descent.{marked, roomy_run, marked-Grows}

module _ (K : Type 0) (ks lv : ℕ) where
  room-view :
      (h : ℕ) (T : Tree K h)
      → capacity (root_view K ks lv h T).key_size (root_view K ks lv h T).val_size ≡ room ks lv h
  room-view zero T = refl
  room-view (suc h) T = refl

  pub index-view : (h : ℕ) (T : Tree K h) → (root_view K ks lv h T).index ≡ root_index K h T
  index-view zero T = refl
  index-view (suc h) T = refl

module _ {K : Type 0} (ks lv : ℕ) where
  pub node_lem :
      (h : ℕ) (s : NodeBlock K) (T : Tree K h)
      → view s ≡ root_view K ks lv h T
      → (s.count ≡ width K h T) × (size s ≡ room ks lv h)
  node_lem h s T e = (
    sym (length-items s) ∙ ap (λ (x : View K). length x.items) e ∙ width-view K ks lv h T,
    size-capacity s ∙ ap (λ (x : View K). capacity x.key_size x.val_size) e ∙ room-view K ks lv h T,
  )

  pub full_lem :
      (h : ℕ) (s : NodeBlock K) (T : Tree K h)
      → view s ≡ root_view K ks lv h T
      → Node.full s ≡ (width K h T == room ks lv h)
  unfolding Node.full
  full_lem h s T e = let (c, r) = node_lem h s T e in ap₂ ◌==◌ c r

-- a parent `T` in `t`, and the tree `t₁` with `c'` for its child `c`, which has taken a value
module _ {K : Type 0} (blank : NodeBlock K) (blank_data : DataBlock) (cmp : Compare K)
    (order : IsOrder cmp) (ks lv h : ℕ) (t : BTree K) (T : Tree K (suc h)) (pre : Kids K h) (k : K)
    (c : Tree K h) (post : Kids K h) (key : K) (value : List ℕ) (t₁ : BTree K) (v : Value)
    (c' : Tree K h) (k' : K) (d : ChildTaken cmp ks lv h t T pre k c post key value t₁ v c' k')
    (index : ℕ) (at : index ≡ length pre) (flag : Bool) (same : flag ≡ false → k' ≡ k) where
  abbrev pub mid : Kids K h
  mid = (k', c') ∷ []

  abbrev pub T₂ : Tree K (suc h)
  T₂ = record T { kids = pre ++ ((k', c') ∷ post) }

  abbrev pub marked_from : NodeBlock K → NodeBlock K → BTree K
  marked_from s n = marked t₁ T.index index s n flag

  -- the root of `T` is not among the blocks of the child
  pub root_apart : occ T.index (blocks K h c) ≡ 0
  root_apart = ground (
    arith,
    d.distinct T.index,
    occ_kids cmp ks lv h t T pre k c post d.parts d.represents d.well_formed d.distinct T.index,
  )

  pub parent_kept : view_at t₁ T.index ≡ some (root_view K ks lv (suc h) T)
  parent_kept = d.taken.grows.keep T.index _ d.represents.0 root_apart

  pub marked_lem :
      (s : NodeBlock K) × (n : NodeBlock K) × (t₁.blocks (root_index K h c) ≡ node s)
      × (t₁.blocks T.index ≡ node n)
      × (view s ≡ root_view K ks lv h c')
      × (view_at (marked_from s n) T.index ≡ some (root_view K ks lv (suc h) T₂))
      × Grows (one_at T.index) t₁ (marked_from s n)
      × ((marked_from s n).meta.count_of_block ≡ t₁.meta.count_of_block)
  marked_lem =
      let son_view : view_at t₁ (root_index K h c) ≡ some (root_view K ks lv h c') =
        ap (view_at t₁) (sym d.taken.root_same)
        ∙ Represents-root K ks lv h t₁ c' d.taken.represents in
      let (s, on_s, used_s, same_s, _) = node_at_view t₁ (root_index K h c) _ son_view in
      let (n, on_n, used_n, same_n, _) = node_at_view t₁ T.index _ parent_kept in
      let f = kid_slot K h in
      let items_n : items n ≡ map f pre ++ (f (k, c) ∷ map f post) =
        ap (λ (x : View K). x.items) same_n
        ∙ ap (map f) d.parts
        ∙ map-append f pre ((k, c) ∷ post) in
      let last_s : last_key (items s) ≡ some k' =
        ap (λ (x : View K). last_key x.items) same_s
        ∙ last_key-root K ks lv h c' d.taken.well_formed
        ∙ d.last in
      let (seen, grows, count) =
        marked-Grows blank blank_data cmp t₁ T.index index s n flag k' (map f pre) (f (k, c))
          (map f post) on_n used_n (d.taken.grows.all_lead d.lead) items_n
          (at ∙ sym (length-map f pre)) refl last_s same in
      let view_lem : map f pre
            ++ (record { key = k'; flag = 1; value = child (root_index K h c) } ∷ map f post)
          ≡ map f T₂.kids =
        ap (λ i. map f pre ++ (record { key = k'; flag = 1; value = child i } ∷ map f post))
          (sym d.taken.root_same)
        ∙ sym (map-append f pre ((k', c') ∷ post)) in
      (
        s,
        n,
        on_s,
        on_n,
        same_s,
        seen
            ∙ ap
                (λ (x : View K).
                  let r : View K = record x {
                    items =
                        map f pre
                        ++ (record { key = k'; flag = 1; value = child (root_index K h c) }
                            ∷ map f post);
                  } in
                  some r)
                same_n
            ∙ ap
                (λ xs.
                  let r : View K = record (root_view K ks lv (suc h) T) { items = xs } in some r)
                view_lem,
        grows,
        count,
      )

  pub parent_apart : (i : ℕ) → 1 ≤ occ i (blocks K h c') → one_at T.index i ≡ 0
  parent_apart i some_i = elim (Bool-cases (i == T.index)) [
    | inr e ↦ rw e refl
    | inl e ↦
        let f : i ≡ T.index = ground (arith, e) in
        let old = d.taken.old_blocks T.index (view_at-used t T.index _ d.represents.0) in
        absurd (omega (arith, ap (λ j. occ j (blocks K h c')) f, old, root_apart, some_i))
  ]

  pub child_once : (i : ℕ) → occ i (blocks K h c') ≤ 1
  child_once i = elim (dec_lt i t.meta.count_of_block) [
    | yes q ↦ omega (
      arith,
      d.taken.old_blocks i q,
      d.distinct i,
      occ_kids cmp ks lv h t T pre k c post d.parts d.represents d.well_formed d.distinct i,
    )
    | no q ↦ d.taken.new_blocks i (omega arith)
  ]

  -- the child has room for another item
  pub after_roomy :
      (width K h c' == room ks lv h) ≡ false
      → (width K h c' ≤ room ks lv h)
      → (t' : BTree K) × (after_son blank blank_data cmp t₁ T.index index (root_index K h c) flag
          ≡ some (inserted, t'))
        × Taken cmp ks lv (suc h) t T key value t' v T₂
  after_roomy some_room fits =
      let (s, n, on_s, on_n, same_s, seen, grows, count) = marked_lem in
      let t' = marked_from s n in
      let c₁ = d.taken.grows.count in
      (
        t',
        roomy_run blank blank_data cmp t₁ T.index index (root_index K h c) s n flag on_s on_n
            (full_lem ks lv h s c' same_s ∙ some_room),
        replaced_lem cmp ks lv h t T pre k c post d.parts d.represents d.well_formed d.distinct t'
            key value v mid d.set seen
            (Represents-kept K ks lv h _ t₁ t' c' grows parent_apart d.taken.represents, tt)
            ((d.last, d.taken.well_formed, ground (arith, some_room, fits)), tt)
            (Grows-trans _ _ _ t t₁ t' (λ i q z. (omega (arith, z), omega (arith, z))) d.taken.grows
              grows)
            (λ i q. ap (occ i) (append-nil (blocks K h c')) ∙ d.taken.old_blocks i q)
            (λ i q. omega (arith, ap (occ i) (append-nil (blocks K h c')), d.taken.new_blocks i q))
            (Means-kept _ t₁ t' v value grows d.taken.means) (omega (arith, d.taken.more, count))
            (omega arith) (omega arith)
            (λ a b l.
              subst (λ xs. Linked a xs b) (sym (append-nil (leaves K h c')))
                (d.taken.linked a b l)),
      )
