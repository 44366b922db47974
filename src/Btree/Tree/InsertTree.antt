-- ===== src/Btree/Tree/InsertTree.antt =====
-- The steps of `insert` on a tree that blocks represent: a leaf, and the child of an inner node.
use example_engine.Prelude.{
  ℕ, zero, suc, ◌+◌, ◌^◌, ◌≤◌, ◌<◌, ◌≡◌, refl, sym, ap, ◌∙◌, subst, true, false, some, List, ◌∷◌,
  ◌++◌, length, arith,
}
use example_engine.Block.Data.{DataBlock}
use example_engine.Block.Header.{leaf_block, node_block}
use example_engine.Btree.Order.{Compare, IsOrder}
use example_engine.Btree.Node
use example_engine.Btree.Node.{Value, child, Slot, NodeBlock, lub, size}
use example_engine.Btree.Node.Items.{items}
use example_engine.Btree.Node.Sorted.{
  All, All-imp, All-insert_sorted, length-insert_sorted, Ascends, Ascends-append, last_key,
  insert_sorted, is_live,
}
use example_engine.Btree.Node.Slots.{kv_at}
use example_engine.Btree.Tree.{BTree, as_child, get_child}
use example_engine.Btree.Tree.Values.{Holds}
use example_engine.Btree.Tree.Insert.{inserted, duplicate, insert}
use example_engine.Btree.Tree.View.{View, view_at, AllLead, Grows-trans, Grows-refl, node_at_view}
use example_engine.Btree.Tree.Shape.{
  Tree, flat-append, occ, root_index, entries, blocks, width, HasPlace, room, root_view, Represents,
  WellFormed,
}
use example_engine.Btree.Tree.Frame.{HasPlace-kept, Means-HasPlace}
use example_engine.Btree.Tree.LeafTree.{insert_leaf-lem}
use example_engine.Btree.Tree.Kids.{Keyed}
use example_engine.Btree.Tree.Taken.{Taken, ChildTaken, Kids, entries_of, occ_kids, siblings}
use example_engine.Btree.Tree.Descent.{leaf_run}
use example_engine.Btree.Tree.AfterSon.{node_lem}

module _ {K : Type 0} where
  pub type_leaf : (n : NodeBlock K) → n.header.type ≡ leaf_block → Node.leaf n ≡ true
  unfolding Node.leaf
  type_leaf n e = rw e refl

  pub type_inner : (n : NodeBlock K) → n.header.type ≡ node_block → Node.leaf n ≡ false
  unfolding Node.leaf
  type_inner n e = rw e refl

  -- the child that a slot leads to
  pub down_lem :
      (n : NodeBlock K) (i : ℕ) (pre : List (Slot K)) (s : Slot K) (post : List (Slot K)) (son : ℕ)
      → items n ≡ pre ++ (s ∷ post)
      → i ≡ length pre
      → s.value ≡ child son
      → get_child n i ≡ some son
  unfolding get_child Node.get_value
  down_lem n i pre s post son e at to_son =
      ap (λ (r : Slot K). as_child r.value) (kv_at n i pre s post e at).0 ∙ ap as_child to_son

-- A tree that takes values: it is well formed and in order, its blocks are all different, and the
-- root has room for an item.
pub record Ready {K : Type 0} (cmp : Compare K) (ks lv h : ℕ) (t : BTree K) (T : Tree K h)
    : Type 0 where
  pub represents : Represents K ks lv h t T
  pub well_formed : WellFormed K ks lv h T
  pub ascends : Ascends cmp (entries K h T)
  pub distinct : (i : ℕ) → occ i (blocks K h T) ≤ 1
  pub roomy : width K h T < room ks lv h
  pub lead : AllLead t
  pub holds : Holds t

module _ {K : Type 0} (blank : NodeBlock K) (blank_data : DataBlock) (cmp : Compare K)
    (order : IsOrder cmp) (ks lv : ℕ) (key : K) (value : List ℕ) (short : length value < 4066) where
  -- in leaves with values of `lv` bytes
  abbrev pub FitsLeaves : BTree K → Type 0
  FitsLeaves t = t.is_const_value_size ≡ true → (t.leaf_value_size ≡ lv) × (lv ≤ length value)

  -- the two outcomes of `insert`
  abbrev pub Takes : (h fuel : ℕ) → BTree K → Tree K h → Type 0
  Takes h fuel t T =
      let run = insert blank blank_data cmp fuel t key value (length value) (root_index K h T) in
      (is_live cmp key (entries K h T) ≡ true → run ≡ some (duplicate, t))
      × (is_live cmp key (entries K h T) ≡ false
          → (t' : BTree K) × (v : Value) × (T' : Tree K h) × (run ≡ some (inserted, t'))
            × Taken cmp ks lv h t T key value t' v T')

  pub leaf_lem :
      (fuel : ℕ) (t : BTree K) (T : Tree K zero)
      → Ready cmp ks lv zero t T
      → t.meta.count_of_block + 1 < 2 ^ 32
      → FitsLeaves t
      → Takes zero (suc fuel) t T
  leaf_lem fuel t T ready small fits =
      let (n, on, used, same, _) = node_at_view t T.index _ ready.represents.0 in
      let items_n : items n ≡ T.items = ap (λ (x : View K). x.items) same in
      let (count_n, size_n) = node_lem ks lv zero n T same in
      let run =
        leaf_run blank blank_data cmp fuel t T.index n key value (length value) on
          (type_leaf n (ap (λ (x : View K). x.type) same)) in
      let (dup, taken) =
        insert_leaf-lem blank blank_data cmp order t T.index n key value on used
          (subst (Ascends cmp) (sym items_n) ready.ascends)
          (subst (All (HasPlace K t)) (sym items_n) ready.represents.1) ready.lead ready.holds
          (omega (arith, ready.roomy, count_n, size_n)) small short
          (λ e.
            let (size, enough) = fits e in
            let val_size = ap (λ (x : View K). x.val_size) same in
            (val_size ∙ sym size, omega (arith, val_size, enough))) in
      (
        λ live. run ∙ dup (ap (is_live cmp key) items_n ∙ live),
        λ dead.
            let (t', v, run', seen, means, grows, more) =
              taken (ap (is_live cmp key) items_n ∙ dead) in
            let is = insert_sorted cmp key v T.items in
            let T' = record T { items = is } in
            let at : view_at t' T.index ≡ some (root_view K ks lv zero T') =
              seen
              ∙ ap
                  (λ (x : View K).
                    let r : View K = record x { items = insert_sorted cmp key v x.items } in some r)
                  same in
            (
              t',
              v,
              T',
              run ∙ run',
              record {
                represents = (
                  at,
                  All-insert_sorted cmp
                      (λ u. HasPlace K t' (record { key = key; flag = 1; value = u })) key v T.items
                      (Means-HasPlace t' (record { key = key; flag = 1; value = v }) value means)
                      (All-imp _ _ (λ s h. HasPlace-kept _ t t' s grows h) T.items
                        ready.represents.1),
                );
                well_formed = tt;
                root_same = refl;
                next_same = refl;
                entries_set = refl;
                means = means;
                grows =
                    Grows-trans _ (λ i. 0) _ t t' t' (λ i q z. (omega (arith, z), refl)) grows
                      (Grows-refl _ t');
                old_blocks = λ i q. refl;
                new_blocks = λ i q. ready.distinct i;
                more = omega (arith, more);
                wider = length-insert_sorted cmp key v T.items;
                linked = λ a b l. l;
              },
            ),
      )

  -- a child of a tree that takes values takes them
  pub child-Ready :
      (h : ℕ) (t : BTree K) (T : Tree K (suc h)) (pre : Kids K h) (k : K) (c : Tree K h)
      (post : Kids K h)
      → T.kids ≡ pre ++ ((k, c) ∷ post)
      → Ready cmp ks lv (suc h) t T
      → Ready cmp ks lv h t c
        × (last_key (entries K h c) ≡ some k)
        × (entries K (suc h) T ≡ entries_of K h pre ++ (entries K h c ++ entries_of K h post))
        × Keyed cmp order h pre
        × Ascends cmp (entries_of K h pre)
  child-Ready h t T pre k c post parts ready =
      let pick =
        siblings cmp ks lv h t T pre k c post parts ready.represents ready.well_formed
          ready.distinct in
      let (_, rep, _) = pick (λ (k, c). Represents K ks lv h t c) ready.represents.1 in
      let (pre_wf, (keyed, wf, roomy), _) = pick _ ready.well_formed.1 in
      let split : entries K (suc h) T
          ≡ entries_of K h pre ++ (entries K h c ++ entries_of K h post) =
        ap (entries_of K h) parts ∙ flat-append (λ (k, c). entries K h c) pre ((k, c) ∷ post) in
      let (asc_pre, asc_rest, _) =
        Ascends-append cmp (entries_of K h pre) (entries K h c ++ entries_of K h post)
          (subst (Ascends cmp) split ready.ascends) in
      let (asc, _, _) = Ascends-append cmp (entries K h c) (entries_of K h post) asc_rest in
      (
        record {
          represents = rep;
          well_formed = wf;
          ascends = asc;
          distinct = λ i. omega (
            arith,
            ready.distinct i,
            occ_kids cmp ks lv h t T pre k c post parts ready.represents ready.well_formed
                ready.distinct i,
          );
          roomy = roomy;
          lead = ready.lead;
          holds = ready.holds;
        },
        keyed,
        split,
        All-imp _ _ (λ kid (e, _, _). e) pre pre_wf,
        asc_pre,
      )

  pub child_taken :
      (h : ℕ) (t : BTree K) (T : Tree K (suc h)) (pre : Kids K h) (k : K) (c : Tree K h)
      (post : Kids K h)
      → T.kids ≡ pre ++ ((k, c) ∷ post)
      → Ready cmp ks lv (suc h) t T
      → (t₁ : BTree K) (v : Value) (c' : Tree K h) (k' : K)
      → Taken cmp ks lv h t c key value t₁ v c'
      → last_key (entries K h c') ≡ some k'
      → entries K (suc h) T ≡ entries_of K h pre ++ (entries K h c ++ entries_of K h post)
      → insert_sorted cmp key v (entries_of K h pre ++ (entries K h c ++ entries_of K h post))
        ≡ entries_of K h pre ++ (insert_sorted cmp key v (entries K h c) ++ entries_of K h post)
      → ChildTaken cmp ks lv h t T pre k c post key value t₁ v c' k'
  child_taken h t T pre k c post parts ready t₁ v c' k' tk last split sorted = record {
    parts = parts;
    represents = ready.represents;
    well_formed = ready.well_formed;
    distinct = ready.distinct;
    ascends = ready.ascends;
    lead = ready.lead;
    taken = tk;
    last = last;
    set =
        flat-append (λ (k, c). entries K h c) pre ((k', c') ∷ post)
        ∙ ap (λ r. entries_of K h pre ++ (r ++ entries_of K h post)) tk.entries_set
        ∙ sym sorted
        ∙ ap (insert_sorted cmp key v) (sym split);
  }
