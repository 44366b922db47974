-- ===== src/Btree/Tree/InsertInner.antt =====
-- `insert` on a tree that blocks represent, by induction on its height.
use example_engine.Prelude.{
  ℕ, zero, suc, ◌+◌, ◌^◌, ◌≤◌, ◌<◌, ◌≡◌, inl, inr, refl, sym, ap, ◌∙◌, subst, Bool, false, some,
  List, ◌∷◌, ◌++◌, map, length, arith, ◌==◌, Bool-cases,
}
use example_engine.Block.Data.{DataBlock}
use example_engine.Btree.Order.{Compare, lt, IsOrder}
use example_engine.Btree.Node
use example_engine.Btree.Node.{Value, child, Slot, NodeBlock, lub, size}
use example_engine.Btree.Node.Items.{items}
use example_engine.Btree.Node.Sorted.{All-imp, Below, Ascends, last_key, is_live}
use example_engine.Btree.Tree.{node, BTree, get_node_block, get_child}
use example_engine.Btree.Tree.Insert.{inserted, child_index, after_son}
use example_engine.Btree.Tree.View.{View, node_at_view}
use example_engine.Btree.Tree.Shape.{Tree, root_index, entries, width, kid_slot, room}
use example_engine.Btree.Tree.Frame.{length-map}
use example_engine.Btree.Tree.Kids.{map-append, Ascends-kids, Below-kids, lub-Chosen}
use example_engine.Btree.Tree.Halves.{Represents-root}
use example_engine.Btree.Tree.Taken.{Taken, ChildTaken, Holder, child_lem, Kids, entries_of}
use example_engine.Btree.Tree.Descent.{duplicate_run, inserted_run}
use example_engine.Btree.Tree.AfterSon.{after_roomy}
use example_engine.Btree.Tree.AfterFull.{after_full}
use example_engine.Btree.Tree.InsertTree.{
  type_inner, down_lem, Ready, Takes, FitsLeaves, leaf_lem, child-Ready, child_taken,
}

module _ {K : Type 0} (blank : NodeBlock K) (blank_data : DataBlock) (cmp : Compare K)
    (order : IsOrder cmp) (ks lv : ℕ) (key : K) (value : List ℕ) (short : length value < 4066)
    (wide : (h : ℕ) → 2 ≤ room ks lv h) where
  abbrev pub TakesIt : (h fuel : ℕ) → BTree K → Tree K h → Type 0
  TakesIt h fuel t T = Takes blank blank_data cmp order ks lv key value short h fuel t T

  -- the parent once the child has taken the value
  after_lem :
      (h : ℕ) (t : BTree K) (T : Tree K (suc h)) (pre : Kids K h) (k : K) (c : Tree K h)
      (post : Kids K h) (t₁ : BTree K) (v : Value) (c' : Tree K h) (k' : K)
      (d : ChildTaken cmp ks lv h t T pre k c post key value t₁ v c' k') (index : ℕ) (flag : Bool)
      → index ≡ length pre
      → (flag ≡ false → k' ≡ k)
      → (width K h c' ≤ room ks lv h)
      → width K (suc h) T < room ks lv (suc h)
      → t₁.meta.count_of_block + 1 < 2 ^ 32
      → (t' : BTree K) × (T' : Tree K (suc h)) × (after_son blank blank_data cmp t₁ T.index index
            (root_index K h c)
            flag
          ≡ some (inserted, t'))
        × Taken cmp ks lv (suc h) t T key value t' v T'
  after_lem h t T pre k c post t₁ v c' k' d index flag at same fits roomy small =
      elim (Bool-cases (width K h c' == room ks lv h)) [
        | inr some_room ↦
            let (t', run, taken) =
              after_roomy blank blank_data cmp order ks lv h t T pre k c post key value t₁ v c' k' d
                index at flag same some_room fits in
            (t', _, run, taken)
        | inl full ↦
            let is_full : width K h c' ≡ room ks lv h = ground (arith, full) in
            let (t', run, taken) =
              after_full blank blank_data cmp order ks lv h t T pre k c post key value t₁ v c' k' d
                t₁.meta.count_of_block (omega (arith, wide h, is_full)) index at flag same refl
                small roomy full (ground (arith, wide h)) in
            (t', _, run, taken)
      ]

  -- the parent once the child is chosen
  chosen_lem :
      (h fuel : ℕ) (t : BTree K) (T : Tree K (suc h)) (n s : NodeBlock K) (pre : Kids K h) (k : K)
      (c : Tree K h) (post : Kids K h)
      → T.kids ≡ pre ++ ((k, c) ∷ post)
      → Ready cmp ks lv (suc h) t T
      → t.meta.count_of_block + suc h + 1 < 2 ^ 32
      → t.blocks T.index ≡ node n
      → Node.leaf n ≡ false
      → get_child n (child_index n (lub cmp n key)) ≡ some (root_index K h c)
      → get_node_block t (root_index K h c) ≡ some s
      → child_index n (lub cmp n key) ≡ length pre
      → Below cmp key (map (kid_slot K h) pre)
      → Holder cmp (entries_of K h post) k key
      → ((lub cmp n key == n.count) ≡ false → lt cmp k key ≡ false)
      → (Ready cmp ks lv h t c → TakesIt h fuel t c)
      → TakesIt (suc h) (suc fuel) t T
  chosen_lem h fuel t T n s pre k c post parts ready small on inner down got at below holder same
        takes =
      let (c_ready, keyed, split, keyed_pre, asc_pre) =
        child-Ready blank blank_data cmp order ks lv key value short h t T pre k c post parts
          ready in
      let (live, sorted, last) =
        child_lem cmp order (entries_of K h pre) (entries K h c) (entries_of K h post) k key
          (Below-kids cmp order h key pre keyed_pre asc_pre below) c_ready.ascends keyed holder in
      let same_live : is_live cmp key (entries K (suc h) T) ≡ is_live cmp key (entries K h c) =
        ap (is_live cmp key) split ∙ live in
      let son = root_index K h c in
      let (dup, taken) = takes c_ready in
      (
        λ l.
            duplicate_run blank blank_data cmp fuel t t T.index son n s key value (length value) on
              inner down got (dup (sym same_live ∙ l)),
        λ dead.
            let (t₁, v, c', run, tk) = taken (sym same_live ∙ dead) in
            let (k', last', stays) = last v in
            let d =
              child_taken blank blank_data cmp order ks lv key value short h t T pre k c post parts
                ready t₁ v c' k' tk (ap last_key tk.entries_set ∙ last') split (sorted v) in
            let start =
              inserted_run blank blank_data cmp fuel t t₁ T.index son n s key value (length value)
                on inner down got run in
            let (t', T', run', taken') =
              after_lem h t T pre k c post t₁ v c' k' d (child_index n (lub cmp n key))
                (lub cmp n key == n.count) at (λ q. stays (same q))
                (omega (arith, tk.wider, c_ready.roomy)) ready.roomy
                (omega (arith, small, tk.more)) in
            (t', v, T', start ∙ run', taken'),
      )

  inner_lem :
      (h fuel : ℕ) (t : BTree K) (T : Tree K (suc h))
      → ((c : Tree K h) → Ready cmp ks lv h t c → TakesIt h fuel t c)
      → Ready cmp ks lv (suc h) t T
      → t.meta.count_of_block + suc h + 1 < 2 ^ 32
      → TakesIt (suc h) (suc fuel) t T
  inner_lem h fuel t T takes ready small =
      let f = kid_slot K h in
      let (n, on, used, same, _) = node_at_view t T.index _ ready.represents.0 in
      let items_n : items n ≡ map f T.kids = ap (λ (x : View K). x.items) same in
      let inner = type_inner n (ap (λ (x : View K). x.type) same) in
      let asc_n : Ascends cmp (items n) = subst (Ascends cmp) (sym items_n) (
        Ascends-kids cmp order h T.kids
          (All-imp _ _ (λ kid (e, _, _). e) T.kids ready.well_formed.1) ready.ascends) in
      let (pre, k, c, post, parts, at, below, case) =
        lub-Chosen cmp order h n key T.kids items_n ready.well_formed.0 asc_n in
      let son = root_index K h c in
      let (s, on_s, used_s, same_s, got) = node_at_view t son _ (
        Represents-root K ks lv h t c
          (child-Ready blank blank_data cmp order ks lv key value short h t T pre k c post parts
            ready).0.represents) in
      chosen_lem h fuel t T n s pre k c post parts ready small on inner
        (down_lem n (child_index n (lub cmp n key)) (map f pre) (f (k, c)) (map f post) son
          (items_n ∙ ap (map f) parts ∙ map-append f pre ((k, c) ∷ post))
          (at ∙ sym (length-map f pre)) refl)
        got at below
        (elim case [ inl (a, q) ↦ inl a | inr (e, a, q) ↦ inr (ap (entries_of K h) e, a) ])
        (λ q. elim case [ inl (a, p) ↦ a | inr (e, a, p) ↦ let z = sym p ∙ q in cc ]) (takes c)

  -- whatever the height
  pub insert-Takes :
      (h fuel : ℕ) (t : BTree K) (T : Tree K h)
      → h < fuel
      → Ready cmp ks lv h t T
      → t.meta.count_of_block + h + 1 < 2 ^ 32
      → FitsLeaves blank blank_data cmp order ks lv key value short t
      → TakesIt h fuel t T
  insert-Takes zero zero t T enough ready small fits = absurd (omega arith)
  insert-Takes zero (suc fuel) t T enough ready small fits =
      leaf_lem blank blank_data cmp order ks lv key value short fuel t T ready (omega arith) fits
  insert-Takes (suc h) zero t T enough ready small fits = absurd (omega arith)
  insert-Takes (suc h) (suc fuel) t T enough ready small fits =
      inner_lem h fuel t T (λ c r. insert-Takes h fuel t c (omega arith) r (omega arith) fits) ready
        small
