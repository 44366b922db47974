-- ===== src/Btree/Tree/Find.antt =====
-- `getLeaf` on a tree that blocks represent: the walk ends at the leaf that a key belongs to.
use example_engine.Prelude.{
  ℕ, zero, suc, ◌<◌, ◌≡◌, inl, inr, refl, sym, ap, ◌∙◌, subst, true, false, some, List, ◌∷◌, ◌++◌,
  map, arith, append-nil,
}
use example_engine.Btree.Order.{Compare, same, IsOrder}
use example_engine.Btree.Node
use example_engine.Btree.Node.{Value, child, Slot, NodeBlock, lub}
use example_engine.Btree.Node.Items.{items}
use example_engine.Btree.Node.Sorted.{
  All, All-left, All-right, All-imp, Below, Ascends, Ascends-append, last_key,
}
use example_engine.Btree.Node.Live.{live_value, live_value-Below, live_value-Stops}
use example_engine.Btree.Tree.{BTree, get_node_block, get_child}
use example_engine.Btree.Tree.Insert.{child_index, get_leaf_from}
use example_engine.Btree.Tree.View.{View, view_at, node_at_view}
use example_engine.Btree.Tree.Shape.{
  Tree, Leaf, flat-append, root_index, entries, kid_slot, root_view, Represents, WellFormed,
}
use example_engine.Btree.Tree.Kids.{map-append, Keyed, Ascends-kids, Below-kids, lub-Chosen}
use example_engine.Btree.Tree.Frame.{length-map}
use example_engine.Btree.Tree.Taken.{Holder, Stops-last, entries_of}
use example_engine.Btree.Tree.InsertTree.{type_leaf, type_inner, down_lem}

All-parts :
    {A : Type 0} (P : A → Type 0) {xs : List A} (pre : List A) (x : A) (post : List A)
    → xs ≡ pre ++ (x ∷ post)
    → All P xs
    → All P pre × (P x × All P post)
All-parts P pre x post e h =
    let h' = subst (All P) e h in (All-left P pre (x ∷ post) h', All-right P pre (x ∷ post) h')

module _ {K : Type 0} (cmp : Compare K) where
  leaf_step :
      (fuel : ℕ) (t : BTree K) (key : K) (i : ℕ) (n : NodeBlock K)
      → get_node_block t i ≡ some n
      → Node.leaf n ≡ true
      → get_leaf_from cmp (suc fuel) t key i ≡ some i
  unfolding get_leaf_from
  leaf_step fuel t key i n e f = rw (e, f) refl

  inner_step :
      (fuel : ℕ) (t : BTree K) (key : K) (i son : ℕ) (n : NodeBlock K)
      → get_node_block t i ≡ some n
      → Node.leaf n ≡ false
      → get_child n (child_index n (lub cmp n key)) ≡ some son
      → get_leaf_from cmp (suc fuel) t key i ≡ get_leaf_from cmp fuel t key son
  unfolding get_leaf_from
  inner_step fuel t key i son n e f g = rw (e, f, g) refl

  -- a child in front of which and behind which the key is not
  live_child :
      (xs cs ys : List (Slot K)) (k key : K)
      → Below cmp key xs
      → last_key cs ≡ some k
      → Holder cmp ys k key
      → live_value cmp key (xs ++ (cs ++ ys)) ≡ live_value cmp key cs
  live_child xs cs ys k key below last (inl f) =
      live_value-Below cmp key xs (cs ++ ys) below
      ∙ live_value-Stops cmp key cs ys (Stops-last cmp cs k key last f)
  live_child xs cs ys k key below last (inr (e, f)) =
      live_value-Below cmp key xs (cs ++ ys) below
      ∙ ap (live_value cmp key) (ap (λ r. cs ++ r) e ∙ append-nil cs)

  module _ (order : IsOrder cmp) (ks lv : ℕ) (key : K) where
    -- the leaf that the walk to the key ends at
    abbrev pub LeafFound : (h fuel : ℕ) → BTree K → Tree K h → Type 0
    LeafFound h fuel t T =
        (L : Leaf K) × (get_leaf_from cmp fuel t key (root_index K h T) ≡ some L.index)
        × (view_at t L.index ≡ some (root_view K ks lv zero L))
        × Ascends cmp L.items
        × (live_value cmp key (entries K h T) ≡ live_value cmp key L.items)

    pub get_leaf_from-LeafFound :
        (h fuel : ℕ) (t : BTree K) (T : Tree K h)
        → h < fuel
        → Represents K ks lv h t T
        → WellFormed K ks lv h T
        → Ascends cmp (entries K h T)
        → LeafFound h fuel t T
    get_leaf_from-LeafFound zero zero t T enough rep wf asc = absurd (omega arith)
    get_leaf_from-LeafFound (suc h) zero t T enough rep wf asc = absurd (omega arith)
    get_leaf_from-LeafFound zero (suc fuel) t T enough rep wf asc =
        let (n, on, used, same, got) = node_at_view t T.index _ rep.0 in
        (
          T,
          leaf_step fuel t key T.index n got (type_leaf n (ap (λ (x : View K). x.type) same)),
          rep.0,
          asc,
          refl,
        )
    get_leaf_from-LeafFound (suc h) (suc fuel) t T enough rep wf asc =
        let f = kid_slot K h in
        let (n, on, used, same, got) = node_at_view t T.index _ rep.0 in
        let items_n : items n ≡ map f T.kids = ap (λ (x : View K). x.items) same in
        let keyed : Keyed cmp order h T.kids = All-imp _ _ (λ kid (e, _, _). e) T.kids wf.1 in
        let (pre, k, c, post, parts, at, below, case) =
          lub-Chosen cmp order h n key T.kids items_n wf.0
            (subst (Ascends cmp) (sym items_n) (Ascends-kids cmp order h T.kids keyed asc)) in
        let split : entries K (suc h) T
            ≡ entries_of K h pre ++ (entries K h c ++ entries_of K h post) =
          ap (entries_of K h) parts ∙ flat-append (λ (k, c). entries K h c) pre ((k, c) ∷ post) in
        let (asc_pre, asc_rest, _) =
          Ascends-append cmp (entries_of K h pre) (entries K h c ++ entries_of K h post)
            (subst (Ascends cmp) split asc) in
        let (asc_c, _, _) = Ascends-append cmp (entries K h c) (entries_of K h post) asc_rest in
        let (keyed_pre, (last, _)) =
          All-parts (λ (k, c). last_key (entries K h c) ≡ some k) pre (k, c) post parts keyed in
        let (_, (rep_c, _)) =
          All-parts (λ (k, c). Represents K ks lv h t c) pre (k, c) post parts rep.1 in
        let (_, ((_, wf_c, _), _)) = All-parts _ pre (k, c) post parts wf.1 in
        let (L, run, seen, asc_L, live) =
          get_leaf_from-LeafFound h fuel t c (omega arith) rep_c wf_c asc_c in
        let holder : Holder cmp (entries_of K h post) k key = elim case [
          | inl (a, q) ↦ inl a
          | inr (e, a, q) ↦ inr (ap (entries_of K h) e, a)
        ] in
        (
          L,
          inner_step fuel t key T.index (root_index K h c) n got
                (type_inner n (ap (λ (x : View K). x.type) same))
                (down_lem n (child_index n (lub cmp n key)) (map f pre) (f (k, c)) (map f post)
                  (root_index K h c) (items_n ∙ ap (map f) parts ∙ map-append f pre ((k, c) ∷ post))
                  (at ∙ sym (length-map f pre)) refl)
              ∙ run,
          seen,
          asc_L,
          ap (live_value cmp key) split
              ∙ live_child (entries_of K h pre) (entries K h c) (entries_of K h post) k key
                  (Below-kids cmp order h key pre keyed_pre asc_pre below) last holder
              ∙ live,
        )
