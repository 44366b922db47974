-- ===== src/Btree/Tree/Locate.antt =====
-- `locate` with `exact_key` on a valid tree: it comes to the live item with the key.
use example_engine.Prelude.{
  ℕ, ◌≡◌, inl, inr, refl, sym, ap, ◌∙◌, subst, true, false, Option, none, some, List, [], ◌∷◌, ◌++◌,
  length, take, drop, take-append-drop, length-take, arith, length-append, ◌==◌, Bool-cases, not,
  ◌&&◌,
}
use example_engine.Prelude.Int.{is_zero}
use example_engine.Btree.Order.{Compare, same, IsOrder}
use example_engine.Btree.Node
use example_engine.Btree.Node.{Value, child, Slot, NodeBlock, lub}
use example_engine.Btree.Node.Items.{items, length-items}
use example_engine.Btree.Node.Sorted.{NotBelow, Ascends}
use example_engine.Btree.Node.Live.{live_value, live_value-Below}
use example_engine.Btree.Node.Slots.{kv_at, lub_parts}
use example_engine.Btree.Tree.{node, BTree}
use example_engine.Btree.Tree.Insert.{get_leaf_from, get_leaf, depth_fuel}
use example_engine.Btree.Tree.Iterator.{Iterator, exact_key, locate, locate_at}
use example_engine.Btree.Tree.View.{View, node_at_view}
use example_engine.Btree.Tree.Shape.{Tree, entries}
use example_engine.Btree.Tree.Valid.{Valid}
use example_engine.Btree.Tree.Find.{get_leaf_from-LeafFound}

module _ {K : Type 0} (cmp : Compare K) (key : K) where
  -- the iterator at the index of `lub`
  abbrev standing : ℕ → NodeBlock K → Iterator
  standing cur n = record { cur = cur; index = lub cmp n key }

  -- where `locate` with `exact_key` comes to, in a tree whose live item with the key has that value
  abbrev pub Located : BTree K → Option Value → Type 0
  Located t none = (it : Iterator) × (locate cmp t key exact_key ≡ some (false, it))
  Located t (some v) =
      (it : Iterator) × (n : NodeBlock K) × (locate cmp t key exact_key ≡ some (true, it))
      × (t.blocks it.cur ≡ node n)
      × (Node.get_value n it.index ≡ v)

  end_run :
      (t : BTree K) (cur : ℕ) (n : NodeBlock K)
      → get_leaf cmp t key ≡ some cur
      → t.blocks cur ≡ node n
      → (lub cmp n key == n.count) ≡ true
      → Located t none
  unfolding locate
  end_run t cur n e at q = elim (Bool-cases (Node.empty n)) [
    | inl z ↦ (standing cur n, rw (e, at, q, z) refl)
    | inr z ↦ (standing cur n, rw (e, at, q, z) refl)
  ]

  item_run :
      (t : BTree K) (cur : ℕ) (n : NodeBlock K)
      → get_leaf cmp t key ≡ some cur
      → t.blocks cur ≡ node n
      → (lub cmp n key == n.count) ≡ false
      → locate cmp t key exact_key
        ≡ some (
          is_zero (Node.compare_at cmp n (lub cmp n key) key)
              && not (Node.removed n (lub cmp n key)),
          standing cur n,
        )
  unfolding locate locate_at
  item_run t cur n e at q = rw (e, at, q) refl

  get_leaf_run :
      (t : BTree K) (cur : ℕ)
      → get_leaf_from cmp (depth_fuel t) t key t.root ≡ some cur
      → get_leaf cmp t key ≡ some cur
  unfolding get_leaf
  get_leaf_run t cur e = e

  compared_lem :
      (n : NodeBlock K) (i : ℕ) (s : Slot K)
      → n.kv i ≡ s
      → ((is_zero (Node.compare_at cmp n i key) && not (Node.removed n i))
          ≡ (same cmp s.key key && not (s.flag == 0)))
        × (Node.get_value n i ≡ s.value)
  unfolding Node.compare_at Node.get_key Node.removed Node.get_value
  compared_lem n i s e = (
    ap (λ (r : Slot K). is_zero (cmp r.key key) && not (r.flag == 0)) e,
    ap (λ (r : Slot K). r.value) e,
  )

  leaf_lem :
      (t : BTree K) (cur : ℕ) (n : NodeBlock K) (pre post : List (Slot K))
      → get_leaf cmp t key ≡ some cur
      → t.blocks cur ≡ node n
      → items n ≡ pre ++ post
      → lub cmp n key ≡ length pre
      → NotBelow cmp key post
      → Located t (live_value cmp key post)
  leaf_lem t cur n pre [] e at parts long above =
      end_run t cur n e at
        (ground (arith, long, length-items n, ap length parts, length-append pre []))
  leaf_lem t cur n pre (s ∷ post) e at parts long (above, rest) =
      let (at_s, inside) = kv_at n (lub cmp n key) pre s post parts long in
      let (compared, value) = compared_lem n (lub cmp n key) s at_s in
      let run = item_run t cur n e at (ground (arith, inside)) in
      elim (Bool-cases (same cmp s.key key && not (s.flag == 0))) [
        | inl q ↦
            rw (above, q)
              (
                standing cur n,
                n,
                run ∙ ap (λ b. some (b, standing cur n)) (compared ∙ q),
                at,
                value,
              )
        | inr q ↦
            rw (above, q) (standing cur n, run ∙ ap (λ b. some (b, standing cur n)) (compared ∙ q))
      ]

  module _ (order : IsOrder cmp) (ks lv h : ℕ) (t : BTree K) (T : Tree K h)
      (valid : Valid cmp ks lv h t T) where
    -- In a valid tree `locate` with `exact_key` comes to the live item with the key, and to that
    -- item's value; it returns false if there is none.
    pub locate-Located : Located t (live_value cmp key (entries K h T))
    locate-Located =
        let (L, walk, seen, asc, live) =
          get_leaf_from-LeafFound cmp order ks lv key h (depth_fuel t) t T
            (omega (arith, valid.low)) valid.ready.represents valid.ready.well_formed
            valid.ready.ascends in
        let (n, on, used, same_n, _) = node_at_view t L.index _ seen in
        let items_n : items n ≡ L.items = ap (λ (x : View K). x.items) same_n in
        let i = lub cmp n key in
        let (inside, below, above) =
          lub_parts cmp order n key (subst (Ascends cmp) (sym items_n) asc) in
        let parts : items n ≡ take i (items n) ++ drop i (items n) =
          sym (take-append-drop i (items n)) in
        let rest : live_value cmp key (entries K h T) ≡ live_value cmp key (drop i (items n)) =
          live
          ∙ ap (live_value cmp key) (sym items_n ∙ parts)
          ∙ live_value-Below cmp key (take i (items n)) (drop i (items n)) below in
        subst (Located t) (sym rest) (
          leaf_lem t L.index n (take i (items n)) (drop i (items n))
            (get_leaf_run t L.index
              (ap (get_leaf_from cmp (depth_fuel t) t key) (sym valid.root_is) ∙ walk))
            on parts (omega (arith, length-take i (items n), length-items n)) above)
