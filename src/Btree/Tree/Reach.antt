-- ===== src/Btree/Tree/Reach.antt =====
-- The trees that `create` and any number of calls of `put` make, and what `locate` finds in them.
use example_engine.Prelude.{
  ℕ, zero, ◌+◌, ◌^◌, ◌≤◌, ◌<◌, ◌≡◌, ◌≢◌, ◌⊎◌, inl, inr, refl, sym, ap, ◌∙◌, subst, false, none,
  some, List, [], length, arith, ◌==◌, Bool-cases,
}
use example_engine.Block.Header
use example_engine.Block.Header.{leaf_block, u32}
use example_engine.Block.Data.{DataBlock}
use example_engine.Btree.Order.{Compare, same, IsOrder}
use example_engine.Btree.Node
use example_engine.Btree.Node.{Value, NodeBlock}
use example_engine.Btree.Node.Items.{items, slots}
use example_engine.Btree.Node.Sorted.{is_live}
use example_engine.Btree.Node.Live.{
  live_value, is_live-value, live_value-insert_self, live_value-insert_other,
}
use example_engine.Btree.Tree.{Block, node, values, unused, BTree, get_node_block}
use example_engine.Btree.Tree.Values.{Holds}
use example_engine.Btree.Tree.Create.{create, open_, construct}
use example_engine.Btree.Tree.Insert.{Outcome, inserted, put}
use example_engine.Btree.Tree.View.{View, view, view_at, AllLead, node_at_view, view_at-node}
use example_engine.Btree.Tree.Shape.{Tree, entries, Fits, Means, room}
use example_engine.Btree.Tree.Valid.{Valid}
use example_engine.Btree.Tree.Put.{put-insert_sorted}
use example_engine.Btree.Tree.Locate.{Located, locate-Located}

module _ {K : Type 0} (blank : NodeBlock K) (cmp : Compare K) (key_size value_size : ℕ) where
  -- the leaf that `create` makes
  abbrev pub empty_tree : Tree K zero
  empty_tree = record { index = 1; next = 0; items = [] }

  abbrev pub leaf_size : ℕ
  leaf_size = (create blank key_size value_size).leaf_value_size

  abbrev root_node : NodeBlock K
  root_node = Node.init blank 1 leaf_block key_size leaf_size

  only_root :
      (i : ℕ) (b : Block K)
      → (create blank key_size value_size).blocks i ≡ b
      → ((i ≡ 1) × (b ≡ node root_node)) ⊎ (b ≡ unused)
  unfolding create construct
  only_root i b e = elim (Bool-cases (i == 1)) [
    | inl q ↦ inl (ground (arith, q), sym e ∙ rw q refl)
    | inr q ↦ inr (sym e ∙ rw q refl)
  ]

  root_view_lem :
      (view root_node ≡ record {
        type = leaf_block;
        index = 1;
        next = 0;
        key_size = key_size;
        val_size = leaf_size;
        items = [];
      })
      × (root_node.header.next ≡ 0)
  unfolding Node.init Header.init items slots
  root_view_lem = (refl, refl)

  at_root : (create blank key_size value_size).blocks 1 ≡ node root_node
  unfolding create construct
  at_root = refl

  sizes_lem :
      let t = create blank key_size value_size in
      (t.meta.count_of_block ≡ 2) × (t.root ≡ 0) × (t.meta.root ≡ 1) × (t.key_size ≡ key_size)
  unfolding create construct
  sizes_lem = (refl, refl, refl, refl)

  -- the tree once it is opened
  abbrev pub opened : BTree K
  opened = record (create blank key_size value_size) { root = 1 }

  opened-view : view_at opened 1 ≡ some (view root_node)
  opened-view =
      let (count, _, _, _) = sizes_lem in
      (view_at-node opened 1 root_node (omega (arith, count)) at_root).0

  unused≢node : (n : NodeBlock K) → unused ≢ node n
  unused≢node n e = cc

  unused≢values : (b : DataBlock) (c : Block K) → c ≡ unused → c ≢ values b
  unused≢values b c e f = cc

  node≢values : (n : NodeBlock K) (b : DataBlock) (c : Block K) → c ≡ node n → c ≢ values b
  node≢values n b c e f = cc

  opened_leads : AllLead opened
  opened_leads i v e =
      let (n, on, used, same, _) = node_at_view opened i v e in
      elim (only_root i (node n) on) [
        | inl (at, f) ↦
            let g : n ≡ root_node = cc in
            inl (
              ap (λ (x : View K). x.next) (sym same)
              ∙ ap (λ (x : NodeBlock K). x.header.next) g
              ∙ root_view_lem.1)
        | inr f ↦ absurd (unused≢node n (sym f))
      ]

  opened_holds : Holds opened
  opened_holds j b used e = elim (only_root j (values b) e) [
    | inl (at, f) ↦ absurd (node≢values root_node b (node root_node) refl (sym f))
    | inr f ↦ absurd (unused≢values b unused refl (sym f))
  ]

  open_run : open_ (create blank key_size value_size) ≡ some opened
  unfolding open_ create construct get_node_block
  open_run = refl

  -- A tree that is created and opened is valid and has no entries, for nodes with room for an item.
  pub create-Valid :
      0 < room key_size leaf_size zero
      → (open_ (create blank key_size value_size) ≡ some opened)
        × Valid cmp key_size leaf_size zero opened empty_tree
  create-Valid some_room =
      let (count, _, at_meta, keys) = sizes_lem in
      (
        open_run,
        record {
          ready = record {
            represents = (opened-view ∙ ap some root_view_lem.0, tt);
            well_formed = tt;
            ascends = tt;
            distinct = λ i. ground arith;
            roomy = some_room;
            lead = opened_leads;
            holds = opened_holds;
          };
          root_is = refl;
          meta_is = at_meta;
          keys = keys;
          sizes = refl;
          ends = refl;
          low = omega (arith, count);
          linked = (1, (refl, refl));
        },
      )

module _ {K : Type 0} (blank : NodeBlock K) (blank_data : DataBlock) (cmp : Compare K)
    (order : IsOrder cmp) (key_size value_size : ℕ)
    (wide : (h : ℕ) → 3 ≤ room key_size (leaf_size blank cmp key_size value_size) h) where
  -- The trees that calls of `put` make of an empty one, with values of less than 4066 bytes, and in
  -- a tree of constant size not less than the leaves hold of them (`Fits`), and as
  -- long as block numbers stay below 2^32.
  pub data Reached : BTree K → Type 0 where
    created : Reached (opened blank cmp key_size value_size)
    after_put :
        (t t' : BTree K) (key : K) (value : List ℕ) (res : Outcome)
        → Reached t
        → length value < 4066
        → Fits K t value
        → t.meta.count_of_block + t.meta.count_of_block + 3 < 2 ^ 32
        → put blank blank_data cmp t key value (length value) ≡ some (res, t')
        → Reached t'

  -- Every tree that calls of `put` with values that fit (`Reached`) make of one that was created and
  -- opened is valid, for nodes with room for three items: blocks represent a tree in order, and its leaves follow each other to the last.
  pub Reached-Valid :
      (t : BTree K)
      → Reached t
      → (h : ℕ) × (T : Tree K h) × Valid cmp key_size
          (leaf_size blank cmp key_size value_size)
          h
          t
          T
  Reached-Valid _ created = (
    zero,
    empty_tree blank cmp key_size value_size,
    (create-Valid blank cmp key_size value_size (let w = wide zero in omega arith)).1,
  )
  Reached-Valid _ (after_put t t' key value res r short fits small e) =
      let (h, T, valid) = Reached-Valid t r in
      let lv = leaf_size blank cmp key_size value_size in
      let result =
        put-insert_sorted blank blank_data cmp order key_size lv wide key value short h t T valid
          fits (omega (arith, valid.low, small)) in
      elim (Bool-cases (is_live cmp key (entries K h T))) [
        | inl live ↦
            let f = sym (rw live at result) ∙ e in
            let g : t ≡ t' = cc in (h, T, subst (λ u. Valid cmp key_size lv h u T) g valid)
        | inr dead ↦
            let (t₁, v, h', T', run, valid', _, _, _, _, _, _) = rw dead at result in
            let f = sym run ∙ e in
            let g : t₁ ≡ t' = cc in (h', T', subst (λ u. Valid cmp key_size lv h' u T') g valid')
      ]

  -- In a valid tree whose nodes have room for three items, `put` takes a value of less than 4066
  -- bytes, which in a tree of constant size has as many bytes as the leaves hold of it or more
  -- (`Fits`), for a key that no live entry has, as long as block numbers stay below 2^32. In the
  -- new tree `locate` with `exact_key` comes to an item whose value means the bytes that were put
  -- (`Means`: it is the place of all of them or, in a tree of constant size, their first ones); for
  -- another key it comes to an item with the same value in the old tree and the new one, or to none
  -- in both.
  pub locate-put :
      (h : ℕ) (t : BTree K) (T : Tree K h) (key : K) (value : List ℕ)
      → Valid cmp key_size (leaf_size blank cmp key_size value_size) h t T
      → length value < 4066
      → Fits K t value
      → t.meta.count_of_block + h + 3 < 2 ^ 32
      → live_value cmp key (entries K h T) ≡ none
      → (other : K) → same cmp key other ≡ false
      → (t' : BTree K) × (v : Value) × (put blank blank_data cmp t key value (length value)
          ≡ some (inserted, t'))
        × Means K t' v value
        × Located cmp key t' (some v)
        × Located cmp other t (live_value cmp other (entries K h T))
        × Located cmp other t' (live_value cmp other (entries K h T))
  locate-put h t T key value valid short fits small absent other apart =
      let lv = leaf_size blank cmp key_size value_size in
      let dead : is_live cmp key (entries K h T) ≡ false =
        is_live-value cmp key (entries K h T) ∙ rw absent refl in
      let (t', v, h', T', run, valid', _, set, means, _, _, _) = rw dead at (
        put-insert_sorted blank blank_data cmp order key_size lv wide key value short h t T valid
          fits small) in
      (
        t',
        v,
        run,
        means,
        subst (Located cmp key t')
            (ap (live_value cmp key) set ∙ live_value-insert_self cmp order key v (entries K h T))
            (locate-Located cmp key order key_size lv h' t' T' valid'),
        locate-Located cmp other order key_size lv h t T valid,
        subst (Located cmp other t')
            (ap (live_value cmp other) set
              ∙ live_value-insert_other cmp order key other v (entries K h T) apart)
            (locate-Located cmp other order key_size lv h' t' T' valid'),
      )
