-- ===== src/Btree/Tree/LeafTree.antt =====
-- `insert` at a leaf of an ordered tree: the leaf takes the value or has a live item with the key.
use example_engine.Prelude.{
  ℕ, ◌+◌, ◌^◌, ◌≤◌, ◌<◌, ◌≡◌, inl, inr, refl, sym, ap, ap₂, ◌∙◌, subst, true, false, not, none,
  some, List, [], ◌∷◌, ◌++◌, length, take, drop, take-append-drop, take-append, drop-append, ◌&&◌,
  arith, ◌==◌, Bool-cases, length-take, length-append,
}
use example_engine.Block.Data.{DataBlock}
use example_engine.Btree.Order.{Compare, same, IsOrder}
use example_engine.Btree.Node
use example_engine.Btree.Node.{Value, Slot, NodeBlock, size, lub, inserted, insert_at}
use example_engine.Btree.Node.Items.{
  items, items-inserted, insert_at-eq-some, length-items, new_slot,
}
use example_engine.Btree.Node.Sorted.{
  All, Below, NotBelow, Ascends, insert_sorted, is_live, insert_sorted-Below, is_live-Below,
}
use example_engine.Btree.Node.Slots.{All-items, items-set, lub_parts, kv_at}
use example_engine.Btree.Tree.{node, BTree, write}
use example_engine.Btree.Tree.Insert.{Outcome, duplicate, has_key, insert_leaf}
use example_engine.Btree.Tree.Values.{Holds}
use example_engine.Btree.Tree.View.{
  View, view, view_at, Leads, AllLead, Grows, Grows-trans, node_at_view, view_at-used, view_at-node,
  view_at-write_self, write-Grows,
}
use example_engine.Btree.Tree.SplitSon.{capacity, size-capacity, one_at}
use example_engine.Btree.Tree.Shape.{HasPlace, Means}
use example_engine.Btree.Tree.Frame.{Means-kept}
use example_engine.Btree.Tree.Storing.{
  value_block-Source, new_value_block-Source, stored_value-Means,
}
use example_engine.Btree.Tree.LeafInsert.{
  duplicate_run, revived_run, added_run, has_key-slot, has_key-end,
}

module _ {K : Type 0} (blank : NodeBlock K) (blank_data : DataBlock) (cmp : Compare K) where
  -- what `insert` makes of a leaf that it puts a new value into
  abbrev pub LeafTaken : BTree K → ℕ → NodeBlock K → K → List ℕ → Type 0
  LeafTaken t cur n key value =
      (t' : BTree K) × (v : Value) × (insert_leaf blank blank_data cmp t cur n key value
          (length value)
        ≡ some (Outcome.inserted, t'))
      × (view_at t' cur ≡ some (record (view n) { items = insert_sorted cmp key v (items n) }))
      × Means K t' v value
      × Grows (one_at cur) t t'
      × (t'.meta.count_of_block ≤ t.meta.count_of_block + 1)

  -- a leaf of an ordered tree that has room for an item
  module _ (order : IsOrder cmp) (t : BTree K) (cur : ℕ) (n : NodeBlock K) (key : K)
      (value : List ℕ) (at : t.blocks cur ≡ node n) (used : cur < t.meta.count_of_block)
      (ascends : Ascends cmp (items n)) (places : All (HasPlace K t) (items n)) (lead : AllLead t)
      (holds : Holds t) (room : n.count < size n) (small : t.meta.count_of_block + 1 < 2 ^ 32)
      (short : length value < 4066)
      (fits : t.is_const_value_size ≡ true
        → (n.val_size ≡ t.leaf_value_size) × (n.val_size ≤ length value)) where
    here : view_at t cur ≡ some (view n)
    here = (view_at-node t cur n used at).0

    taken_lem :
        (t₁ : BTree K) (n' n'' : NodeBlock K) (v : Value)
        → Grows (λ j. 0) t t₁
        → (t₁.meta.count_of_block ≤ t.meta.count_of_block + 1)
        → Means K t₁ v value
        → view n' ≡ view n
        → view n'' ≡ record (view n') { items = insert_sorted cmp key v (items n) }
        → insert_leaf blank blank_data cmp t cur n key value (length value)
          ≡ some (Outcome.inserted, write t₁ cur (node n''))
        → LeafTaken t cur n key value
    taken_lem t₁ n' n'' v grows more means same new run =
        let used₁ = view_at-used t₁ cur _ (grows.keep cur _ here refl) in
        let view_lem : view n'' ≡ record (view n) { items = insert_sorted cmp key v (items n) } =
          new
          ∙ ap
              (λ (x : View K).
                let r : View K = record x { items = insert_sorted cmp key v (items n) } in r)
              same in
        let leads : Leads t₁ n''.header.next =
          subst (Leads t₁) (sym (ap (λ (x : View K). x.next) view_lem))
            (grows.all_lead lead cur (view n) (grows.keep cur _ here refl)) in
        let written = write-Grows t₁ cur n'' used₁ (view n) (grows.keep cur _ here refl) leads in
        let t' = write t₁ cur (node n'') in
        (
          t',
          v,
          run,
          view_at-write_self t₁ cur n'' used₁ ∙ ap some view_lem,
          Means-kept _ t₁ t' v value written means,
          Grows-trans _ _ _ t t₁ t' (λ i q z. (refl, z)) grows written,
          more,
        )

    -- a key that no item has
    added_lem :
        (pre post : List (Slot K))
        → items n ≡ pre ++ post
        → lub cmp n key ≡ length pre
        → has_key blank blank_data cmp n key (lub cmp n key) ≡ false
        → ((v : Value) → insert_sorted cmp key v (items n) ≡ pre ++ (new_slot key v ∷ post))
        → LeafTaken t cur n key value
    added_lem pre post e long fresh sorted =
        let i = lub cmp n key in
        let inside : i ≤ n.count =
          omega (arith, long, length-append pre post, ap length e, length-items n) in
        let (v, t₁, stored, means, grows, more) =
          stored_value-Means blank blank_data cmp t n.val_size _ value fits
            (new_value_block-Source blank blank_data cmp t n i places inside) holds small short in
        let (n', on, used', same, _) = node_at_view t₁ cur (view n) (grows.keep cur _ here refl) in
        let same_items : items n' ≡ items n = ap (λ (x : View K). x.items) same in
        let same_count : n'.count ≡ n.count =
          omega (arith, length-items n, length-items n', ap length same_items) in
        let same_size : size n' ≡ size n =
          size-capacity n'
          ∙ ap (λ (x : View K). capacity x.key_size x.val_size) same
          ∙ sym (size-capacity n) in
        let inside' : i ≤ n'.count = omega arith in
        let room' : n'.count < size n' = omega arith in
        let parts = same_items ∙ e in
        let new : items (inserted n' key v i) ≡ insert_sorted cmp key v (items n) =
          items-inserted n' key v i inside' room'
          ∙ ap₂ (λ xs ys. xs ++ (new_slot key v ∷ ys))
              (ap (take i) parts ∙ take-append pre post i long)
              (ap (drop i) parts ∙ drop-append pre post i long)
          ∙ sym (sorted v) in
        let view_lem : view (inserted n' key v i)
            ≡ record (view n') { items = insert_sorted cmp key v (items n) } =
          unfold inserted in ap (λ xs. let r : View K = record (view n') { items = xs } in r) new in
        taken_lem t₁ n' (inserted n' key v i) v grows more means same view_lem (
          added_run blank blank_data cmp t t₁ cur n n' (inserted n' key v i) key value
            (length value) v fresh stored on (insert_at-eq-some n' key v i inside' room'))

    -- a removed item with the key
    revived_lem :
        (pre : List (Slot K)) (s : Slot K) (post : List (Slot K))
        → items n ≡ pre ++ (s ∷ post)
        → lub cmp n key ≡ length pre
        → has_key blank blank_data cmp n key (lub cmp n key) ≡ true
        → Node.removed n (lub cmp n key) ≡ true
        → ((v : Value)
            → insert_sorted cmp key v (items n)
              ≡ pre ++ (record { key = s.key; flag = 1; value = v } ∷ post))
        → LeafTaken t cur n key value
    revived_lem pre s post e long found gone sorted =
        let i = lub cmp n key in
        let (at_i, inside) = kv_at n i pre s post e long in
        let (v, t₁, stored, means, grows, more) =
          stored_value-Means blank blank_data cmp t n.val_size _ value fits
            (value_block-Source blank blank_data cmp t n i
              (All-items (HasPlace K t) n i places inside))
            holds small short in
        let (n', on, used', same, _) = node_at_view t₁ cur (view n) (grows.keep cur _ here refl) in
        let n'' = Node.set n' i none (some v) 1 in
        let new : items n'' ≡ insert_sorted cmp key v (items n) =
          items-set n' i none (some v) 1 pre s post (ap (λ (x : View K). x.items) same ∙ e) long
          ∙ sym (sorted v) in
        let view_lem : view n'' ≡ record (view n') { items = insert_sorted cmp key v (items n) } =
          unfold Node.set in ap (λ xs. let r : View K = record (view n') { items = xs } in r) new in
        taken_lem t₁ n' n'' v grows more means same view_lem (
          revived_run blank blank_data cmp t t₁ cur n n' key value (length value) v found gone
            stored on)

    at_lub :
        (pre post : List (Slot K))
        → items n ≡ pre ++ post
        → Below cmp key pre
        → NotBelow cmp key post
        → lub cmp n key ≡ length pre
        → (is_live cmp key (items n) ≡ true
            → insert_leaf blank blank_data cmp t cur n key value (length value)
              ≡ some (duplicate, t))
          × (is_live cmp key (items n) ≡ false → LeafTaken t cur n key value)
    at_lub pre [] e below above long =
        let dead : is_live cmp key (items n) ≡ false =
          ap (is_live cmp key) e ∙ is_live-Below cmp key pre [] below in
        let last : lub cmp n key ≡ n.count =
          omega (arith, length-append pre [], ap length e, length-items n) in
        (
          λ live. let z = sym live ∙ dead in cc,
          λ d.
              added_lem pre [] e long (has_key-end blank blank_data cmp n key _ last)
                (λ v. ap (insert_sorted cmp key v) e ∙ insert_sorted-Below cmp key v pre [] below),
        )
    at_lub pre (s ∷ post) e below (above, rest) long =
        let (found, gone) =
          has_key-slot blank blank_data cmp n key (lub cmp n key) pre s post e long in
        let live : is_live cmp key (items n) ≡ (same cmp s.key key && not (s.flag == 0)) =
          ap (is_live cmp key) e ∙ is_live-Below cmp key pre (s ∷ post) below ∙ rw above refl in
        let sorted : (v : Value)
            → insert_sorted cmp key v (items n) ≡ pre ++ insert_sorted cmp key v (s ∷ post) =
          (λ v.
            ap (insert_sorted cmp key v) e ∙ insert_sorted-Below cmp key v pre (s ∷ post) below) in
        elim (Bool-cases (same cmp s.key key)) [
          | inl q ↦ elim (Bool-cases (s.flag == 0)) [
            | inl z ↦
                let dead : is_live cmp key (items n) ≡ false = live ∙ rw (q, z) refl in
                (
                  λ l. let w = sym l ∙ dead in cc,
                  λ d.
                      revived_lem pre s post e long (found ∙ q) (gone ∙ z)
                        (λ v. sorted v ∙ rw (above, q) refl),
                )
            | inr z ↦
                let alive : is_live cmp key (items n) ≡ true = live ∙ rw (q, z) refl in
                (
                  λ l.
                      duplicate_run blank blank_data cmp t cur n key value (length value)
                        (found ∙ q) (gone ∙ z),
                  λ d. let w = sym alive ∙ d in cc,
                )
          ]
          | inr q ↦
              let dead : is_live cmp key (items n) ≡ false = live ∙ rw q refl in
              (
                λ l. let w = sym l ∙ dead in cc,
                λ d.
                    added_lem pre (s ∷ post) e long (found ∙ q)
                      (λ v. sorted v ∙ rw (above, q) refl),
              )
        ]

    pub insert_leaf-lem :
        (is_live cmp key (items n) ≡ true
          → insert_leaf blank blank_data cmp t cur n key value (length value) ≡ some (duplicate, t))
        × (is_live cmp key (items n) ≡ false → LeafTaken t cur n key value)
    insert_leaf-lem =
        let i = lub cmp n key in
        let (inside, below, above) = lub_parts cmp order n key ascends in
        at_lub (take i (items n)) (drop i (items n)) (sym (take-append-drop i (items n))) below
          above (omega (arith, length-take i (items n), length-items n))
