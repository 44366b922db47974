-- ===== src/Btree/Tree/Descent.antt =====
-- `insert` down the tree: by the height, a value is taken exactly if no live item has its key.
use example_engine.Prelude.{
  ℕ, suc, ◌<◌, ◌≡◌, refl, sym, ap, ap₂, ◌∙◌, subst, Bool, true, false, none, some, List, ◌∷◌, ◌++◌,
  length, ◌==◌, if◌then◌else◌,
}
use example_engine.Block.Data.{DataBlock}
use example_engine.Btree.Order.{Compare}
use example_engine.Btree.Node
use example_engine.Btree.Node.{Value, child, Slot, NodeBlock, lub, max_key, size}
use example_engine.Btree.Node.Items.{items}
use example_engine.Btree.Node.Sorted.{last_key}
use example_engine.Btree.Node.Slots.{items-set, max_key-last}
use example_engine.Btree.Tree.{node, BTree, write, get_node_block, get_child}
use example_engine.Btree.Tree.Insert.{
  inserted, duplicate, child_index, insert_leaf, split_son, after_son, insert,
}
use example_engine.Btree.Tree.View.{
  View, view, view_at, AllLead, Leads, Grows, Grows-refl, view_at-node, view_at-write_self,
  write-Grows,
}
use example_engine.Btree.Tree.SplitSon.{one_at}

-- the tree with the greatest key of the child in its parent
abbrev pub marked : {K : Type 0} → BTree K → ℕ → ℕ → NodeBlock K → NodeBlock K → Bool → BTree K
marked t cur index s n flag =
    if flag then write t cur (node (Node.set n index (some (max_key s)) none 1)) else t

module _ {K : Type 0} (blank : NodeBlock K) (blank_data : DataBlock) (cmp : Compare K) where
  pub leaf_run :
      (fuel : ℕ) (t : BTree K) (cur : ℕ) (n : NodeBlock K) (key : K) (value : List ℕ) (size : ℕ)
      → t.blocks cur ≡ node n
      → Node.leaf n ≡ true
      → insert blank blank_data cmp (suc fuel) t key value size cur
        ≡ insert_leaf blank blank_data cmp t cur n key value size
  unfolding insert
  leaf_run fuel t cur n key value size at is_leaf = rw (at, is_leaf) refl

  module _ (fuel : ℕ) (t t₁ : BTree K) (cur son : ℕ) (n s : NodeBlock K) (key : K) (value : List ℕ)
      (size : ℕ) (at : t.blocks cur ≡ node n) (inner : Node.leaf n ≡ false)
      (down : get_child n (child_index n (lub cmp n key)) ≡ some son)
      (got : get_node_block t son ≡ some s) where
    pub duplicate_run :
        insert blank blank_data cmp fuel t key value size son ≡ some (duplicate, t₁)
        → insert blank blank_data cmp (suc fuel) t key value size cur ≡ some (duplicate, t₁)
    unfolding insert
    duplicate_run e = rw (at, inner, down, got, e) refl

    pub inserted_run :
        insert blank blank_data cmp fuel t key value size son ≡ some (inserted, t₁)
        → insert blank blank_data cmp (suc fuel) t key value size cur
          ≡ after_son blank blank_data cmp t₁ cur
              (child_index n (lub cmp n key))
              son
              (lub cmp n key == n.count)
    unfolding insert
    inserted_run e = rw (at, inner, down, got, e) refl

  module _ (t : BTree K) (cur index son : ℕ) (s n : NodeBlock K) (flag : Bool)
      (on_son : t.blocks son ≡ node s) (on_cur : t.blocks cur ≡ node n) where
    pub roomy_run :
        Node.full s ≡ false
        → after_son blank blank_data cmp t cur index son flag
          ≡ some (inserted, marked t cur index s n flag)
    unfolding after_son
    roomy_run e = rw (on_son, on_cur, e) refl

    pub full_run :
        (t' : BTree K)
        → Node.full s ≡ true
        → split_son blank blank_data cmp (marked t cur index s n flag) cur index son ≡ some t'
        → after_son blank blank_data cmp t cur index son flag ≡ some (inserted, t')
    unfolding after_son
    full_run t' e f = rw (on_son, on_cur, e, f) refl

  -- the key of a child is the greatest below it, also after one above all was inserted
  pub marked-Grows :
      (t : BTree K) (cur index : ℕ) (s n : NodeBlock K) (flag : Bool) (k : K) (pre : List (Slot K))
      (slot : Slot K) (post : List (Slot K))
      → t.blocks cur ≡ node n
      → cur < t.meta.count_of_block
      → AllLead t
      → items n ≡ pre ++ (slot ∷ post)
      → index ≡ length pre
      → slot.flag ≡ 1
      → last_key (items s) ≡ some k
      → (flag ≡ false → k ≡ slot.key)
      → let t' = marked t cur index s n flag in
        (view_at t' cur
          ≡ some (record (view n) {
            items = pre ++ (record { key = k; flag = 1; value = slot.value } ∷ post);
          }))
        × Grows (one_at cur) t t'
        × (t'.meta.count_of_block ≡ t.meta.count_of_block)
  marked-Grows t cur index s n false k pre slot post at used lead e h live last same =
      let same_slot : slot ≡ record { key = k; flag = 1; value = slot.value } =
        ap₂ (λ a f. let r : Slot K = record { key = a; flag = f; value = slot.value } in r)
          (sym (same refl)) live in
      (
        (view_at-node t cur n used at).0
            ∙ ap (λ xs. let v : View K = record (view n) { items = xs } in some v)
                (e ∙ ap (λ r. pre ++ (r ∷ post)) same_slot),
        Grows-refl _ t,
        refl,
      )
  marked-Grows t cur index s n true k pre slot post at used lead e h live last same =
      let n' = Node.set n index (some (max_key s)) none 1 in
      let new : items n' ≡ pre ++ (record { key = k; flag = 1; value = slot.value } ∷ post) =
        items-set n index (some (max_key s)) none 1 pre slot post e h
        ∙ ap (λ a. pre ++ (record { key = a; flag = 1; value = slot.value } ∷ post))
            (max_key-last s k last) in
      let before = (view_at-node t cur n used at).0 in
      let view_lem : view n' ≡ record (view n) {
        items = pre ++ (record { key = k; flag = 1; value = slot.value } ∷ post);
      } =
        unfold Node.set in ap (λ xs. let v : View K = record (view n) { items = xs } in v) new in
      (
        view_at-write_self t cur n' used ∙ ap some view_lem,
        write-Grows t cur n' used (view n) before (
            subst (Leads t) (sym (ap (λ (x : View K). x.next) view_lem))
              (lead cur (view n) before)),
        refl,
      )
