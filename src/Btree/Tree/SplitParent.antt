-- ===== src/Btree/Tree/SplitParent.antt =====
-- The split of a child by `insert`: what it makes of the parent.
use example_engine.Prelude.{
  ℕ, ◌+◌, ◌/◌, ◌^◌, ◌≤◌, ◌<◌, ◌≡◌, refl, sym, ap, ap₂, ◌∙◌, subst, false, none, some, List, ◌∷◌,
  ◌++◌, length, take, drop, take-append, drop-append, arith, ◌==◌, length-append,
}
use example_engine.Block.Data.{DataBlock}
use example_engine.Btree.Order.{Compare, IsOrder}
use example_engine.Btree.Node
use example_engine.Btree.Node.{
  Value, child, Slot, NodeBlock, node_size, size, lub, max_key, insert_at, inserted,
}
use example_engine.Btree.Node.Items.{items, items-inserted, insert_at-eq-some, length-items}
use example_engine.Btree.Node.Sorted.{Ascends-rekeyed, Below, NotBelow, Ascends, last_key}
use example_engine.Btree.Node.Slots.{items-set, max_key-last, lub_at}
use example_engine.Btree.Tree.{node, BTree, write}
use example_engine.Btree.Tree.Insert.{split_son}
use example_engine.Btree.Tree.View.{
  View, view, view_at, AllLead, Leads, Grows, Grows-trans, node_at_view, view_at-used,
  view_at-write_self, view_at-write_other, write-Grows,
}
use example_engine.Btree.Tree.SplitSon.{
  capacity, size-capacity, one_at, left_of, right_of, parted, split_run, halves-Grows,
}

module _ {K : Type 0} (blank : NodeBlock K) (blank_data : DataBlock) (cmp : Compare K)
    (order : IsOrder cmp) where
  -- The node of the parent with the slot that leads to the upper half, and one in front of it.
  parent_lem :
      (n : NodeBlock K) (index next son : ℕ) (key : K) (pre : List (Slot K)) (slot : Slot K)
      (post : List (Slot K))
      → items n ≡ pre ++ (slot ∷ post)
      → index ≡ length pre
      → Ascends cmp (pre ++ (slot ∷ post))
      → Below cmp key pre
      → NotBelow cmp key (slot ∷ post)
      → n.count < size n
      → (n' : NodeBlock K) × (Node.insert cmp
            (Node.set n index none (some (child next)) 1)
            key
            (child son)
          ≡ some n')
        × (view n' ≡ record (view n) { items = parted pre key son slot next post })
  parent_lem n index next son key pre slot post e h asc b nb room =
      let m = Node.set n index none (some (child next)) 1 in
      let slot' = (let r : Slot K = record { key = slot.key; flag = 1; value = child next } in r) in
      let e' : items m ≡ pre ++ (slot' ∷ post) =
        items-set n index none (some (child next)) 1 pre slot post e h in
      let asc' : Ascends cmp (items m) =
        subst (Ascends cmp) (sym e') (Ascends-rekeyed cmp pre slot slot' post refl asc) in
      let i = lub cmp m key in
      let at : i ≡ length pre = lub_at cmp order m key asc' pre (slot' ∷ post) e' b nb in
      let same : (m.count ≡ n.count) × (size m ≡ size n) =
        unfold Node.set size Node.size_of_item in (refl, refl) in
      let fits : i ≤ m.count =
        omega (arith, at, length-append pre (slot' ∷ post), ap length e', length-items m) in
      let room' : m.count < size m = omega (arith, same, room) in
      let run : Node.insert cmp m key (child son) ≡ some (inserted m key (child son) i) =
        unfold Node.insert in insert_at-eq-some m key (child son) i fits room' in
      let new : items (inserted m key (child son) i) ≡ parted pre key son slot next post =
        items-inserted m key (child son) i fits room'
        ∙ ap₂ (λ xs ys. xs ++ (record { key = key; flag = 1; value = child son } ∷ ys))
            (ap (take i) e' ∙ take-append pre (slot' ∷ post) i at)
            (ap (drop i) e' ∙ drop-append pre (slot' ∷ post) i at) in
      (
        inserted m key (child son) i,
        run,
        unfold inserted Node.set in
            ap (λ xs. let v : View K = record (view n) { items = xs } in v) new,
      )

  -- The split of the child at `son`: the child keeps the first half of its items, rounded up, the
  -- rest goes to the new block behind it, and the parent's slot becomes two.
  pub split_son-Grows :
      (t : BTree K) (cur index son : ℕ) (c s : View K) (l r : List (Slot K)) (key : K)
      (pre : List (Slot K)) (slot : Slot K) (post : List (Slot K))
      → view_at t cur ≡ some c
      → view_at t son ≡ some s
      → (son == cur) ≡ false
      → AllLead t
      → t.meta.count_of_block + 1 < 2 ^ 32
      → s.items ≡ l ++ r
      → length l ≡ (length s.items + 1) / 2
      → last_key l ≡ some key
      → s.index ≡ son
      → c.items ≡ pre ++ (slot ∷ post)
      → index ≡ length pre
      → Ascends cmp (pre ++ (slot ∷ post))
      → Below cmp key pre
      → NotBelow cmp key (slot ∷ post)
      → length c.items < capacity c.key_size c.val_size
      → let next = t.meta.count_of_block in
        (t' : BTree K) × (split_son blank blank_data cmp t cur index son ≡ some t')
        × (view_at t' son ≡ some (record s { next = next; items = l }))
        × (view_at t' next ≡ some (record s { index = next; items = r }))
        × (view_at t' cur ≡ some (record c { items = parted pre key son slot next post }))
        × Grows (λ j. one_at son j + one_at cur j) t t'
        × (t'.meta.count_of_block ≡ next + 1)
  split_son-Grows t cur index son c s l r key pre slot post at_cur at_son apart lead small halves
        long last self parts at asc b nb room =
      let next = t.meta.count_of_block in
      let (s₀, fresh, t₂, on_son, at_next, on_fresh, linked, same_son, left, written) =
        halves-Grows blank blank_data cmp t son s l r at_son lead small halves long in
      let (son₄, next₄, grows, count) = written in
      let l₀ = left_of s₀ fresh next in
      let t₄ = write (write t₂ next (node (right_of s₀ fresh))) son (node l₀) in
      let cur₄ = grows.keep cur c at_cur (ground (arith, apart)) in
      let (n, on_cur, used_cur, same_cur, _) = node_at_view t₄ cur c cur₄ in
      let key_lem : max_key l₀ ≡ key =
        max_key-last l₀ key (ap (λ (x : View K). last_key x.items) left ∙ last) in
      let son_lem : s₀.header.index ≡ son = ap (λ (x : View K). x.index) same_son ∙ self in
      let (n', ins, view_lem) =
        parent_lem n index next son key pre slot post
          (ap (λ (x : View K). x.items) same_cur ∙ parts) at asc b nb
          (omega (
            arith,
            size-capacity n,
            length-items n,
            ap (λ (x : View K). capacity x.key_size x.val_size) same_cur,
            ap (λ (x : View K). length x.items) same_cur,
            room,
          )) in
      let used_son = view_at-used t son s at_son in
      let t' = write t₄ cur (node n') in
      let lead_n : Leads t₄ n'.header.next =
        subst (Leads t₄)
          (sym (ap (λ (x : View K). x.next) view_lem ∙ ap (λ (x : View K). x.next) same_cur))
          (grows.all_lead lead cur c cur₄) in
      (
        t',
        split_run blank blank_data cmp t t₂ cur index son next son key s₀ fresh n n' on_son at_next
            on_fresh linked on_cur key_lem son_lem ins,
        view_at-write_other t₄ cur n' used_cur son apart ∙ son₄,
        view_at-write_other t₄ cur n' used_cur next (ground (arith, view_at-used t cur c at_cur))
            ∙ next₄,
        view_at-write_self t₄ cur n' used_cur
            ∙ ap some (
                view_lem
                ∙ ap
                    (λ (x : View K).
                      let v : View K = record x { items = parted pre key son slot next post } in v)
                    same_cur),
        Grows-trans _ _ _ t t₄ t' (λ i q z. (omega (arith, z), omega (arith, z))) grows
            (write-Grows t₄ cur n' used_cur c cur₄ lead_n),
        count,
      )
