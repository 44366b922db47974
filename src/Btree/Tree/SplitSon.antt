-- ===== src/Btree/Tree/SplitSon.antt =====
-- The split of a child by `insert`: what it makes of the views of the child, the new block and their
-- parent.
use example_engine.Prelude.{
  ℕ, ◌+◌, ◌-◌, ◌/◌, ◌^◌, ◌<◌, ◌≡◌, inr, refl, sym, ap, ap₂, ◌∙◌, subst, false, none, some, List, [],
  ◌∷◌, ◌++◌, length, take, drop, take-append, drop-append, arith, ◌==◌, if◌then◌else◌,
}
use example_engine.Block.Header.{u16, block_size}
use example_engine.Block.Data.{DataBlock}
use example_engine.Btree.Order.{Compare}
use example_engine.Btree.Node
use example_engine.Btree.Node.{
  Value, child, Slot, NodeBlock, node_size, size, lub, max_key, insert_at, inserted,
}
use example_engine.Btree.Node.Items.{items, items-split, length-items, lower, upper}
use example_engine.Btree.Tree.{node, BTree, write, get_free_node_block}
use example_engine.Btree.Tree.Insert.{relink, split_son}
use example_engine.Btree.Tree.View.{
  View, view, view_at, AllLead, Leads, Grows, Grows-trans, node_at_view, view_at-write_self,
  view_at-write_other, write-Grows,
}
use example_engine.Btree.Tree.Fresh.{free_node-Grows, relink-Grows}

-- how many items a node has room for
unfoldable pub capacity : ℕ → ℕ → ℕ
capacity key_size val_size = (block_size - node_size) / u16 (key_size + val_size + 1)

pub size-capacity : {K : Type 0} (n : NodeBlock K) → size n ≡ capacity n.key_size n.val_size
unfolding capacity size Node.size_of_item
size-capacity n = refl

abbrev pub one_at : ℕ → ℕ → ℕ
one_at i j = if j == i then 1 else 0

module _ {K : Type 0} where
  -- the two nodes of a split, with their links
  abbrev pub left_of : NodeBlock K → NodeBlock K → ℕ → NodeBlock K
  left_of s fresh next =
      let l = lower s fresh in record l { header = record l.header { next = next } }

  abbrev pub right_of : NodeBlock K → NodeBlock K → NodeBlock K
  right_of s fresh =
      let r = upper s fresh in
      record r { header = record r.header { next = s.header.next; last = s.header.index } }

  pub halves_lem :
      (s fresh : NodeBlock K) (next : ℕ) (l r : List (Slot K))
      → items s ≡ l ++ r
      → length l ≡ (s.count + 1) / 2
      → (items (left_of s fresh next) ≡ l) × (items (right_of s fresh) ≡ r)
  halves_lem s fresh next l r e h =
      let (parts, cl, cr) = items-split s fresh in
      let k : length l ≡ length (items (lower s fresh)) =
        omega (arith, h, cl, length-items (lower s fresh)) in
      let both : l ++ r ≡ items (lower s fresh) ++ items (upper s fresh) = sym e ∙ parts in
      let left : items (lower s fresh) ≡ l =
        sym (take-append _ _ _ k) ∙ ap (take (length l)) (sym both) ∙ take-append l r _ refl in
      let right : items (upper s fresh) ≡ r =
        sym (drop-append _ _ _ k) ∙ ap (drop (length l)) (sym both) ∙ drop-append l r _ refl in
      (
        (let x : items (left_of s fresh next) ≡ items (lower s fresh) = unfold items in refl in
            x ∙ left),
        (let x : items (right_of s fresh) ≡ items (upper s fresh) = unfold items in refl in
            x ∙ right),
      )

  pub left-view :
      (s fresh : NodeBlock K) (next : ℕ) (l r : List (Slot K))
      → items s ≡ l ++ r
      → length l ≡ (s.count + 1) / 2
      → view (left_of s fresh next) ≡ record (view s) { next = next; items = l }
  unfolding Node.split
  left-view s fresh next l r e h =
      ap (λ xs. let v : View K = record (view s) { next = next; items = xs } in v)
        (halves_lem s fresh next l r e h).0

  pub right-view :
      (s fresh : NodeBlock K) (next : ℕ) (l r : List (Slot K))
      → items s ≡ l ++ r
      → length l ≡ (s.count + 1) / 2
      → view fresh ≡ record {
        type = s.header.type;
        index = next;
        next = 0;
        key_size = s.key_size;
        val_size = s.val_size;
        items = [];
      }
      → view (right_of s fresh) ≡ record (view s) { index = next; items = r }
  unfolding Node.split
  right-view s fresh next l r e h f =
      ap
        (λ (x : View K).
          let v : View K = record x { next = s.header.next; items = items (right_of s fresh) } in v)
        f
      ∙ ap (λ xs. let v : View K = record (view s) { index = next; items = xs } in v)
          (halves_lem s fresh next l r e h).1

  -- the parent of a split child
  abbrev pub parted : List (Slot K) → K → ℕ → Slot K → ℕ → List (Slot K) → List (Slot K)
  parted pre key son slot next post =
      pre
      ++ (record { key = key; flag = 1; value = child son }
          ∷ record { key = slot.key; flag = 1; value = child next }
          ∷ post)

module _ {K : Type 0} (blank : NodeBlock K) (blank_data : DataBlock) (cmp : Compare K) where
  -- the block of the new node, and the tree with it
  abbrev pub new_node : BTree K → NodeBlock K → ℕ × BTree K
  new_node t s = get_free_node_block blank t s.header.type s.key_size s.val_size

  pub split_run :
      (t t₂ : BTree K) (cur index son next i : ℕ) (key : K) (s fresh n n' : NodeBlock K)
      → t.blocks son ≡ node s
      → (new_node t s).0 ≡ next
      → (new_node t s).1.blocks next ≡ node fresh
      → relink blank blank_data cmp (new_node t s).1 s.header.next next ≡ some t₂
      → (write (write t₂ next (node (right_of s fresh))) son (node (left_of s fresh next))).blocks
          cur
        ≡ node n
      → max_key (left_of s fresh next) ≡ key
      → s.header.index ≡ i
      → Node.insert cmp (Node.set n index none (some (child next)) 1) key (child i) ≡ some n'
      → split_son blank blank_data cmp t cur index son
        ≡ some (
            write
              (write (write t₂ next (node (right_of s fresh))) son (node (left_of s fresh next)))
              cur
              (node n'))
  unfolding split_son
  split_run t t₂ cur index son next i key s fresh n n' e j f re at k self ins =
      rw
        (
          e,
          j,
          f,
          re,
          at,
          ap₂ (λ a b. Node.insert cmp (Node.set n index none (some (child next)) 1) a (child b)) k
              self,
          ins,
        )
        refl

  -- the child and the new block with their halves, before the parent is written
  pub halves-Grows :
      (t : BTree K) (son : ℕ) (s : View K) (l r : List (Slot K))
      → view_at t son ≡ some s
      → AllLead t
      → t.meta.count_of_block + 1 < 2 ^ 32
      → s.items ≡ l ++ r
      → length l ≡ (length s.items + 1) / 2
      → let next = t.meta.count_of_block in
        (s₀ : NodeBlock K) × (fresh : NodeBlock K) × (t₂ : BTree K) × (t.blocks son ≡ node s₀)
        × ((new_node t s₀).0 ≡ next)
        × ((new_node t s₀).1.blocks next ≡ node fresh)
        × (relink blank blank_data cmp (new_node t s₀).1 s₀.header.next next ≡ some t₂)
        × (view s₀ ≡ s)
        × (view (left_of s₀ fresh next) ≡ record s { next = next; items = l })
        × (let t₄ =
              write (write t₂ next (node (right_of s₀ fresh))) son (node (left_of s₀ fresh next)) in
            (view_at t₄ son ≡ some (record s { next = next; items = l }))
            × (view_at t₄ next ≡ some (record s { index = next; items = r }))
            × Grows (one_at son) t t₄
            × (t₄.meta.count_of_block ≡ next + 1))
  halves-Grows t son s l r at_son lead small halves long =
      let next = t.meta.count_of_block in
      let (s₀, on_son, used_son, same_son, _) = node_at_view t son s at_son in
      let (at_next, fresh_view, grows₁, count₁) =
        free_node-Grows blank t s₀.header.type s₀.key_size s₀.val_size small in
      let t₁ = (new_node t s₀).1 in
      let (fresh, on_fresh, used_fresh, same_fresh, _) = node_at_view t₁ next _ fresh_view in
      let lead_s : Leads t₁ s₀.header.next =
        subst (Leads t₁) (sym (ap (λ (x : View K). x.next) same_son))
          (grows₁.all_lead lead son s (grows₁.keep son s at_son refl)) in
      let (t₂, linked, views₂, grows₂, count₂) =
        relink-Grows blank blank_data cmp t₁ s₀.header.next next lead_s (grows₁.all_lead lead) in
      let t₃ = write t₂ next (node (right_of s₀ fresh)) in
      let t₄ = write t₃ son (node (left_of s₀ fresh next)) in
      let next≠son : (son == next) ≡ false = ground (arith, used_son) in
      let used₃ : next < t₂.meta.count_of_block = omega (arith, used_fresh, count₂) in
      let used₄ : son < t₂.meta.count_of_block = omega (arith, used_son, count₁, count₂) in
      let items_s : items s₀ ≡ l ++ r = ap (λ (x : View K). x.items) same_son ∙ halves in
      let long_s : length l ≡ (s₀.count + 1) / 2 =
        omega (arith, long, length-items s₀, ap (λ (x : View K). length x.items) same_son) in
      let right : view (right_of s₀ fresh) ≡ record s { index = next; items = r } =
        right-view s₀ fresh next l r items_s long_s same_fresh
        ∙ ap (λ (x : View K). let v : View K = record x { index = next; items = r } in v)
            same_son in
      let left : view (left_of s₀ fresh next) ≡ record s { next = next; items = l } =
        left-view s₀ fresh next l r items_s long_s
        ∙ ap (λ (x : View K). let v : View K = record x { next = next; items = l } in v) same_son in
      let l₀ = left_of s₀ fresh next in
      let r₀ = right_of s₀ fresh in
      let lead_r : Leads t₂ r₀.header.next =
        subst (Leads t₂) (sym (ap (λ (x : View K). x.next) same_son)) (
          grows₂.all_lead (grows₁.all_lead lead) son s
            (views₂ son s (grows₁.keep son s at_son refl))) in
      let self₃ = view_at-write_self t₂ next r₀ used₃ in
      let son₃ : view_at t₃ son ≡ some s =
        view_at-write_other t₂ next r₀ used₃ son next≠son
        ∙ views₂ son s (grows₁.keep son s at_son refl) in
      let self₄ = view_at-write_self t₃ son l₀ used₄ in
      (
        s₀,
        fresh,
        t₂,
        on_son,
        at_next,
        on_fresh,
        linked,
        same_son,
        left,
        (
          self₄ ∙ ap some left,
          view_at-write_other t₃ son l₀ used₄ next (ground (arith, used_son))
              ∙ self₃
              ∙ ap some right,
          Grows-trans _ _ _ t t₂ t₄ (λ i q z. (refl, ground (arith, z, q)))
              (Grows-trans _ _ (λ i. 0) t t₁ t₂ (λ i q z. (refl, refl)) grows₁ grows₂)
              (Grows-trans _ _ (λ i. one_at next i + one_at son i) t₂ t₃ t₄
                (λ i q z. (omega (arith, z), omega (arith, z)))
                (write-Grows t₂ next r₀ used₃ _ (views₂ next _ fresh_view) lead_r)
                (write-Grows t₃ son l₀ used₄ s son₃ (inr (_, self₃)))),
          omega (arith, count₁, count₂),
        ),
      )
