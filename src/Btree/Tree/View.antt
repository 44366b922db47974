-- ===== src/Btree/Tree/View.antt =====
-- What the operations on a tree see of a node: its header but for `last`, and its items. Each write,
-- allocation and link of the tree changes the views of the blocks it names and no others.
use example_engine.Prelude.{
  ℕ, ◌≤◌, ◌<◌, ◌≡◌, ◌≢◌, ◌⊎◌, inl, inr, refl, sym, ap, ◌∙◌, subst, true, false, Option, none, some,
  List, arith, ltb, ◌==◌, if◌then◌else◌, Bool-cases, lt→ltb, ltb→lt,
}
use example_engine.Block.Header.{BlockType}
use example_engine.Block.Data.{DataBlock}
use example_engine.Btree.Node.{Slot, NodeBlock}
use example_engine.Btree.Node.Items.{items}
use example_engine.Btree.Tree.{Block, node, values, unused, BTree, write, as_node, get_node_block}
use example_engine.Btree.Tree.Values.{
  Holds, DataKept, settings, write_self, write_other, node≢values,
}

pub record View (K : Type 0) : Type 0 where
  pub type : BlockType
  pub index : ℕ
  pub next : ℕ
  pub key_size : ℕ
  pub val_size : ℕ
  pub items : List (Slot K)

module _ {K : Type 0} where
  abbrev pub view : NodeBlock K → View K
  view n = record {
    type = n.header.type;
    index = n.header.index;
    next = n.header.next;
    key_size = n.key_size;
    val_size = n.val_size;
    items = items n;
  }

  abbrev view_of : Option (NodeBlock K) → Option (View K)
  view_of none = none
  view_of (some n) = some (view n)

  -- the view of a node in use
  unfoldable pub view_at : BTree K → ℕ → Option (View K)
  unfolding get_node_block
  view_at t i = view_of (get_node_block t i)

  -- The `next` of a node is 0 or leads to a node.
  abbrev pub Leads : BTree K → ℕ → Type 0
  Leads t i = (i ≡ 0) ⊎ ((w : View K) × (view_at t i ≡ some w))

  abbrev pub AllLead : BTree K → Type 0
  AllLead t = (i : ℕ) (v : View K) → view_at t i ≡ some v → Leads t v.next

  -- `t'` comes of `t` by operations on the blocks that `owned` counts and on new ones.
  pub record Grows (owned : ℕ → ℕ) (t t' : BTree K) : Type 0 where
    pub settings_same : settings t' ≡ settings t
    pub count : t.meta.count_of_block ≤ t'.meta.count_of_block
    pub keep : (i : ℕ) (v : View K) → view_at t i ≡ some v → owned i ≡ 0 → view_at t' i ≡ some v
    pub all_lead : AllLead t → AllLead t'
    pub holds : Holds t → Holds t'
    pub data_ : DataKept t t'

  pub DataKept-refl : (t : BTree K) → DataKept t t
  DataKept-refl t j b h e = (b, e, λ p off n g. (g, refl))

  pub DataKept-trans :
      (t t₁ t' : BTree K)
      → t.meta.count_of_block ≤ t₁.meta.count_of_block
      → DataKept t t₁
      → DataKept t₁ t'
      → DataKept t t'
  DataKept-trans t t₁ t' more k k' j b h q =
      let (b₁, at₁, same₁) = k j b h q in
      let (b', at, same) = k' j b₁ (omega arith) at₁ in
      (
        b',
        at,
        λ p off n g.
            let (g₁, r₁) = same₁ p off n g in let (g', r) = same p off n g₁ in (g', r ∙ r₁),
      )

  pub Grows-refl : (o : ℕ → ℕ) (t : BTree K) → Grows o t t
  Grows-refl o t = record {
    settings_same = refl;
    count = omega arith;
    keep = λ i v e z. e;
    all_lead = λ h. h;
    holds = λ h. h;
    data_ = DataKept-refl t;
  }

  -- A node in use has a view, and what has a view is a node in use.
  pub view_at-node :
      (t : BTree K) (i : ℕ) (n : NodeBlock K)
      → i < t.meta.count_of_block
      → t.blocks i ≡ node n
      → (view_at t i ≡ some (view n)) × (get_node_block t i ≡ some n)
  unfolding view_at get_node_block
  view_at-node t i n used e =
      let f = lt→ltb i t.meta.count_of_block used in (rw (f, e) refl, rw (f, e) refl)

  seen :
      (b : Block K) (v : View K)
      → view_of (as_node b) ≡ some v
      → (n : NodeBlock K) × (b ≡ node n) × (view n ≡ v)
  seen (node n) v e = let q : view n ≡ v = cc in (n, refl, q)
  seen (values d) v e = cc
  seen unused v e = cc

  outside :
      (t : BTree K) (i : ℕ) (v : View K) → ltb i t.meta.count_of_block ≡ false → view_at t i ≡ none
  unfolding view_at get_node_block
  outside t i v f = rw f refl

  inside :
      (t : BTree K) (i : ℕ)
      → ltb i t.meta.count_of_block ≡ true
      → view_at t i ≡ view_of (as_node (t.blocks i))
  unfolding view_at get_node_block
  inside t i f = rw f refl

  pub node_at_view :
      (t : BTree K) (i : ℕ) (v : View K)
      → view_at t i ≡ some v
      → (n : NodeBlock K) × (t.blocks i ≡ node n)
        × (i < t.meta.count_of_block)
        × (view n ≡ v)
        × (get_node_block t i ≡ some n)
  node_at_view t i v e = elim (Bool-cases (ltb i t.meta.count_of_block)) [
    | inr f ↦ let z = sym (outside t i v f) ∙ e in cc
    | inl f ↦
        let (n, at, same) = seen (t.blocks i) v (sym (inside t i f) ∙ e) in
        let used = ltb→lt i t.meta.count_of_block f in
        (n, at, used, same, (view_at-node t i n used at).1)
  ]

  pub view_at-used :
      (t : BTree K) (i : ℕ) (v : View K) → view_at t i ≡ some v → i < t.meta.count_of_block
  view_at-used t i v e = (node_at_view t i v e).2

  pub Grows-trans :
      (o₁ o₂ o : ℕ → ℕ) (t t₁ t₂ : BTree K)
      → ((i : ℕ) → i < t.meta.count_of_block → o i ≡ 0 → (o₁ i ≡ 0) × (o₂ i ≡ 0))
      → Grows o₁ t t₁
      → Grows o₂ t₁ t₂
      → Grows o t t₂
  Grows-trans o₁ o₂ o t t₁ t₂ h g g' = record {
    settings_same = g'.settings_same ∙ g.settings_same;
    count = omega (arith, g.count, g'.count);
    keep = λ i v e z. let (a, b) = h i (view_at-used t i v e) z in g'.keep i v (g.keep i v e a) b;
    all_lead = λ a. g'.all_lead (g.all_lead a);
    holds = λ a. g'.holds (g.holds a);
    data_ = DataKept-trans t t₁ t₂ g.count g.data_ g'.data_;
  }

  module _ (t : BTree K) (i : ℕ) (n : NodeBlock K) (used : i < t.meta.count_of_block) where
    pub view_at-write_self : view_at (write t i (node n)) i ≡ some (view n)
    unfolding view_at get_node_block
    view_at-write_self =
        let e : (i == i) ≡ true = ground arith in rw (lt→ltb i t.meta.count_of_block used, e) refl

    pub view_at-write_other :
        (j : ℕ) → (j == i) ≡ false → view_at (write t i (node n)) j ≡ view_at t j
    unfolding view_at get_node_block
    view_at-write_other j e = rw e refl

    -- a block written with a node whose `next` leads on
    pub write-Grows :
        (w : View K)
        → view_at t i ≡ some w
        → Leads t n.header.next
        → Grows (λ j. if j == i then 1 else 0) t (write t i (node n))
    write-Grows w before lead =
        let t' = write t i (node n) in
        let (m, on, _, _, _) = node_at_view t i w before in
        let at : t'.blocks i ≡ node n = write_self t i (node n) in
        let old : (j : ℕ) (b : DataBlock) → t.blocks j ≡ values b → t'.blocks j ≡ values b =
          (λ j b e.
            write_other t i j (node n)
              (λ f. node≢values (t.blocks i) m b on (ap t.blocks (sym f) ∙ e))
            ∙ e) in
        let leads : (j : ℕ) → Leads t j → Leads t' j = (λ j h. elim h [
          | inl z ↦ inl z
          | inr (w, e) ↦ elim (Bool-cases (j == i)) [
            | inl q ↦
                let f : j ≡ i = ground (arith, q) in
                inr (view n, ap (view_at t') f ∙ view_at-write_self)
            | inr q ↦ inr (w, view_at-write_other j q ∙ e)
          ]
        ]) in
        record {
          settings_same = refl;
          count = omega arith;
          keep = λ j v e z. view_at-write_other j (ground (arith, z)) ∙ e;
          all_lead = λ a j v e. elim (Bool-cases (j == i)) [
            | inl q ↦
                let f : j ≡ i = ground (arith, q) in
                let s : some (view n) ≡ some v =
                  sym view_at-write_self ∙ ap (view_at t') (sym f) ∙ e in
                let same : n.header.next ≡ v.next =
                  (let q : view n ≡ v = cc in ap (λ (x : View K). x.next) q) in
                leads v.next (subst (Leads t) same lead)
            | inr q ↦ leads v.next (a j v (sym (view_at-write_other j q) ∙ e))
          ];
          holds = λ a j b h e.
              let other : j ≢ i =
                (λ f. node≢values (t'.blocks i) n b at (ap t'.blocks (sym f) ∙ e)) in
              a j b h (sym (write_other t i j (node n) other) ∙ e);
          data_ = λ j b h e. (b, old j b e, λ p off k g. (g, refl));
        }
