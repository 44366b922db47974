-- ===== src/Btree/Tree/Put.antt =====
-- `put` as an insertion into the sorted list of a tree's entries.
use native.Mathlib.Decide.{dec_lt}
use example_engine.Prelude.{
  ℕ, suc, ◌+◌, ◌^◌, ◌≤◌, ◌<◌, ◌≡◌, inl, inr, refl, sym, ap, ◌∙◌, subst, Bool, true, false, some,
  List, length, arith, ◌==◌, Bool-cases,
}
use example_engine.Block.Header.{u32}
use example_engine.Block.Data.{DataBlock}
use example_engine.Btree.Order.{Compare, IsOrder}
use example_engine.Btree.Node
use example_engine.Btree.Node.{Value, NodeBlock, Slot}
use example_engine.Btree.Node.Sorted.{Ascends, insert_sorted, insert_sorted-Ascends, is_live}
use example_engine.Btree.Tree.{node, BTree}
use example_engine.Btree.Tree.Values.{DataKept}
use example_engine.Btree.Tree.Insert.{inserted, duplicate, depth_fuel, insert, split_root, put}
use example_engine.Btree.Tree.View.{node_at_view, DataKept-trans}
use example_engine.Btree.Tree.Shape.{
  Tree, occ, Linked, root_index, entries, leaves, blocks, width, Fits, Means, room,
}
use example_engine.Btree.Tree.Frame.{Means-kept}
use example_engine.Btree.Tree.Halves.{Represents-root}
use example_engine.Btree.Tree.Taken.{Taken}
use example_engine.Btree.Tree.AfterSon.{full_lem}
use example_engine.Btree.Tree.InsertInner.{insert-Takes}
use example_engine.Btree.Tree.NewRoot.{Rooted, split_root-Valid}
use example_engine.Btree.Tree.Valid.{Valid, labelled, AllLead-labelled, Represents-labelled}

module _ {K : Type 0} (blank : NodeBlock K) (blank_data : DataBlock) (cmp : Compare K) where
  -- `meta->countOfItem++`
  abbrev counted : BTree K → BTree K
  counted t = labelled t t.meta.root (u32 (t.meta.count_of_item + 1)) t.root

  duplicate_put :
      (t t₁ : BTree K) (key : K) (value : List ℕ) (size : ℕ)
      → insert blank blank_data cmp (depth_fuel t) t key value size t.root ≡ some (duplicate, t₁)
      → put blank blank_data cmp t key value size ≡ some (duplicate, t₁)
  unfolding put
  duplicate_put t t₁ key value size e = rw e refl

  roomy_put :
      (t t₁ : BTree K) (n : NodeBlock K) (key : K) (value : List ℕ) (size : ℕ)
      → insert blank blank_data cmp (depth_fuel t) t key value size t.root ≡ some (inserted, t₁)
      → t₁.blocks t₁.root ≡ node n
      → Node.full n ≡ false
      → put blank blank_data cmp t key value size ≡ some (inserted, counted t₁)
  unfolding put
  roomy_put t t₁ n key value size e at f = rw (e, at, f) refl

  full_put :
      (t t₁ t' : BTree K) (n : NodeBlock K) (key : K) (value : List ℕ) (size : ℕ)
      → insert blank blank_data cmp (depth_fuel t) t key value size t.root ≡ some (inserted, t₁)
      → t₁.blocks t₁.root ≡ node n
      → Node.full n ≡ true
      → split_root blank blank_data cmp (counted t₁) ≡ some t'
      → put blank blank_data cmp t key value size ≡ some (inserted, t')
  unfolding put
  full_put t t₁ t' n key value size e at f s = rw (e, at, f, s) refl

  module _ (order : IsOrder cmp) (ks lv : ℕ) (wide : (h : ℕ) → 3 ≤ room ks lv h) (key : K)
      (value : List ℕ) (short : length value < 4066) (h : ℕ) (t : BTree K) (T : Tree K h)
      (valid : Valid cmp ks lv h t T) (fits : Fits K t value) where
    -- the sizes and numbers of blocks of a tree that was put into
    abbrev pub Grown : BTree K → Type 0
    Grown t' =
        (t'.is_const_value_size ≡ t.is_const_value_size)
        × (t'.leaf_value_size ≡ t.leaf_value_size)
        × (t.meta.count_of_block ≤ t'.meta.count_of_block)
        × (t'.meta.count_of_block ≤ t.meta.count_of_block + h + 3)

    -- what `put` makes of a tree that takes a value
    abbrev pub PutTakes : Type 0
    PutTakes =
        (t' : BTree K) × (v : Value) × (h' : ℕ) × (T' : Tree K h') × (put blank blank_data cmp t key
            value (length value)
          ≡ some (inserted, t'))
        × Valid cmp ks lv h' t' T'
        × (h' ≤ h + 1)
        × (entries K h' T' ≡ insert_sorted cmp key v (entries K h T))
        × Means K t' v value
        × (t'.meta.count_of_item ≡ u32 (t.meta.count_of_item + 1))
        × DataKept t t'
        × Grown t'

    -- by whether a live entry has the key
    abbrev pub PutResult : Bool → Type 0
    PutResult true = put blank blank_data cmp t key value (length value) ≡ some (duplicate, t)
    PutResult false = PutTakes

    module _ (t₁ : BTree K) (v : Value) (T₁ : Tree K h)
        (run : insert blank blank_data cmp (depth_fuel t) t key value (length value) t.root
          ≡ some (inserted, t₁))
        (taken : Taken cmp ks lv h t T key value t₁ v T₁) where
      root_kept : t₁.root ≡ t.root
      root_kept = ap (λ (s : ℕ × ℕ × ℕ × Bool × ℕ × ℕ). s.0) taken.grows.settings_same

      root₁ : root_index K h T₁ ≡ t₁.root
      root₁ = taken.root_same ∙ valid.root_is ∙ sym root_kept

      items_kept : t₁.meta.count_of_item ≡ t.meta.count_of_item
      items_kept = ap (λ (s : ℕ × ℕ × ℕ × Bool × ℕ × ℕ). s.5) taken.grows.settings_same

      keys₁ : t₁.key_size ≡ ks
      keys₁ = ap (λ (s : ℕ × ℕ × ℕ × Bool × ℕ × ℕ). s.1) taken.grows.settings_same ∙ valid.keys

      const₁ : t₁.is_const_value_size ≡ t.is_const_value_size
      const₁ = ap (λ (s : ℕ × ℕ × ℕ × Bool × ℕ × ℕ). s.3) taken.grows.settings_same

      size₁ : t₁.leaf_value_size ≡ t.leaf_value_size
      size₁ = ap (λ (s : ℕ × ℕ × ℕ × Bool × ℕ × ℕ). s.2) taken.grows.settings_same

      sizes₁ : t₁.leaf_value_size ≡ lv
      sizes₁ = ap (λ (s : ℕ × ℕ × ℕ × Bool × ℕ × ℕ). s.2) taken.grows.settings_same ∙ valid.sizes

      distinct₁ : (i : ℕ) → occ i (blocks K h T₁) ≤ 1
      distinct₁ i = elim (dec_lt i t.meta.count_of_block) [
        | yes q ↦ omega (arith, taken.old_blocks i q, valid.ready.distinct i)
        | no q ↦ taken.new_blocks i (omega arith)
      ]

      ascends₁ : Ascends cmp (entries K h T₁)
      ascends₁ =
          subst (Ascends cmp) (sym taken.entries_set)
            (insert_sorted-Ascends cmp order key v (entries K h T) valid.ready.ascends)

      linked₁ : (a : ℕ) × Linked a (leaves K h T₁) 0
      linked₁ = let (a, l) = valid.linked in (a, taken.linked a 0 l)

      roomy_lem : (width K h T₁ == room ks lv h) ≡ false → PutTakes
      roomy_lem some_room =
          let (n, on, used, same, _) =
            node_at_view t₁ (root_index K h T₁) _
              (Represents-root K ks lv h t₁ T₁ taken.represents) in
          let t' = counted t₁ in
          (
            t',
            v,
            h,
            T₁,
            roomy_put t t₁ n key value (length value) run (ap t₁.blocks (sym root₁) ∙ on)
                (full_lem ks lv h n T₁ same ∙ some_room),
            record {
              ready = record {
                represents = Represents-labelled ks lv h t₁ _ _ _ T₁ taken.represents;
                well_formed = taken.well_formed;
                ascends = ascends₁;
                distinct = distinct₁;
                roomy = ground (arith, some_room, taken.wider, valid.ready.roomy);
                lead = AllLead-labelled t₁ _ _ _ (taken.grows.all_lead valid.ready.lead);
                holds = taken.grows.holds valid.ready.holds;
              };
              root_is = root₁;
              meta_is =
                  ap (λ (s : ℕ × ℕ × ℕ × Bool × ℕ × ℕ). s.4) taken.grows.settings_same
                  ∙ valid.meta_is
                  ∙ sym root_kept;
              keys = keys₁;
              sizes = sizes₁;
              ends = taken.next_same ∙ valid.ends;
              low = omega (arith, valid.low, taken.grows.count);
              linked = linked₁;
            },
            omega arith,
            taken.entries_set,
            taken.means,
            ap (λ k. u32 (k + 1)) items_kept,
            taken.grows.data_,
            (const₁, size₁, taken.grows.count, omega (arith, taken.more)),
          )

      full_lem_put :
          (width K h T₁ == room ks lv h) ≡ true → t.meta.count_of_block + h + 3 < 2 ^ 32 → PutTakes
      full_lem_put full small =
          let (n, on, used, same, _) =
            node_at_view t₁ (root_index K h T₁) _
              (Represents-root K ks lv h t₁ T₁ taken.represents) in
          let c = counted t₁ in
          let is_full : width K h T₁ ≡ room ks lv h = ground (arith, full) in
          let rooted : Rooted cmp ks lv h c T₁ = record {
            represents = Represents-labelled ks lv h t₁ _ _ _ T₁ taken.represents;
            well_formed = taken.well_formed;
            ascends = ascends₁;
            distinct = distinct₁;
            lead = AllLead-labelled t₁ _ _ _ (taken.grows.all_lead valid.ready.lead);
            holds = taken.grows.holds valid.ready.holds;
            root_is = root₁;
            keys = keys₁;
            sizes = sizes₁;
            ends = taken.next_same ∙ valid.ends;
            low = omega (arith, valid.low, taken.grows.count);
            linked = linked₁;
          } in
          let (t₀, T', top, split, ok, same_entries, grows, two_more) =
            split_root-Valid blank blank_data cmp ks lv h c T₁ rooted
              (omega (arith, is_full, wide h)) (omega arith) wide (omega (arith, taken.more)) in
          (
            labelled t₀ top t₀.meta.count_of_item top,
            v,
            suc h,
            T',
            full_put t t₁ _ n key value (length value) run (ap t₁.blocks (sym root₁) ∙ on)
                (full_lem ks lv h n T₁ same ∙ full) split,
            ok,
            omega arith,
            same_entries ∙ taken.entries_set,
            Means-kept _ c t₀ v value grows taken.means,
            ap (λ (s : ℕ × ℕ × ℕ × Bool × ℕ × ℕ). s.5) grows.settings_same
                ∙ ap (λ k. u32 (k + 1)) items_kept,
            DataKept-trans t t₁ t₀ taken.grows.count taken.grows.data_ grows.data_,
            (
              ap (λ (s : ℕ × ℕ × ℕ × Bool × ℕ × ℕ). s.3) grows.settings_same ∙ const₁,
              ap (λ (s : ℕ × ℕ × ℕ × Bool × ℕ × ℕ). s.2) grows.settings_same ∙ size₁,
              omega (arith, two_more, taken.grows.count),
              omega (arith, two_more, taken.more),
            ),
          )

    -- In a valid tree, whose nodes have room for three items at least, with a value of less than
    -- 4066 bytes, which in a tree of constant size has as many bytes as the leaves hold of it or
    -- more (`Fits`), and block numbers that stay below 2^32: `put` of a key that a live entry has
    -- returns the duplicate and the tree as it was; of any other key it takes the value. The tree
    -- is valid again, one level higher at most. Its entries are the old ones with the key set in
    -- the sorted list, and the value that stands there means the bytes that were put: it is the
    -- place of all of them or, in a tree of constant size, their first ones. The count of items is
    -- one more, the values that were in data blocks are still there, the sizes are the same, and at
    -- most three blocks more than the height are new.
    pub put-insert_sorted :
        t.meta.count_of_block + h + 3 < 2 ^ 32 → PutResult (is_live cmp key (entries K h T))
    put-insert_sorted small =
        let (dup, takes) =
          insert-Takes blank blank_data cmp order ks lv key value short (λ i. omega (arith, wide i))
            h (depth_fuel t) t T (omega (arith, valid.low)) valid.ready (omega arith)
            (λ e. (valid.sizes, omega (arith, valid.sizes, fits e))) in
        let from =
          ap (insert blank blank_data cmp (depth_fuel t) t key value (length value))
            (sym valid.root_is) in
        elim (Bool-cases (is_live cmp key (entries K h T))) [
          | inl live ↦ rw live (duplicate_put t t key value (length value) (from ∙ dup live))
          | inr dead ↦
              let (t₁, v, T₁, run, taken) = takes dead in
              rw dead (elim (Bool-cases (width K h T₁ == room ks lv h)) [
                | inr some_room ↦ roomy_lem t₁ v T₁ (from ∙ run) taken some_room
                | inl full ↦ full_lem_put t₁ v T₁ (from ∙ run) taken full small
              ])
        ]
