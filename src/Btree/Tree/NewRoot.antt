-- ===== src/Btree/Tree/NewRoot.antt =====
-- A full root that is split: the tree grows by one level and keeps its entries.
use native.Mathlib.Decide.{dec_lt}
use example_engine.Prelude.{
  ℕ, zero, suc, ◌+◌, ◌^◌, ◌≤◌, ◌<◌, ◌≡◌, refl, sym, ap, ap₂, ◌∙◌, subst, Bool, if◌then◌else◌, some,
  [], ◌∷◌, ◌++◌, take, drop, take-append-drop, length-take, arith, ◌==◌, append-nil,
}
use example_engine.Block.Header.{node_block}
use example_engine.Block.Data.{DataBlock}
use example_engine.Btree.Order.{Compare}
use example_engine.Btree.Node.{child, NodeBlock}
use example_engine.Btree.Node.Sorted.{Ascends}
use example_engine.Btree.Tree.{BTree, node_value_size}
use example_engine.Btree.Tree.Values.{Holds}
use example_engine.Btree.Tree.Insert.{split_root}
use example_engine.Btree.Tree.View.{View, view_at, AllLead, Grows}
use example_engine.Btree.Tree.SplitSon.{one_at}
use example_engine.Btree.Tree.Shape.{
  Tree, occ, occ-append, Linked, root_index, root_next, entries, leaves, blocks, width, room,
  root_view, Represents, WellFormed,
}
use example_engine.Btree.Tree.Frame.{Represents-used}
use example_engine.Btree.Tree.Halves.{
  half, keys-halves, lower_tree, upper_tree, occ-blocks, root-lower, root-upper, entries-halves,
  width-halves, occ-halves, Linked-halves, view-halves, width-view, WellFormed-halves,
  last_key-root, last_key-width, Represents-root, Represents-halves,
}
use example_engine.Btree.Tree.AfterSon.{index-view}
use example_engine.Btree.Tree.SplitRoot.{rooted}
use example_engine.Btree.Tree.RootViews.{split_root-Grows}
use example_engine.Btree.Tree.Valid.{Valid, AllLead-labelled, Represents-labelled}

-- A tree as `insert` leaves it: `Ready` but for the room in the root.
pub record Rooted {K : Type 0} (cmp : Compare K) (ks lv h : ℕ) (t : BTree K) (T : Tree K h)
    : Type 0 where
  pub represents : Represents K ks lv h t T
  pub well_formed : WellFormed K ks lv h T
  pub ascends : Ascends cmp (entries K h T)
  pub distinct : (i : ℕ) → occ i (blocks K h T) ≤ 1
  pub lead : AllLead t
  pub holds : Holds t
  pub root_is : root_index K h T ≡ t.root
  pub keys : t.key_size ≡ ks
  pub sizes : t.leaf_value_size ≡ lv
  pub ends : root_next K h T ≡ 0
  pub low : h < t.meta.count_of_block
  pub linked : (a : ℕ) × Linked a (leaves K h T) 0

module _ (K : Type 0) (ks lv : ℕ) where
  view-facts :
      (h : ℕ) (T : Tree K h)
      → ((root_view K ks lv h T).next ≡ root_next K h T) × ((root_view K ks lv h T).key_size ≡ ks)
  view-facts zero T = (refl, refl)
  view-facts (suc h) T = (refl, refl)

module _ {K : Type 0} (blank : NodeBlock K) (blank_data : DataBlock) (cmp : Compare K) (ks lv h : ℕ)
    (t : BTree K) (T : Tree K h) (r : Rooted cmp ks lv h t T) (two : 2 ≤ width K h T)
    (fits : width K h T ≤ room ks lv h) (wide : (h : ℕ) → 3 ≤ room ks lv h)
    (small : t.meta.count_of_block + 2 < 2 ^ 32) where
  abbrev next : ℕ
  next = t.meta.count_of_block + 1

  abbrev lower : Tree K h
  lower = lower_tree K h next T

  abbrev upper : Tree K h
  upper = upper_tree K h next T

  abbrev over : K → K → Tree K (suc h)
  over low high = record {
    index = t.meta.count_of_block;
    next = 0;
    kids = (low, lower) ∷ (high, upper) ∷ [];
  }

  entries-over : (low high : K) → entries K (suc h) (over low high) ≡ entries K h T
  entries-over low high =
      ap (λ e. entries K h lower ++ e) (append-nil (entries K h upper))
      ∙ sym (entries-halves K h next T)

  occ-over :
      (low high : K) (i : ℕ)
      → occ i (blocks K (suc h) (over low high))
        ≡ one_at t.meta.count_of_block i + (occ i (blocks K h T) + (if i == next then 1 else 0))
  occ-over low high i = omega (
    arith,
    occ-append i (blocks K h lower) (blocks K h upper ++ []),
    occ-append i (blocks K h upper) [],
    occ-halves K h next T i,
  )

  distinct_over : (low high : K) (i : ℕ) → occ i (blocks K (suc h) (over low high)) ≤ 1
  distinct_over low high i = elim (dec_lt i t.meta.count_of_block) [
    | yes q ↦ ground (arith, occ-over low high i, r.distinct i, q)
    | no q ↦
        let none = Represents-used K ks lv h t T i r.represents (omega arith) in
        ground (arith, occ-over low high i, none)
  ]

  pub split_root-Valid :
      (t₀ : BTree K) × (T' : Tree K (suc h)) × (top : ℕ) × (split_root blank blank_data cmp t
        ≡ some (rooted t₀ top))
      × Valid cmp ks lv (suc h) (rooted t₀ top) T'
      × (entries K (suc h) T' ≡ entries K h T)
      × Grows (one_at t.root) t t₀
      × (t₀.meta.count_of_block ≡ t.meta.count_of_block + 2)
  split_root-Valid =
      let v = root_view K ks lv h T in
      let m = half (width K h T) in
      let (v_next, v_keys) = view-facts K ks lv h T in
      let (high, last_high) = last_key-width K ks lv h T (omega arith) in
      let last = sym (last_key-root K ks lv h T r.well_formed) ∙ last_high in
      let (low, last_low, low_lower, high_upper) =
        keys-halves K ks lv h next T high two r.well_formed last in
      let (l_view, u_view) = view-halves K ks lv h next T in
      let (t₀, run, at_root, at_next, at_top, grows, count) =
        split_root-Grows blank blank_data cmp t v (take m v.items) (drop m v.items) low high
          (ap (view_at t) (sym r.root_is) ∙ Represents-root K ks lv h t T r.represents) r.lead small
          (v_next ∙ r.ends) (index-view K ks lv h T ∙ r.root_is) (v_keys ∙ sym r.keys)
          (sym (take-append-drop m v.items))
          (omega (arith, length-take m v.items, width-view K ks lv h T)) last_low last_high in
      let top = t.meta.count_of_block in
      let (rep_l, rep_u) =
        Represents-halves K ks lv h next (one_at t.root) t t₀ T r.represents grows
          (λ i q.
            omega (arith, q, occ-blocks K h T i, r.distinct i, ap (λ j. one_at j i) r.root_is))
          (ap (view_at t₀) r.root_is ∙ at_root ∙ ap some (sym l_view))
          (at_next ∙ ap some (sym u_view)) in
      let (wf_l, wf_u) = WellFormed-halves K ks lv h next T two r.well_formed in
      let (w_l, w_u) = width-halves K h next T in
      let wide_h = wide h in
      let over_view : (a b ks' : ℕ) → View K = (λ a b ks'. record {
        type = node_block;
        index = top;
        next = 0;
        key_size = ks';
        val_size = node_value_size;
        items =
            record { key = low; flag = 1; value = child a }
            ∷ record { key = high; flag = 1; value = child b }
            ∷ [];
      }) in
      let top_view : view_at t₀ top ≡ some (root_view K ks lv (suc h) (over low high)) =
        at_top
        ∙ ap₂ (λ a b. some (over_view a b t.key_size)) (sym (root-lower K h next T ∙ r.root_is))
            (sym (root-upper K h next T))
        ∙ ap (λ j. some (over_view (root_index K h lower) (root_index K h upper) j)) r.keys in
      let T' = over low high in
      (
        t₀,
        T',
        top,
        run,
        record {
          ready = record {
            represents =
                Represents-labelled ks lv (suc h) t₀ top _ top T' (top_view, (rep_l, (rep_u, tt)));
            well_formed = (
              omega arith,
              ((low_lower, wf_l, omega arith), ((high_upper, wf_u, omega arith), tt)),
            );
            ascends = subst (Ascends cmp) (sym (entries-over low high)) r.ascends;
            distinct = distinct_over low high;
            roomy = (let w = wide (suc h) in omega arith);
            lead = AllLead-labelled t₀ top _ top (grows.all_lead r.lead);
            holds = grows.holds r.holds;
          };
          root_is = refl;
          meta_is = refl;
          keys = ap (λ (s : ℕ × ℕ × ℕ × Bool × ℕ × ℕ). s.1) grows.settings_same ∙ r.keys;
          sizes = ap (λ (s : ℕ × ℕ × ℕ × Bool × ℕ × ℕ). s.2) grows.settings_same ∙ r.sizes;
          ends = refl;
          low = omega (arith, r.low, count);
          linked =
              (let (a, l) = r.linked in
                (
                  a,
                  subst (λ xs. Linked a xs 0)
                      (ap (λ e. leaves K h lower ++ e) (sym (append-nil (leaves K h upper))))
                      (Linked-halves K h next a 0 T l),
                ));
        },
        entries-over low high,
        grows,
        omega (arith, count),
      )
