-- ===== src/Btree/Tree/AfterFull.antt =====
-- A parent whose child has become full: the child's halves stand in its place.
use native.Mathlib.Decide.{dec_lt}
use example_engine.Prelude.{
  ℕ, suc, ◌+◌, ◌^◌, ◌≤◌, ◌<◌, ◌≡◌, sym, ap, ap₂, ◌∙◌, subst, Bool, true, false, some, List, [], ◌∷◌,
  ◌++◌, map, length, take, drop, take-append-drop, length-take, arith, ◌==◌, if◌then◌else◌,
  length-append, append-nil, append_assoc,
}
use example_engine.Block.Data.{DataBlock}
use example_engine.Btree.Order.{Compare, lt, IsOrder, lt_cases}
use example_engine.Btree.Node.{Value, child, Slot, NodeBlock}
use example_engine.Btree.Node.Sorted.{
  All, All-append, All-imp, Below, NotBelow, Ascends, Ascends-append, last_key,
  insert_sorted-Ascends,
}
use example_engine.Btree.Tree.{BTree}
use example_engine.Btree.Tree.Insert.{inserted, after_son}
use example_engine.Btree.Tree.View.{View, view_at, Grows, Grows-trans}
use example_engine.Btree.Tree.SplitSon.{one_at, parted}
use example_engine.Btree.Tree.SplitParent.{split_son-Grows}
use example_engine.Btree.Tree.Shape.{
  Tree, flat-append, occ, occ-append, Linked, root_index, entries, leaves, blocks, width, kid_slot,
  room, root_view,
}
use example_engine.Btree.Tree.Frame.{length-map, Represents-used, Means-kept}
use example_engine.Btree.Tree.Kids.{map-append, Keyed, Ascends-kids}
use example_engine.Btree.Tree.Halves.{
  keys-halves, half, lower_tree, upper_tree, occ-blocks, root-lower, root-upper, entries-halves,
  width-halves, occ-halves, Linked-halves, view-halves, width-view, WellFormed-halves,
  Represents-root, Represents-halves,
}
use example_engine.Btree.Tree.Taken.{
  Taken, ChildTaken, Kids, entries_of, blocks_of, siblings, replaced_lem,
}
use example_engine.Btree.Tree.Descent.{full_run}
use example_engine.Btree.Tree.AfterSon.{
  index-view, full_lem, parent_apart, child_once, marked_lem, marked_from,
}

module _ {K : Type 0} (blank : NodeBlock K) (blank_data : DataBlock) (cmp : Compare K)
    (order : IsOrder cmp) (ks lv h : ℕ) (t : BTree K) (T : Tree K (suc h)) (pre : Kids K h) (k : K)
    (c : Tree K h) (post : Kids K h) (key : K) (value : List ℕ) (t₁ : BTree K) (v : Value)
    (c' : Tree K h) (k' : K) (d : ChildTaken cmp ks lv h t T pre k c post key value t₁ v c' k')
    (next : ℕ) (two : 2 ≤ width K h c') where
  abbrev pub lower : Tree K h
  lower = lower_tree K h next c'

  abbrev pub upper : Tree K h
  upper = upper_tree K h next c'

  -- the keys of the two halves
  pub low_lem :
      (low : K) × (last_key (take (half (width K h c')) (root_view K ks lv h c').items) ≡ some low)
      × (last_key (entries K h lower) ≡ some low)
      × (last_key (entries K h upper) ≡ some k')
  low_lem = keys-halves K ks lv h next c' k' two d.taken.well_formed d.last

  abbrev pub halves : Kids K h
  halves = (low_lem.0, lower) ∷ (k', upper) ∷ []

  abbrev pub T₃ : Tree K (suc h)
  T₃ = record T { kids = pre ++ (halves ++ post) }

  entries_lem : entries K (suc h) T₃ ≡ entries_of K h (pre ++ ((k', c') ∷ post))
  entries_lem =
      let f = (λ (kid : K × Tree K h). entries K h kid.1) in
      flat-append f pre (halves ++ post)
      ∙ ap (λ r. entries_of K h pre ++ r)
          (sym (append_assoc (entries K h lower) (entries K h upper) (entries_of K h post))
            ∙ ap (λ r. r ++ entries_of K h post) (sym (entries-halves K h next c')))
      ∙ sym (flat-append f pre ((k', c') ∷ post))

  occ_lem :
      (i : ℕ) → occ i (blocks_of K h halves) ≡ occ i (blocks K h c') + (if i == next then 1 else 0)
  occ_lem i = omega (
    arith,
    occ-append i (blocks K h lower) (blocks K h upper ++ []),
    occ-append i (blocks K h upper) [],
    occ-halves K h next c' i,
  )

  sibling_keys : Keyed cmp order h pre × Keyed cmp order h post
  sibling_keys =
      let (p, _, q) =
        siblings cmp ks lv h t T pre k c post d.parts d.represents d.well_formed d.distinct
          (λ (k, c). last_key (entries K h c) ≡ some k)
          (All-imp _ _ (λ kid (e, _, _). e) T.kids d.well_formed.1) in
      (p, q)

  set-Ascends : Ascends cmp (entries_of K h (pre ++ ((k', c') ∷ post)))
  set-Ascends =
      subst (Ascends cmp) (sym d.set)
        (insert_sorted-Ascends cmp order key v (entries K (suc h) T) d.ascends)

  abbrev pub slots_of : Kids K h → List (Slot K)
  slots_of = map (kid_slot K h)

  -- what the split of the child needs of the keys
  keys_lem :
      Ascends cmp (slots_of pre ++ (kid_slot K h (k', c') ∷ slots_of post))
      × Below cmp low_lem.0 (slots_of pre)
      × NotBelow cmp low_lem.0 (kid_slot K h (k', c') ∷ slots_of post)
  keys_lem =
      let (kp, kq) = sibling_keys in
      let low = low_lem.0 in
      let two_kids : Ascends cmp (slots_of (pre ++ ((k', c') ∷ post))) =
        Ascends-kids cmp order h (pre ++ ((k', c') ∷ post))
          (All-append _ pre ((k', c') ∷ post) kp (d.last, kq)) set-Ascends in
      let three_kids : Ascends cmp (slots_of (pre ++ (halves ++ post))) =
        Ascends-kids cmp order h (pre ++ (halves ++ post))
          (All-append _ pre (halves ++ post) kp (low_lem.2, (low_lem.3, kq)))
          (subst (Ascends cmp) (sym entries_lem) set-Ascends) in
      let (l, (over, r), cross) =
        Ascends-append cmp (slots_of pre) (slots_of (halves ++ post))
          (subst (Ascends cmp) (map-append (kid_slot K h) pre (halves ++ post)) three_kids) in
      let (o, os) : All (λ r. lt cmp r.key low ≡ false) (kid_slot K h (k', upper) ∷ slots_of post) =
        All-imp {A = Slot K} (λ r. lt cmp low r.key ≡ true) (λ r. lt cmp r.key low ≡ false)
          (λ r o. ground (arith, o, lt_cases cmp order low r.key))
          (kid_slot K h (k', upper) ∷ slots_of post) over in
      (
        subst (Ascends cmp) (map-append (kid_slot K h) pre ((k', c') ∷ post)) two_kids,
        All-imp _ _ (λ s (a, _). a) (slots_of pre) cross,
        (o, os),
      )

  parted_lem :
      parted
        (slots_of pre)
        low_lem.0
        (root_index K h c)
        (kid_slot K h (k', c'))
        next
        (slots_of post)
      ≡ slots_of T₃.kids
  parted_lem =
      ap₂
        (λ a b.
          slots_of pre
          ++ (record { key = low_lem.0; flag = 1; value = child a }
              ∷ record { key = k'; flag = 1; value = child b }
              ∷ slots_of post))
        (sym (root-lower K h next c' ∙ d.taken.root_same)) (sym (root-upper K h next c'))
      ∙ sym (map-append (kid_slot K h) pre (halves ++ post))

  module _ (index : ℕ) (at : index ≡ length pre) (flag : Bool) (same : flag ≡ false → k' ≡ k)
      (here : next ≡ t₁.meta.count_of_block) (small : t₁.meta.count_of_block + 1 < 2 ^ 32)
      (some_room : width K (suc h) T < room ks lv (suc h))
      (full : (width K h c' == room ks lv h) ≡ true) where
    son_apart : (root_index K h c == T.index) ≡ false
    son_apart =
        let some_root : 1 ≤ occ (root_index K h c) (blocks K h c') =
          (let e = occ-blocks K h c' (root_index K h c) in ground (arith, e, d.taken.root_same)) in
        let z =
          parent_apart blank blank_data cmp order ks lv h t T pre k c post key value t₁ v c' k' d
            index at flag same (root_index K h c) some_root in
        ground (arith, z)

    -- the views once the child is split
    split_views :
        (t' : BTree K) × (after_son blank blank_data cmp t₁ T.index index (root_index K h c) flag
          ≡ some (inserted, t'))
        × (view_at t' (root_index K h c') ≡ some (root_view K ks lv h lower))
        × (view_at t' next ≡ some (root_view K ks lv h upper))
        × (view_at t' T.index ≡ some (root_view K ks lv (suc h) T₃))
        × Grows (λ i. one_at (root_index K h c') i + one_at T.index i) t₁ t'
        × (t'.meta.count_of_block ≡ t₁.meta.count_of_block + 1)
    split_views =
        let (s, n, on_s, on_n, same_s, seen, grows, count) =
          marked_lem blank blank_data cmp order ks lv h t T pre k c post key value t₁ v c' k' d
            index at flag same in
        let t₂ =
          marked_from blank blank_data cmp order ks lv h t T pre k c post key value t₁ v c' k' d
            index at flag same s n in
        let son = root_index K h c in
        let v' = root_view K ks lv h c' in
        let m = half (width K h c') in
        let (asc, below, above) = keys_lem in
        let at_son : view_at t₂ son ≡ some v' =
          grows.keep son v'
            (ap (view_at t₁) (sym d.taken.root_same)
              ∙ Represents-root K ks lv h t₁ c' d.taken.represents)
            (ground (arith, son_apart)) in
        let e : t₂.meta.count_of_block ≡ next = count ∙ sym here in
        let (t', run, son', next', cur', grows', count') =
          split_son-Grows blank blank_data cmp order t₂ T.index index son
            (root_view K ks lv (suc h) (record T { kids = pre ++ ((k', c') ∷ post) })) v'
            (take m v'.items) (drop m v'.items) low_lem.0 (slots_of pre) (kid_slot K h (k', c'))
            (slots_of post) seen at_son son_apart (grows.all_lead (d.taken.grows.all_lead d.lead))
            (omega (arith, count)) (sym (take-append-drop m v'.items))
            (omega (arith, length-take m v'.items, width-view K ks lv h c')) low_lem.1
            (index-view K ks lv h c' ∙ d.taken.root_same)
            (map-append (kid_slot K h) pre ((k', c') ∷ post))
            (at ∙ sym (length-map (kid_slot K h) pre)) asc below above
            (omega (
              arith,
              length-map (kid_slot K h) (pre ++ ((k', c') ∷ post)),
              length-append pre ((k', c') ∷ post),
              length-append pre ((k, c) ∷ post),
              ap length d.parts,
              some_room,
            )) in
        (
          t',
          full_run blank blank_data cmp t₁ T.index index son s n flag on_s on_n t'
              (full_lem ks lv h s c' same_s ∙ full) run,
          ap (view_at t') d.taken.root_same
              ∙ son'
              ∙ ap some (
                  ap (λ i. let x : View K = record v' { next = i; items = take m v'.items } in x) e
                  ∙ sym (view-halves K ks lv h next c').0),
          ap (view_at t') (sym e)
              ∙ next'
              ∙ ap some (
                  ap (λ i. let x : View K = record v' { index = i; items = drop m v'.items } in x) e
                  ∙ sym (view-halves K ks lv h next c').1),
          cur'
              ∙ ap
                  (λ xs.
                    let x : View K = record (root_view K ks lv (suc h) T) { items = xs } in some x)
                  (ap
                      (λ i.
                        parted (slots_of pre) low_lem.0 son (kid_slot K h (k', c')) i
                          (slots_of post))
                      e
                    ∙ parted_lem),
          Grows-trans _ _ _ t₁ t₂ t'
              (λ i q z.
                let r = ap (λ j. one_at j i) d.taken.root_same in
                (omega (arith, z), omega (arith, r, z)))
              grows grows',
          omega (arith, count, count'),
        )

    new_once : (i : ℕ) → occ i (blocks_of K h halves) ≤ 1
    new_once i =
        let once =
          child_once blank blank_data cmp order ks lv h t T pre k c post key value t₁ v c' k' d
            index at flag same i in
        elim (dec_lt i next) [
          | yes q ↦ ground (arith, occ_lem i, once, q)
          | no q ↦
              let none = Represents-used K ks lv h t₁ c' i d.taken.represents (omega arith) in
              ground (arith, occ_lem i, none)
        ]

    -- the child has become full
    pub after_full :
        (half (room ks lv h) < room ks lv h)
        → (t' : BTree K) × (after_son blank blank_data cmp t₁ T.index index (root_index K h c) flag
            ≡ some (inserted, t'))
          × Taken cmp ks lv (suc h) t T key value t' v T₃
    after_full smaller =
        let (t', run, low_view, high_view, seen, grows, count) = split_views in
        let c₁ = d.taken.grows.count in
        let (w_low, w_high) = width-halves K h next c' in
        let (wf_low, wf_high) = WellFormed-halves K ks lv h next c' two d.taken.well_formed in
        let (r_low, r_high) =
          Represents-halves K ks lv h next _ t₁ t' c' d.taken.represents grows
            (λ i q. omega (
              arith,
              occ-blocks K h c' i,
              child_once blank blank_data cmp order ks lv h t T pre k c post key value t₁ v c' k' d
                  index at flag same i,
              parent_apart blank blank_data cmp order ks lv h t T pre k c post key value t₁ v c' k'
                  d index at flag same i,
              q,
            ))
            low_view high_view in
        let is_full : width K h c' ≡ room ks lv h = ground (arith, full) in
        (
          t',
          run,
          replaced_lem cmp ks lv h t T pre k c post d.parts d.represents d.well_formed d.distinct t'
              key value v halves (entries_lem ∙ d.set) seen (r_low, (r_high, tt))
              (
                (low_lem.2, wf_low, omega (arith, w_low, is_full, smaller)),
                ((low_lem.3, wf_high, omega (arith, w_high, is_full, smaller)), tt),
              )
              (Grows-trans _ _ _ t t₁ t'
                (λ i q z.
                  let r = ap (λ j. one_at j i) d.taken.root_same in
                  let b = occ-blocks K h c i in (omega (arith, z), omega (arith, r, b, z)))
                d.taken.grows grows)
              (λ i q. let e = occ_lem i in ground (arith, e, d.taken.old_blocks i q, here, c₁, q))
              (λ i q. new_once i) (Means-kept _ t₁ t' v value grows d.taken.means)
              (omega (arith, d.taken.more, count)) (omega arith) (omega arith)
              (λ a b l.
                subst (λ xs. Linked a xs b)
                  (ap (λ r. leaves K h lower ++ r) (sym (append-nil (leaves K h upper))))
                  (Linked-halves K h next a b c' (d.taken.linked a b l))),
        )
