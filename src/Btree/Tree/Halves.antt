-- ===== src/Btree/Tree/Halves.antt =====
-- A split as it changes the tree: the two halves hold the entries, the leaves and the blocks of the
-- tree that was split.
use example_engine.Prelude.{
  ℕ, zero, suc, ◌+◌, ◌/◌, ◌≤◌, ◌<◌, ◌≡◌, refl, sym, ap, ◌∙◌, subst, some, List, [], ◌∷◌, ◌++◌, map,
  length, take, drop, take-append-drop, arith, length-take, length-drop,
}
use example_engine.Btree.Node.Sorted.{All, All-left, All-right, All-imp, last_key}
use example_engine.Btree.Tree.{BTree}
use example_engine.Btree.Tree.View.{View, view_at, Grows}
use example_engine.Btree.Tree.SplitSon.{one_at}
use example_engine.Btree.Tree.Shape.{
  Tree, flat, flat-append, occ, occ-append, Linked, root_index, entries, leaves, blocks, width,
  kid_slot, HasPlace, root_view, Represents, WellFormed,
}
use example_engine.Btree.Tree.Frame.{
  length-map, last_key-some, last_key-kids, last_key-append_some, HasPlace-kept, Represents-kept,
  All-apart,
}
use example_engine.Btree.Tree.Kids.{take-map, drop-map}

abbrev pub half : ℕ → ℕ
half n = (n + 1) / 2

All-take-drop :
    {A : Type 0} (P : A → Type 0) (n : ℕ) (xs : List A)
    → All P xs
    → All P (take n xs) × All P (drop n xs)
All-take-drop P n xs h =
    let h' = subst (All P) (sym (take-append-drop n xs)) h in
    (All-left P (take n xs) (drop n xs) h', All-right P (take n xs) (drop n xs) h')

nonempty : {A : Type 0} (xs : List A) → 0 < length xs → (x : A) × (ys : List A) × (xs ≡ x ∷ ys)
nonempty [] h = absurd (omega arith)
nonempty (x ∷ xs) h = (x, xs, refl)

module _ (K : Type 0) where
  -- the halves of a tree whose upper half is the block `next`
  abbrev pub lower_tree : (h : ℕ) → ℕ → Tree K h → Tree K h
  lower_tree zero next T = record T { next = next; items = take (half (length T.items)) T.items }
  lower_tree (suc h) next T = record T { next = next; kids = take (half (length T.kids)) T.kids }

  abbrev pub upper_tree : (h : ℕ) → ℕ → Tree K h → Tree K h
  upper_tree zero next T = record T { index = next; items = drop (half (length T.items)) T.items }
  upper_tree (suc h) next T = record T { index = next; kids = drop (half (length T.kids)) T.kids }

  -- the blocks of a tree but its root
  abbrev pub below_root : (h : ℕ) → Tree K h → List ℕ
  below_root zero T = []
  below_root (suc h) T = flat (λ (k, c). blocks K h c) T.kids

  pub occ-blocks :
      (h : ℕ) (T : Tree K h) (i : ℕ)
      → occ i (blocks K h T) ≡ one_at (root_index K h T) i + occ i (below_root h T)
  occ-blocks zero T i = refl
  occ-blocks (suc h) T i = refl

  pub root-lower :
      (h next : ℕ) (T : Tree K h) → root_index K h (lower_tree h next T) ≡ root_index K h T
  root-lower zero next T = refl
  root-lower (suc h) next T = refl

  pub root-upper : (h next : ℕ) (T : Tree K h) → root_index K h (upper_tree h next T) ≡ next
  root-upper zero next T = refl
  root-upper (suc h) next T = refl

  pub entries-halves :
      (h next : ℕ) (T : Tree K h)
      → entries K h T ≡ entries K h (lower_tree h next T) ++ entries K h (upper_tree h next T)
  entries-halves zero next T = sym (take-append-drop (half (length T.items)) T.items)
  entries-halves (suc h) next T =
      ap (flat (λ (k, c). entries K h c)) (sym (take-append-drop (half (length T.kids)) T.kids))
      ∙ flat-append (λ (k, c). entries K h c) (take (half (length T.kids)) T.kids) _

  pub width-halves :
      (h next : ℕ) (T : Tree K h)
      → (width K h (lower_tree h next T) ≡ half (width K h T))
        × (width K h (upper_tree h next T) ≡ width K h T / 2)
  width-halves zero next T = (
    omega (arith, length-take (half (length T.items)) T.items),
    omega (arith, length-drop (half (length T.items)) T.items),
  )
  width-halves (suc h) next T = (
    omega (arith, length-take (half (length T.kids)) T.kids),
    omega (arith, length-drop (half (length T.kids)) T.kids),
  )

  pub occ-halves :
      (h next : ℕ) (T : Tree K h) (i : ℕ)
      → occ i (blocks K h (lower_tree h next T)) + occ i (blocks K h (upper_tree h next T))
        ≡ occ i (blocks K h T) + one_at next i
  occ-halves zero next T i = omega arith
  occ-halves (suc h) next T i =
      let f = (λ (kid : K × Tree K h). blocks K h kid.1) in
      let m = half (length T.kids) in
      let e : occ i (flat f T.kids)
          ≡ occ i (flat f (take m T.kids)) + occ i (flat f (drop m T.kids)) =
        ap (λ xs. occ i (flat f xs)) (sym (take-append-drop m T.kids))
        ∙ ap (occ i) (flat-append f (take m T.kids) (drop m T.kids))
        ∙ occ-append i (flat f (take m T.kids)) (flat f (drop m T.kids)) in
      omega arith

  pub Linked-halves :
      (h next a b : ℕ) (T : Tree K h)
      → Linked a (leaves K h T) b
      → Linked a (leaves K h (lower_tree h next T) ++ leaves K h (upper_tree h next T)) b
  Linked-halves zero next a b T (e, f) = (e, (refl, f))
  Linked-halves (suc h) next a b T l =
      let m = half (length T.kids) in
      subst (λ xs. Linked a xs b)
        (ap (flat (λ (k, c). leaves K h c)) (sym (take-append-drop m T.kids))
          ∙ flat-append (λ (k, c). leaves K h c) (take m T.kids) (drop m T.kids))
        l

  module _ (ks lv : ℕ) where
    pub view-halves :
        (h next : ℕ) (T : Tree K h)
        → let v = root_view K ks lv h T in
          (root_view K ks lv h (lower_tree h next T)
            ≡ record v { next = next; items = take (half (width K h T)) v.items })
          × (root_view K ks lv h (upper_tree h next T)
              ≡ record v { index = next; items = drop (half (width K h T)) v.items })
    view-halves zero next T = (refl, refl)
    view-halves (suc h) next T =
        let v = root_view K ks lv (suc h) T in
        let m = half (length T.kids) in
        (
          ap (λ xs. let r : View K = record v { next = next; items = xs } in r)
              (sym (take-map (kid_slot K h) m T.kids)),
          ap (λ xs. let r : View K = record v { index = next; items = xs } in r)
              (sym (drop-map (kid_slot K h) m T.kids)),
        )

    pub width-view : (h : ℕ) (T : Tree K h) → length (root_view K ks lv h T).items ≡ width K h T
    width-view zero T = refl
    width-view (suc h) T = length-map (kid_slot K h) T.kids

    pub WellFormed-halves :
        (h next : ℕ) (T : Tree K h)
        → 2 ≤ width K h T
        → WellFormed K ks lv h T
        → WellFormed K ks lv h (lower_tree h next T) × WellFormed K ks lv h (upper_tree h next T)
    WellFormed-halves zero next T two w = (tt, tt)
    WellFormed-halves (suc h) next T two (nonempty, all) =
        let m = half (length T.kids) in
        let (l, r) = All-take-drop _ m T.kids all in
        ((omega (arith, length-take m T.kids), l), (omega (arith, length-drop m T.kids), r))

    -- the last item of the root has the key of the last entry
    pub last_key-root :
        (h : ℕ) (T : Tree K h)
        → WellFormed K ks lv h T
        → last_key (root_view K ks lv h T).items ≡ last_key (entries K h T)
    last_key-root zero T w = refl
    last_key-root (suc h) T (n, all) =
        last_key-kids K h T.kids (All-imp _ _ (λ x (e, _, _). e) T.kids all)

    pub last_key-width :
        (h : ℕ) (T : Tree K h)
        → 0 < width K h T
        → (k : K) × (last_key (root_view K ks lv h T).items ≡ some k)
    last_key-width zero T some_item =
        let (x, xs, e) = nonempty T.items some_item in
        let (k, f) = last_key-some x xs in (k, ap last_key e ∙ f)
    last_key-width (suc h) T some_item =
        let (x, xs, e) = nonempty T.kids some_item in
        let (k, f) = last_key-some (kid_slot K h x) (map (kid_slot K h) xs) in
        (k, ap (λ ks. last_key (map (kid_slot K h) ks)) e ∙ f)

    -- the keys of the two halves
    pub keys-halves :
        (h next : ℕ) (T : Tree K h) (high : K)
        → 2 ≤ width K h T
        → WellFormed K ks lv h T
        → last_key (entries K h T) ≡ some high
        → (low : K) × (last_key (take (half (width K h T)) (root_view K ks lv h T).items)
            ≡ some low)
          × (last_key (entries K h (lower_tree h next T)) ≡ some low)
          × (last_key (entries K h (upper_tree h next T)) ≡ some high)
    keys-halves h next T high two wf last =
        let l = lower_tree h next T in
        let u = upper_tree h next T in
        let (wf_l, wf_u) = WellFormed-halves h next T two wf in
        let (w_l, w_u) = width-halves h next T in
        let (low, e) = last_key-width h l (omega arith) in
        let (high', f) = last_key-width h u (omega arith) in
        let up : last_key (entries K h u) ≡ some high' = sym (last_key-root h u wf_u) ∙ f in
        let same : last_key (entries K h T) ≡ some high' =
          ap last_key (entries-halves h next T)
          ∙ last_key-append_some (entries K h l) (entries K h u) high' up in
        (
          low,
          sym (ap (λ (x : View K). last_key x.items) (view-halves h next T).0) ∙ e,
          sym (last_key-root h l wf_l) ∙ e,
          up ∙ sym same ∙ last,
        )

    pub Represents-root :
        (h : ℕ) (t : BTree K) (T : Tree K h)
        → Represents K ks lv h t T
        → view_at t (root_index K h T) ≡ some (root_view K ks lv h T)
    Represents-root zero t T (at, p) = at
    Represents-root (suc h) t T (at, p) = at

    -- The halves are represented once their roots are written and the rest is as it was.
    pub Represents-halves :
        (h next : ℕ) (o : ℕ → ℕ) (t t' : BTree K) (T : Tree K h)
        → Represents K ks lv h t T
        → Grows o t t'
        → ((i : ℕ) → 1 ≤ occ i (below_root h T) → o i ≡ 0)
        → view_at t' (root_index K h T) ≡ some (root_view K ks lv h (lower_tree h next T))
        → view_at t' next ≡ some (root_view K ks lv h (upper_tree h next T))
        → Represents K ks lv h t' (lower_tree h next T)
          × Represents K ks lv h t' (upper_tree h next T)
    Represents-halves zero next o t t' T (at, places) g apart l r =
        let (p, q) =
          All-take-drop (HasPlace K t') (half (length T.items)) T.items
            (All-imp _ _ (λ s h. HasPlace-kept o t t' s g h) T.items places) in
        ((l, p), (r, q))
    Represents-halves (suc h) next o t t' T (at, kids) g apart l r =
        let (p, q) =
          All-take-drop (λ (k, c). Represents K ks lv h t' c) (half (length T.kids)) T.kids
            (All-apart _ _ (λ (k, c). blocks K h c) o
              (λ (k, c) a r. Represents-kept K ks lv h o t t' c g a r) T.kids apart kids) in
        ((l, p), (r, q))
