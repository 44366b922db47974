-- ===== src/Btree/Tree/Taken.antt =====
-- A value that a tree has taken: what `insert` returns is a tree with one entry set.
use example_engine.Prelude.{
  ℕ, suc, ◌+◌, ◌≤◌, ◌<◌, ◌≡◌, ◌⊎◌, inl, inr, refl, sym, ap, ◌∙◌, subst, true, false, some, List, [],
  ◌∷◌, ◌++◌, length, arith, length-append, append-nil,
}
use example_engine.Btree.Order.{Compare, lt, IsOrder}
use example_engine.Btree.Node.{Value, Slot}
use example_engine.Btree.Node.Sorted.{
  All, All-append, All-left, All-right, Below, Stops, Ascends, last_key, insert_sorted, is_live,
  insert_sorted-Below, insert_sorted-Stops, is_live-Below, is_live-Stops, last_key-Stops,
  last_key-Below,
}
use example_engine.Btree.Tree.{BTree}
use example_engine.Btree.Tree.View.{AllLead, view_at, Grows, Grows-trans, Grows-refl}
use example_engine.Btree.Tree.SplitSon.{one_at}
use example_engine.Btree.Tree.Shape.{
  Tree, flat, flat-append, occ, occ-append, Linked, Linked-append, append-Linked, root_index,
  root_next, entries, leaves, blocks, width, Means, room, root_view, Represents, WellFormed,
}
use example_engine.Btree.Tree.Frame.{All-apart, Represents-kept, Represents-used}
use example_engine.Btree.Tree.Kids.{Below-last}

pub record Taken {K : Type 0} (cmp : Compare K) (ks lv : ℕ) (h : ℕ) (t : BTree K) (T : Tree K h)
    (key : K) (value : List ℕ) (t' : BTree K) (v : Value) (T' : Tree K h) : Type 0 where
  pub represents : Represents K ks lv h t' T'
  pub well_formed : WellFormed K ks lv h T'
  pub root_same : root_index K h T' ≡ root_index K h T
  pub next_same : root_next K h T' ≡ root_next K h T
  pub entries_set : entries K h T' ≡ insert_sorted cmp key v (entries K h T)
  pub means : Means K t' v value
  pub grows : Grows (λ i. occ i (blocks K h T)) t t'
  pub old_blocks :
      (i : ℕ) → i < t.meta.count_of_block → occ i (blocks K h T') ≡ occ i (blocks K h T)
  pub new_blocks : (i : ℕ) → t.meta.count_of_block ≤ i → occ i (blocks K h T') ≤ 1
  pub more : t'.meta.count_of_block ≤ t.meta.count_of_block + h + 1
  pub wider : width K h T' ≤ width K h T + 1
  pub linked : (a b : ℕ) → Linked a (leaves K h T) b → Linked a (leaves K h T') b

module _ {K : Type 0} (cmp : Compare K) where
  pub Stops-last :
      (xs : List (Slot K)) (k key : K)
      → last_key xs ≡ some k
      → lt cmp k key ≡ false
      → Stops cmp key xs
  Stops-last [] k key e l = cc
  Stops-last (x ∷ []) k key e l = let f : x.key ≡ k = cc in inl (rw f l)
  Stops-last (x ∷ y ∷ ys) k key e l = inr (Stops-last (y ∷ ys) k key e l)

  -- the child in which a key's place is: the key of the child is not below it, or the child is last
  abbrev pub Holder : List (Slot K) → K → K → Type 0
  Holder behind k key = (lt cmp k key ≡ false) ⊎ ((behind ≡ []) × (lt cmp k key ≡ true))

  -- An insertion into all entries is one into those of the child that the key belongs to.
  pub child_lem :
      (order : IsOrder cmp) (xs cs ys : List (Slot K)) (k key : K)
      → Below cmp key xs
      → Ascends cmp cs
      → last_key cs ≡ some k
      → Holder ys k key
      → (is_live cmp key (xs ++ (cs ++ ys)) ≡ is_live cmp key cs)
        × ((v : Value)
            → insert_sorted cmp key v (xs ++ (cs ++ ys)) ≡ xs ++ (insert_sorted cmp key v cs ++ ys))
        × ((v : Value)
            → (k' : K) × (last_key (insert_sorted cmp key v cs) ≡ some k')
              × (lt cmp k key ≡ false → k' ≡ k))
  child_lem order xs cs ys k key below asc last (inl f) =
      let stops = Stops-last cs k key last f in
      (
        is_live-Below cmp key xs (cs ++ ys) below ∙ is_live-Stops cmp key cs ys stops,
        λ v.
            insert_sorted-Below cmp key v xs (cs ++ ys) below
            ∙ ap (λ r. xs ++ r) (insert_sorted-Stops cmp key v cs ys stops),
        λ v. (k, last_key-Stops cmp key v cs stops ∙ last, λ g. refl),
      )
  child_lem order xs cs ys k key below asc last (inr (e, f)) =
      let under = Below-last cmp order cs k key asc last f in
      let flat_cs : cs ++ ys ≡ cs = ap (λ r. cs ++ r) e ∙ append-nil cs in
      (
        is_live-Below cmp key xs (cs ++ ys) below ∙ ap (is_live cmp key) flat_cs,
        λ v.
            insert_sorted-Below cmp key v xs (cs ++ ys) below
            ∙ ap (λ r. xs ++ r)
                (ap (insert_sorted cmp key v) flat_cs
                  ∙ sym (append-nil (insert_sorted cmp key v cs))
                  ∙ ap (λ r. insert_sorted cmp key v cs ++ r) (sym e)),
        λ v. (key, last_key-Below cmp key v cs under, λ g. let z = sym g ∙ f in cc),
      )

module _ (K : Type 0) (h : ℕ) where
  abbrev pub Kids : Type 0
  Kids = List (K × Tree K h)

  abbrev pub entries_of : Kids → List (Slot K)
  entries_of = flat (λ (k, c). entries K h c)

  abbrev pub blocks_of : Kids → List ℕ
  blocks_of = flat (λ (k, c). blocks K h c)

  abbrev pub leaves_of : Kids → List (ℕ × ℕ)
  leaves_of = flat (λ (k, c). leaves K h c)

  pub flat_parts :
      {B : Type 0} (f : K × Tree K h → List B) (pre mid post : Kids)
      → flat f (pre ++ (mid ++ post)) ≡ flat f pre ++ (flat f mid ++ flat f post)
  flat_parts f pre mid post =
      flat-append f pre (mid ++ post) ∙ ap (λ r. flat f pre ++ r) (flat-append f mid post)

  pub occ_parts :
      (i : ℕ) (pre mid post : Kids)
      → occ i (blocks_of (pre ++ (mid ++ post)))
        ≡ occ i (blocks_of pre) + occ i (blocks_of mid) + occ i (blocks_of post)
  occ_parts i pre mid post = omega (
    arith,
    ap (occ i) (flat_parts (λ (k, c). blocks K h c) pre mid post),
    occ-append i (blocks_of pre) (blocks_of mid ++ blocks_of post),
    occ-append i (blocks_of mid) (blocks_of post),
  )

module _ {K : Type 0} (cmp : Compare K) (ks lv h : ℕ) (t : BTree K) (T : Tree K (suc h))
    (pre : Kids K h) (k : K) (c : Tree K h) (post : Kids K h)
    (parts : T.kids ≡ pre ++ ((k, c) ∷ post)) (represents : Represents K ks lv (suc h) t T)
    (well_formed : WellFormed K ks lv (suc h) T)
    (distinct : (i : ℕ) → occ i (blocks K (suc h) T) ≤ 1) where
  abbrev pub with_kids : Kids K h → Tree K (suc h)
  with_kids mid = record T { kids = pre ++ (mid ++ post) }

  pub occ_kids :
      (i : ℕ)
      → occ i (blocks K (suc h) T)
        ≡ one_at T.index i
          + (occ i (blocks_of K h pre) + occ i (blocks K h c) + occ i (blocks_of K h post))
  occ_kids i =
      let e : occ i (blocks_of K h T.kids)
          ≡ occ i (blocks_of K h (pre ++ (((k, c) ∷ []) ++ post))) =
        ap (λ ks. occ i (blocks_of K h ks)) parts in
      omega (arith, e, occ_parts K h i pre ((k, c) ∷ []) post, occ-append i (blocks K h c) [])

  pub siblings : (P : K × Tree K h → Type 0) → All P T.kids → All P pre × P (k, c) × All P post
  siblings P all =
      let all' = subst (All P) parts all in
      let (p, q) = All-right P pre ((k, c) ∷ post) all' in
      (All-left P pre ((k, c) ∷ post) all', p, q)

  kept_lem :
      (t' : BTree K) (kids : Kids K h)
      → Grows (λ i. occ i (blocks K h c) + one_at T.index i) t t'
      → ((i : ℕ) → 1 ≤ occ i (blocks_of K h kids) → occ i (blocks K h c) + one_at T.index i ≡ 0)
      → All (λ (k, c). Represents K ks lv h t c) kids
      → All (λ (k, c). Represents K ks lv h t' c) kids
  kept_lem t' kids grows apart reps =
      All-apart _ _ (λ (k, c). blocks K h c) _
        (λ (k', c') a r. Represents-kept K ks lv h _ t t' c' grows a r) kids apart reps

  linked_lem :
      (mid : Kids K h)
      → ((a b : ℕ) → Linked a (leaves K h c) b → Linked a (leaves_of K h mid) b)
      → (a b : ℕ) → Linked a (leaves K (suc h) T) b
      → Linked a (leaves K (suc h) (with_kids mid)) b
  linked_lem mid linked a b l =
      let f = (λ (kid : K × Tree K h). leaves K h kid.1) in
      let l' : Linked a (leaves_of K h pre ++ (leaves K h c ++ leaves_of K h post)) b =
        subst (λ xs. Linked a xs b) (ap (flat f) parts ∙ flat-append f pre ((k, c) ∷ post)) l in
      let (m, l₁, r) = append-Linked a b (leaves_of K h pre) _ l' in
      let (m', l₂, l₃) = append-Linked m b (leaves K h c) _ r in
      subst (λ xs. Linked a xs b) (sym (flat_parts K h f pre mid post))
        (Linked-append a b m (leaves_of K h pre) _ l₁
          (Linked-append m b m' (leaves_of K h mid) _ (linked m m' l₂) l₃))

  -- The tree with other children in place of one that took the value.
  pub replaced_lem :
      (t' : BTree K) (key : K) (value : List ℕ) (v : Value) (mid : Kids K h)
      → entries K (suc h) (with_kids mid) ≡ insert_sorted cmp key v (entries K (suc h) T)
      → view_at t' T.index ≡ some (root_view K ks lv (suc h) (with_kids mid))
      → All (λ (k, c). Represents K ks lv h t' c) mid
      → All
          (λ (k, c).
            (last_key (entries K h c) ≡ some k)
            × WellFormed K ks lv h c
            × (width K h c < room ks lv h))
          mid
      → Grows (λ i. occ i (blocks K h c) + one_at T.index i) t t'
      → ((i : ℕ) → i < t.meta.count_of_block → occ i (blocks_of K h mid) ≡ occ i (blocks K h c))
      → ((i : ℕ) → t.meta.count_of_block ≤ i → occ i (blocks_of K h mid) ≤ 1)
      → Means K t' v value
      → (t'.meta.count_of_block ≤ t.meta.count_of_block + suc h + 1)
      → 0 < length mid
      → (length mid ≤ 2)
      → ((a b : ℕ) → Linked a (leaves K h c) b → Linked a (leaves_of K h mid) b)
      → Taken cmp ks lv (suc h) t T key value t' v (with_kids mid)
  replaced_lem t' key value v mid set at reps wfs grows old new means more some_kid two linked =
      let (pre_reps, c_rep, post_reps) =
        siblings (λ (k, c). Represents K ks lv h t c) represents.1 in
      let (pre_wfs, c_wf, post_wfs) = siblings _ well_formed.1 in
      let wider : length (pre ++ (mid ++ post)) ≡ length pre + length mid + length post =
        omega (arith, length-append pre (mid ++ post), length-append mid post) in
      let long : length T.kids ≡ length pre + 1 + length post =
        omega (arith, ap length parts, length-append pre ((k, c) ∷ post)) in
      record {
        represents = (
          at,
          All-append _ pre (mid ++ post)
              (kept_lem t' pre grows (λ i q. omega (arith, q, distinct i, occ_kids i)) pre_reps)
              (All-append _ mid post reps (
                kept_lem t' post grows (λ i q. omega (arith, q, distinct i, occ_kids i))
                  post_reps)),
        );
        well_formed = (
          omega (arith, wider),
          All-append _ pre (mid ++ post) pre_wfs (All-append _ mid post wfs post_wfs),
        );
        root_same = refl;
        next_same = refl;
        entries_set = set;
        means = means;
        grows =
            Grows-trans _ (λ i. 0) _ t t' t' (λ i q z. (omega (arith, z, occ_kids i), refl)) grows
              (Grows-refl _ t');
        old_blocks = λ i q. omega (arith, occ_parts K h i pre mid post, old i q, occ_kids i);
        new_blocks = λ i q.
            let none_old = Represents-used K ks lv (suc h) t T i represents q in
            omega (arith, occ_parts K h i pre mid post, new i q, occ_kids i, none_old);
        more = more;
        wider = omega (arith, wider, long);
        linked = λ a b l. linked_lem mid linked a b l;
      }

-- A parent `T` in `t`, and the tree `t₁` with `c'`, whose last key is `k'`, for its child `c`, which
-- has taken the value.
pub record ChildTaken {K : Type 0} (cmp : Compare K) (ks lv h : ℕ) (t : BTree K)
    (T : Tree K (suc h)) (pre : Kids K h) (k : K) (c : Tree K h) (post : Kids K h) (key : K)
    (value : List ℕ) (t₁ : BTree K) (v : Value) (c' : Tree K h) (k' : K) : Type 0 where
  pub parts : T.kids ≡ pre ++ ((k, c) ∷ post)
  pub represents : Represents K ks lv (suc h) t T
  pub well_formed : WellFormed K ks lv (suc h) T
  pub distinct : (i : ℕ) → occ i (blocks K (suc h) T) ≤ 1
  pub ascends : Ascends cmp (entries K (suc h) T)
  pub lead : AllLead t
  pub taken : Taken cmp ks lv h t c key value t₁ v c'
  pub last : last_key (entries K h c') ≡ some k'
  pub set :
      entries_of K h (pre ++ ((k', c') ∷ post)) ≡ insert_sorted cmp key v (entries K (suc h) T)
