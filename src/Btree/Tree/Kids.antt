-- ===== src/Btree/Tree/Kids.antt =====
-- The children of an inner node: their keys ascend as their entries do, and `lub` finds the child
-- that a key belongs to.
use example_engine.Prelude.{
  ℕ, zero, suc, ◌+◌, ◌<◌, ◌≡◌, ◌⊎◌, inl, inr, refl, sym, ap, ◌∙◌, subst, true, false, some, List,
  [], ◌∷◌, ◌++◌, map, length, take, drop, take-append-drop, ◌==◌, arith, length-append, length-take,
  append-nil,
}
use example_engine.Btree.Order.{Compare, lt, IsOrder}
use example_engine.Btree.Node.{Slot, NodeBlock, lub}
use example_engine.Btree.Node.Items.{items, length-items}
use example_engine.Btree.Node.Sorted.{
  All, All-append, All-left, All-right, Below, NotBelow, Ascends, Ascends-append, last_key,
}
use example_engine.Btree.Node.Slots.{lub_parts}
use example_engine.Btree.Tree.Insert.{child_index}
use example_engine.Btree.Tree.Shape.{Tree, flat, entries, kid_slot}
use example_engine.Btree.Tree.Frame.{length-map}

pub take-map {ℓ κ} :
    {A : Type ℓ} {B : Type κ} (f : A → B) (n : ℕ) (xs : List A)
    → take n (map f xs) ≡ map f (take n xs)
take-map f zero xs = refl
take-map f (suc n) [] = refl
take-map f (suc n) (x ∷ xs) = ap (λ r. f x ∷ r) (take-map f n xs)

pub drop-map {ℓ κ} :
    {A : Type ℓ} {B : Type κ} (f : A → B) (n : ℕ) (xs : List A)
    → drop n (map f xs) ≡ map f (drop n xs)
drop-map f zero xs = refl
drop-map f (suc n) [] = refl
drop-map f (suc n) (x ∷ xs) = drop-map f n xs

pub map-append {ℓ κ} :
    {A : Type ℓ} {B : Type κ} (f : A → B) (xs ys : List A) → map f (xs ++ ys) ≡ map f xs ++ map f ys
map-append f [] ys = refl
map-append f (x ∷ xs) ys = ap (λ r. f x ∷ r) (map-append f xs ys)

-- a list that is not empty and its last element
pub split_last {ℓ} :
    {A : Type ℓ} (xs : List A) → 0 < length xs → (pre : List A) × (x : A) × (xs ≡ pre ++ (x ∷ []))
split_last [] h = absurd (omega arith)
split_last (x ∷ []) h = ([], x, refl)
split_last (x ∷ y ∷ ys) h =
    let (pre, z, e) = split_last (y ∷ ys) (omega arith) in (x ∷ pre, z, ap (λ r. x ∷ r) e)

-- what holds of all keys holds of the last
pub All-last :
    {K : Type 0} (P : K → Type 0) (xs : List (Slot K)) (k : K)
    → All (λ s. P s.key) xs
    → last_key xs ≡ some k
    → P k
All-last P [] k h e = cc
All-last P (x ∷ []) k (p, h) e = let f : x.key ≡ k = cc in subst P f p
All-last P (x ∷ y ∷ ys) k (p, h) e = All-last P (y ∷ ys) k h e

module _ {K : Type 0} (cmp : Compare K) (order : IsOrder cmp) where
  -- a key above the last is above all
  pub Below-last :
      (xs : List (Slot K)) (k key : K)
      → Ascends cmp xs
      → last_key xs ≡ some k
      → lt cmp k key ≡ true
      → Below cmp key xs
  Below-last [] k key h e l = tt
  Below-last (x ∷ []) k key h e l = let f : x.key ≡ k = cc in (rw f l, tt)
  Below-last (x ∷ y ∷ ys) k key (over, h) e l = (
    order.lt_trans x.key k key (All-last (λ j. lt cmp x.key j ≡ true) (y ∷ ys) k over e) l,
    Below-last (y ∷ ys) k key h e l,
  )

  -- children under the last keys of their entries
  abbrev pub Keyed : (h : ℕ) → List (K × Tree K h) → Type 0
  Keyed h = All (λ (k, c). last_key (entries K h c) ≡ some k)

  keys_over :
      (h : ℕ) (a : K) (kids : List (K × Tree K h))
      → Keyed h kids
      → All (λ s. lt cmp a s.key ≡ true) (flat (λ (k, c). entries K h c) kids)
      → All (λ s. lt cmp a s.key ≡ true) (map (kid_slot K h) kids)
  keys_over h a [] keyed over = tt
  keys_over h a ((k, c) ∷ kids) (e, keyed) over = (
    All-last (λ j. lt cmp a j ≡ true) (entries K h c) k
        (All-left _ (entries K h c) (flat (λ (k, c). entries K h c) kids) over) e,
    keys_over h a kids keyed
        (All-right _ (entries K h c) (flat (λ (k, c). entries K h c) kids) over),
  )

  pub Ascends-kids :
      (h : ℕ) (kids : List (K × Tree K h))
      → Keyed h kids
      → Ascends cmp (flat (λ (k, c). entries K h c) kids)
      → Ascends cmp (map (kid_slot K h) kids)
  Ascends-kids h [] keyed asc = tt
  Ascends-kids h ((k, c) ∷ kids) (e, keyed) asc =
      let (l, r, cross) =
        Ascends-append cmp (entries K h c) (flat (λ (k, c). entries K h c) kids) asc in
      let rest : List (Slot K) = flat (λ (k, c). entries K h c) kids in
      (
        keys_over h k kids keyed
            (All-last (λ j. All (λ s. lt cmp j s.key ≡ true) rest) (entries K h c) k cross e),
        Ascends-kids h kids keyed r,
      )

  -- entries below children whose keys are below a key
  pub Below-kids :
      (h : ℕ) (key : K) (kids : List (K × Tree K h))
      → Keyed h kids
      → Ascends cmp (flat (λ (k, c). entries K h c) kids)
      → Below cmp key (map (kid_slot K h) kids)
      → Below cmp key (flat (λ (k, c). entries K h c) kids)
  Below-kids h key [] keyed asc below = tt
  Below-kids h key ((k, c) ∷ kids) (e, keyed) asc (b, below) =
      let (l, r, cross) =
        Ascends-append cmp (entries K h c) (flat (λ (k, c). entries K h c) kids) asc in
      All-append _ (entries K h c) (flat (λ (k, c). entries K h c) kids)
        (Below-last (entries K h c) k key l e b) (Below-kids h key kids keyed r below)

  -- The child for a key: the first that is not below it, or the last for a key above all.
  abbrev pub Chosen : (h : ℕ) → NodeBlock K → K → List (K × Tree K h) → Type 0
  Chosen h n key kids =
      (pre : List (K × Tree K h)) × (k : K) × (c : Tree K h) × (post : List (K × Tree K h)) × (kids
        ≡ pre ++ ((k, c) ∷ post))
      × (child_index n (lub cmp n key) ≡ length pre)
      × Below cmp key (map (kid_slot K h) pre)
      × (((lt cmp k key ≡ false) × ((lub cmp n key == n.count) ≡ false))
          ⊎ ((post ≡ []) × (lt cmp k key ≡ true) × ((lub cmp n key == n.count) ≡ true)))

  pick_lem :
      (h : ℕ) (n : NodeBlock K) (key : K) (kids lowers uppers : List (K × Tree K h))
      → kids ≡ lowers ++ uppers
      → 0 < length kids
      → n.count ≡ length kids
      → lub cmp n key ≡ length lowers
      → Below cmp key (map (kid_slot K h) lowers)
      → NotBelow cmp key (map (kid_slot K h) uppers)
      → Chosen h n key kids
  pick_lem h n key kids lowers ((k, c) ∷ uppers) e some_kid count at below (above, rest) =
      let q : (lub cmp n key == n.count) ≡ false =
        ground (arith, at, count, ap length e, length-append lowers ((k, c) ∷ uppers)) in
      (lowers, k, c, uppers, e, rw q at, below, inl (above, q))
  pick_lem h n key kids lowers [] e some_kid count at below above =
      let f : kids ≡ lowers = e ∙ append-nil lowers in
      let (pre, (k, c), g) = split_last lowers (omega (arith, ap length f)) in
      let q : (lub cmp n key == n.count) ≡ true = ground (arith, at, count, ap length f) in
      let long : length lowers ≡ length pre + 1 = ap length g ∙ length-append pre ((k, c) ∷ []) in
      let parts : Below cmp key (map (kid_slot K h) pre ++ (kid_slot K h (k, c) ∷ [])) =
        subst (Below cmp key)
          (ap (map (kid_slot K h)) g ∙ map-append (kid_slot K h) pre ((k, c) ∷ [])) below in
      (
        pre,
        k,
        c,
        [],
        f ∙ g,
        rw q (omega (arith, at, long)),
        All-left _ (map (kid_slot K h) pre) (kid_slot K h (k, c) ∷ []) parts,
        inr (refl, (All-right _ (map (kid_slot K h) pre) (kid_slot K h (k, c) ∷ []) parts).0, q),
      )

  pub lub-Chosen :
      (h : ℕ) (n : NodeBlock K) (key : K) (kids : List (K × Tree K h))
      → items n ≡ map (kid_slot K h) kids
      → 0 < length kids
      → Ascends cmp (items n)
      → Chosen h n key kids
  lub-Chosen h n key kids e some_kid asc =
      let i = lub cmp n key in
      let (inside, below, above) = lub_parts cmp order n key asc in
      let count : n.count ≡ length kids =
        omega (arith, length-items n, ap length e, length-map (kid_slot K h) kids) in
      pick_lem h n key kids (take i kids) (drop i kids) (sym (take-append-drop i kids)) some_kid
        count (omega (arith, length-take i kids))
        (subst (Below cmp key) (ap (take i) e ∙ take-map (kid_slot K h) i kids) below)
        (subst (NotBelow cmp key) (ap (drop i) e ∙ drop-map (kid_slot K h) i kids) above)
