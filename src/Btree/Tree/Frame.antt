-- ===== src/Btree/Tree/Frame.antt =====
-- What operations on other blocks leave of a tree that blocks represent.
use example_engine.Prelude.{
  ℕ, zero, suc, ◌≤◌, ◌≡◌, inl, inr, refl, sym, ap, ◌∙◌, Bool, some, List, [], ◌∷◌, ◌++◌, map, take,
  length, arith, append-nil,
}
use example_engine.Btree.Node.{bytes, Value, Slot}
use example_engine.Btree.Node.Sorted.{All, All-imp, last_key, last_key-append}
use example_engine.Btree.Tree.{BTree}
use example_engine.Btree.Tree.View.{Grows, view_at-used}
use example_engine.Btree.Tree.Shape.{
  Tree, flat, occ, occ-append, entries, blocks, kid_slot, HasPlace, Means, Represents,
}

pub length-map {ℓ κ} :
    {A : Type ℓ} {B : Type κ} (f : A → B) (xs : List A) → length (map f xs) ≡ length xs
length-map f [] = refl
length-map f (x ∷ xs) = ap suc (length-map f xs)

pub occ-flat_zero :
    {A : Type 0} (f : A → List ℕ) (i : ℕ) (xs : List A)
    → All (λ x. occ i (f x) ≡ 0) xs
    → occ i (flat f xs) ≡ 0
occ-flat_zero f i [] h = refl
occ-flat_zero f i (x ∷ xs) (e, h) =
    omega (arith, e, occ-flat_zero f i xs h, occ-append i (f x) (flat f xs))

-- what holds of lists of blocks that `o` counts none of
pub All-apart :
    {A : Type 0} (P Q : A → Type 0) (f : A → List ℕ) (o : ℕ → ℕ)
    → ((x : A) → ((i : ℕ) → 1 ≤ occ i (f x) → o i ≡ 0) → P x → Q x)
    → (xs : List A) → ((i : ℕ) → 1 ≤ occ i (flat f xs) → o i ≡ 0)
    → All P xs
    → All Q xs
All-apart P Q f o step [] apart h = tt
All-apart P Q f o step (x ∷ xs) apart (p, h) = (
  step x (λ i q. apart i (omega (arith, occ-append i (f x) (flat f xs)))) p,
  All-apart P Q f o step xs (λ i q. apart i (omega (arith, occ-append i (f x) (flat f xs)))) h,
)

module _ {K : Type 0} where
  const_same :
      (o : ℕ → ℕ) (t t' : BTree K) → Grows o t t' → t'.is_const_value_size ≡ t.is_const_value_size
  const_same o t t' g = ap (λ (s : ℕ × ℕ × ℕ × Bool × ℕ × ℕ). s.3) g.settings_same

  pub HasPlace-kept :
      (o : ℕ → ℕ) (t t' : BTree K) (s : Slot K) → Grows o t t' → HasPlace K t s → HasPlace K t' s
  HasPlace-kept o t t' s g (inl e) = inl (const_same o t t' g ∙ e)
  HasPlace-kept o t t' s g (inr (l, b, v, used, at)) =
      let (b', at', _) = g.data_ l.index b used at in
      inr (l, b', v, omega (arith, used, g.count), at')

  pub Means-kept :
      (o : ℕ → ℕ) (t t' : BTree K) (v : Value) (value : List ℕ)
      → Grows o t t'
      → Means K t v value
      → Means K t' v value
  Means-kept o t t' v value g (inl (e, f)) = inl (
    const_same o t t' g ∙ e,
    f ∙ ap (λ (s : ℕ × ℕ × ℕ × Bool × ℕ × ℕ). bytes (take s.2 value)) (sym g.settings_same),
  )
  Means-kept o t t' v value g (inr (l, b, off, f, used, at, found, read)) =
      let (b', at', same) = g.data_ l.index b used at in
      let (found', read') = same l.position off (length value) found in
      inr (l, b', off, f, omega (arith, used, g.count), at', found', read' ∙ read)

  pub Means-HasPlace :
      (t : BTree K) (s : Slot K) (value : List ℕ) → Means K t s.value value → HasPlace K t s
  Means-HasPlace t s value (inl (e, f)) = inl e
  Means-HasPlace t s value (inr (l, b, off, f, used, at, found, read)) = inr (l, b, f, used, at)

pub last_key-some :
    {K : Type 0} (x : Slot K) (xs : List (Slot K)) → (k : K) × (last_key (x ∷ xs) ≡ some k)
last_key-some x [] = (x.key, refl)
last_key-some x (y ∷ xs) = last_key-some y xs

pub last_key-append_some :
    {K : Type 0} (xs ys : List (Slot K)) (k : K)
    → last_key ys ≡ some k
    → last_key (xs ++ ys) ≡ some k
last_key-append_some xs [] k e = cc
last_key-append_some xs (y ∷ ys) k e = last_key-append xs y ys ∙ e

module _ (K : Type 0) where
  -- the last entry of children is under the last key
  pub last_key-kids :
      (h : ℕ) (kids : List (K × Tree K h))
      → All (λ (k, c). last_key (entries K h c) ≡ some k) kids
      → last_key (map (kid_slot K h) kids) ≡ last_key (flat (λ (k, c). entries K h c) kids)
  last_key-kids h [] all = refl
  last_key-kids h ((k, c) ∷ []) (e, all) = sym (ap last_key (append-nil (entries K h c)) ∙ e)
  last_key-kids h ((k, c) ∷ kid ∷ kids) (e, all) =
      let (l, f) = last_key-some (kid_slot K h kid) (map (kid_slot K h) kids) in
      f
      ∙ sym (last_key-append_some (entries K h c) _ l (sym (last_key-kids h (kid ∷ kids) all) ∙ f))

module _ (K : Type 0) (ks lv : ℕ) where
  -- blocks beyond those in use do not occur
  pub Represents-used :
      (h : ℕ) (t : BTree K) (T : Tree K h) (i : ℕ)
      → Represents K ks lv h t T
      → t.meta.count_of_block ≤ i
      → occ i (blocks K h T) ≡ 0
  Represents-used zero t T i (at, p) beyond = ground (arith, view_at-used t T.index _ at)
  Represents-used (suc h) t T i (at, kids) beyond =
      let rest : occ i (flat (λ (k, c). blocks K h c) T.kids) ≡ 0 =
        occ-flat_zero (λ (k, c). blocks K h c) i T.kids
          (All-imp _ _ (λ (k, c) r. Represents-used h t c i r beyond) T.kids kids) in
      ground (arith, view_at-used t T.index _ at, rest)

  -- A tree is represented still if none of its blocks is among those that were worked on.
  pub Represents-kept :
      (h : ℕ) (o : ℕ → ℕ) (t t' : BTree K) (T : Tree K h)
      → Grows o t t'
      → ((i : ℕ) → 1 ≤ occ i (blocks K h T) → o i ≡ 0)
      → Represents K ks lv h t T
      → Represents K ks lv h t' T
  Represents-kept zero o t t' T g apart (at, p) = (
    g.keep T.index _ at (apart T.index (ground arith)),
    All-imp _ _ (λ s h. HasPlace-kept o t t' s g h) T.items p,
  )
  Represents-kept (suc h) o t t' T g apart (at, kids) = (
    g.keep T.index _ at (apart T.index (ground arith)),
    All-apart _ _ (λ (k, c). blocks K h c) o (λ (k, c) a r. Represents-kept h o t t' c g a r) T.kids
        (λ i q. apart i (omega arith)) kids,
  )
