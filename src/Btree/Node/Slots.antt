-- ===== src/Btree/Node/Slots.antt =====
-- The items of a node as a list, for the operations that the tree makes on inner nodes and leaves.
use native.Mathlib.Decide.{dec_lt}
use example_engine.Prelude.{
  subst, take-append, drop-append, length-append, ℕ, zero, suc, ◌+◌, ◌-◌, ◌≤◌, ◌<◌, ◌≡◌, refl, sym,
  ap, ap₂, ◌∙◌, true, false, Option, some, List, [], ◌∷◌, ◌++◌, arith, ◌==◌, length, take, drop,
}
use example_engine.Btree.Order.{Compare, lt, IsOrder}
use example_engine.Btree.Node
use example_engine.Btree.Node.{Value, Slot, NodeBlock, or_old, lub, max_key}
use example_engine.Btree.Node.Search.{IsSorted, lub-Splits}
use example_engine.Btree.Node.Items.{
  items, slots, slots-agree, length-items, take-items, drop-items,
}
use example_engine.Btree.Node.Sorted.{All, Below, NotBelow, Ascends, last_key}

module _ {K : Type 0} where
  slots-All :
      (P : Slot K → Type 0) (kv : ℕ → Slot K) (a n : ℕ)
      → ((j : ℕ) → j < n → P (kv (a + j)))
      → All P (slots kv a n)
  unfolding slots
  slots-All P kv a zero h = tt
  slots-All P kv a (suc n) h = (
    (let e : a + 0 ≡ a = omega arith in rw e at (h 0 (omega arith))),
    slots-All P kv (a + 1) n
        (λ j q. let e : a + (j + 1) ≡ a + 1 + j = omega arith in rw e at (h (j + 1) (omega arith))),
  )

  All-slots :
      (P : Slot K → Type 0) (kv : ℕ → Slot K) (a n j : ℕ)
      → All P (slots kv a n)
      → j < n
      → P (kv (a + j))
  unfolding slots
  All-slots P kv a zero j h q = absurd (omega arith)
  All-slots P kv a (suc n) zero (p, h) q = let e : a + 0 ≡ a = omega arith in rw e p
  All-slots P kv a (suc n) (suc j) (p, h) q =
      let e : a + suc j ≡ a + 1 + j = omega arith in
      rw e (All-slots P kv (a + 1) n j h (omega arith))

  pub All-items :
      (P : Slot K → Type 0) (n : NodeBlock K) (i : ℕ) → All P (items n) → i < n.count → P (n.kv i)
  unfolding items
  All-items P n i h q =
      let e : 0 + i ≡ i = omega arith in rw e at (All-slots P n.kv 0 n.count i h q)

  slots_at :
      (kv : ℕ → Slot K) (a n : ℕ) (pre : List (Slot K)) (s : Slot K) (post : List (Slot K))
      → slots kv a n ≡ pre ++ (s ∷ post)
      → (kv (a + length pre) ≡ s) × (length pre < n)
  unfolding slots
  slots_at kv a zero [] s post e = cc
  slots_at kv a zero (p ∷ pre) s post e = cc
  slots_at kv a (suc n) [] s post e =
      let z : a + 0 ≡ a = omega arith in let f : kv a ≡ s = cc in (ap kv z ∙ f, omega arith)
  slots_at kv a (suc n) (p ∷ pre) s post e =
      let f : slots kv (a + 1) n ≡ pre ++ (s ∷ post) = cc in
      let (g, h) = slots_at kv (a + 1) n pre s post f in (ap kv (omega arith) ∙ g, omega (arith, h))

  -- the slot behind the first `i` items
  pub kv_at :
      (n : NodeBlock K) (i : ℕ) (pre : List (Slot K)) (s : Slot K) (post : List (Slot K))
      → items n ≡ pre ++ (s ∷ post)
      → i ≡ length pre
      → (n.kv i ≡ s) × (i < n.count)
  unfolding items
  kv_at n i pre s post e h =
      let (f, g) = slots_at n.kv 0 n.count pre s post e in
      (ap n.kv (omega arith) ∙ f, omega (arith, g))

  -- one slot changed
  slots_changed :
      (kv kv' : ℕ → Slot K) (i a n : ℕ) (pre : List (Slot K)) (s : Slot K) (post : List (Slot K))
      → ((j : ℕ) → (j == i) ≡ false → kv' j ≡ kv j)
      → i ≡ a + length pre
      → slots kv a n ≡ pre ++ (s ∷ post)
      → slots kv' a n ≡ pre ++ (kv' i ∷ post)
  unfolding slots
  slots_changed kv kv' i a zero [] s post keep h e = cc
  slots_changed kv kv' i a zero (p ∷ pre) s post keep h e = cc
  slots_changed kv kv' i a (suc n) [] s post keep h e =
      let f : slots kv (a + 1) n ≡ post = cc in
      ap₂ ◌∷◌ (ap kv' (omega arith))
        (slots-agree kv' kv (a + 1) (a + 1) n (λ j q. keep (a + 1 + j) (ground arith)) ∙ f)
  slots_changed kv kv' i a (suc n) (p ∷ pre) s post keep h e =
      let f : slots kv (a + 1) n ≡ pre ++ (s ∷ post) = cc in
      let g : kv a ≡ p = cc in
      ap₂ ◌∷◌ (keep a (ground arith) ∙ g)
        (slots_changed kv kv' i (a + 1) n pre s post keep (omega arith) f)

  pub items-set :
      (n : NodeBlock K) (i : ℕ) (k : Option K) (v : Option Value) (flag : ℕ) (pre : List (Slot K))
      (s : Slot K) (post : List (Slot K))
      → items n ≡ pre ++ (s ∷ post)
      → i ≡ length pre
      → items (Node.set n i k v flag)
        ≡ pre ++ (record { key = or_old k s.key; flag = flag; value = or_old v s.value } ∷ post)
  unfolding Node.set
  items-set n i k v flag pre s post e h =
      let (at, inside) = kv_at n i pre s post e h in
      let self : (i == i) ≡ true = ground arith in
      let new : (Node.set n i k v flag).kv i
          ≡ record { key = or_old k s.key; flag = flag; value = or_old v s.value } =
        rw (self, at) refl in
      unfold items in
      slots_changed n.kv (Node.set n i k v flag).kv i 0 n.count pre s post (λ j q. rw q refl)
        (omega arith) e
      ∙ ap (λ r. pre ++ (r ∷ post)) new

  last_slots : (kv : ℕ → Slot K) (a n : ℕ) → last_key (slots kv a (suc n)) ≡ some (kv (a + n)).key
  unfolding slots
  last_slots kv a zero = ap (λ j. some (kv j).key) (omega arith)
  last_slots kv a (suc n) = last_slots kv (a + 1) n ∙ ap (λ j. some (kv j).key) (omega arith)

  pub last_key-items : (n : NodeBlock K) → 0 < n.count → last_key (items n) ≡ some (max_key n)
  unfolding items max_key
  last_key-items n h =
      let e : n.count ≡ suc (n.count - 1) = omega arith in
      ap (λ c. last_key (slots n.kv 0 c)) e
      ∙ last_slots n.kv 0 (n.count - 1)
      ∙ ap (λ j. some (n.kv j).key) (omega arith)

  empty_items : (n : NodeBlock K) → n.count ≡ 0 → items n ≡ []
  unfolding items slots
  empty_items n z = rw z refl

  pub max_key-last : (n : NodeBlock K) (key : K) → last_key (items n) ≡ some key → max_key n ≡ key
  max_key-last n key h = elim (dec_lt 0 n.count) [
    | yes p ↦ let e = sym (last_key-items n p) ∙ h in cc
    | no p ↦ let e = sym h ∙ ap last_key (empty_items n (omega arith)) in cc
  ]

module _ {K : Type 0} (cmp : Compare K) where
  Ascends-slots :
      (kv : ℕ → Slot K) (a n : ℕ)
      → Ascends cmp (slots kv a n)
      → (i j : ℕ) → i < j
      → j < n
      → lt cmp (kv (a + i)).key (kv (a + j)).key ≡ true
  unfolding slots
  Ascends-slots kv a zero h i j p q = absurd (omega arith)
  Ascends-slots kv a (suc n) (over, h) i zero p q = absurd (omega arith)
  Ascends-slots kv a (suc n) (over, h) zero (suc j) p q =
      let e : a + 0 ≡ a = omega arith in
      let f : a + suc j ≡ a + 1 + j = omega arith in
      rw (e, f) (All-slots (λ r. lt cmp (kv a).key r.key ≡ true) kv (a + 1) n j over (omega arith))
  Ascends-slots kv a (suc n) (over, h) (suc i) (suc j) p q =
      let e : a + suc i ≡ a + 1 + i = omega arith in
      let f : a + suc j ≡ a + 1 + j = omega arith in
      rw (e, f) (Ascends-slots kv (a + 1) n h i j (omega arith) (omega arith))

  pub IsSorted-Ascends : (n : NodeBlock K) → Ascends cmp (items n) → IsSorted cmp n
  unfolding items
  IsSorted-Ascends n h i j p q =
      let e : 0 + i ≡ i = omega arith in
      let f : 0 + j ≡ j = omega arith in rw (e, f) at (Ascends-slots n.kv 0 n.count h i j p q)

  module _ (order : IsOrder cmp) (n : NodeBlock K) (key : K) (ascends : Ascends cmp (items n)) where
    -- `lub` parts the items at the key
    pub lub_parts :
        (lub cmp n key ≤ n.count)
        × Below cmp key (take (lub cmp n key) (items n))
        × NotBelow cmp key (drop (lub cmp n key) (items n))
    lub_parts =
        let k = lub cmp n key in
        let (inside, below, above) = lub-Splits cmp order n key (IsSorted-Ascends n ascends) in
        (
          inside,
          rw (take-items n k inside)
              (slots-All _ n.kv 0 k (λ j q. let e : 0 + j ≡ j = omega arith in rw e (below j q))),
          rw (drop-items n k inside)
              (slots-All _ n.kv k (n.count - k) (λ j q. above (k + j) (omega arith) (omega arith))),
        )

    -- where the items part at the key, there is `lub`
    pub lub_at :
        (pre post : List (Slot K))
        → items n ≡ pre ++ post
        → Below cmp key pre
        → NotBelow cmp key post
        → lub cmp n key ≡ length pre
    lub_at pre post e b nb =
        let k = length pre in
        let r = lub cmp n key in
        let fits : k ≤ n.count =
          omega (arith, length-append pre post, ap length e, length-items n) in
        let front : slots n.kv 0 k ≡ pre =
          sym (take-items n k fits) ∙ ap (take k) e ∙ take-append pre post k refl in
        let back : slots n.kv k (n.count - k) ≡ post =
          sym (drop-items n k fits) ∙ ap (drop k) e ∙ drop-append pre post k refl in
        let (inside, below, above) = lub-Splits cmp order n key (IsSorted-Ascends n ascends) in
        elim (dec_lt r k) [
          | yes q ↦
              let x : lt cmp (n.kv (0 + r)).key key ≡ true =
                All-slots (λ s. lt cmp s.key key ≡ true) n.kv 0 k r
                  (subst (Below cmp key) (sym front) b) q in
              let z : 0 + r ≡ r = omega arith in
              let y = above r (omega arith) (omega arith) in absurd (ground (arith, rw z at x, y))
          | no q ↦ elim (dec_lt k r) [
            | yes q' ↦
                let x : lt cmp (n.kv (k + 0)).key key ≡ false =
                  All-slots (λ s. lt cmp s.key key ≡ false) n.kv k (n.count - k) 0
                    (subst (NotBelow cmp key) (sym back) nb) (omega arith) in
                let z : k + 0 ≡ k = omega arith in absurd (ground (arith, below k q', rw z at x))
            | no q' ↦ omega arith
          ]
        ]
