-- ===== src/Btree/Node/Items.antt =====
-- The items of a node as a list, and what `insert`, `split`, `merge` and `remove` do to it.
use example_engine.Prelude.{
  ℕ, zero, suc, ◌+◌, ◌-◌, ◌/◌, ◌≤◌, ◌<◌, ◌≡◌, refl, sym, ap, ap₂, ◌∙◌, some, List, [], ◌∷◌, ◌++◌,
  arith, le→leb, lt→ltb, length, take, drop, take-append, drop-append,
}
use example_engine.Btree.Node.{
  Value, Slot, NodeBlock, size, kv_insert, inserted, insert_at, split, merge, deleted, remove,
}

module _ {K : Type 0} where
  -- `n` slots from index `a` on
  unfoldable pub slots : (ℕ → Slot K) → ℕ → ℕ → List (Slot K)
  slots kv a zero = []
  slots kv a (suc n) = kv a ∷ slots kv (a + 1) n

  unfoldable pub items : NodeBlock K → List (Slot K)
  items n = slots n.kv 0 n.count

  pub length-slots : (kv : ℕ → Slot K) (a n : ℕ) → length (slots kv a n) ≡ n
  unfolding slots
  length-slots kv a zero = refl
  length-slots kv a (suc n) = ap suc (length-slots kv (a + 1) n)

  pub slots-agree :
      (kv kv' : ℕ → Slot K) (a b n : ℕ)
      → ((j : ℕ) → j < n → kv (a + j) ≡ kv' (b + j))
      → slots kv a n ≡ slots kv' b n
  unfolding slots
  slots-agree kv kv' a b zero h = refl
  slots-agree kv kv' a b (suc n) h =
      ap₂ ◌∷◌ (ap kv (omega arith) ∙ h 0 (omega arith) ∙ ap kv' (omega arith)) (
        slots-agree kv kv' (a + 1) (b + 1) n
          (λ j p. ap kv (omega arith) ∙ h (j + 1) (omega arith) ∙ ap kv' (omega arith)))

  pub slots-append :
      (kv : ℕ → Slot K) (a m n k : ℕ)
      → k ≡ m + n
      → slots kv a k ≡ slots kv a m ++ slots kv (a + m) n
  unfolding slots
  slots-append kv a zero n k h =
      let e : k ≡ n = omega arith in rw e (ap (λ b. slots kv b n) (omega arith))
  slots-append kv a (suc m) n zero h = absurd (omega arith)
  slots-append kv a (suc m) n (suc k) h =
      ap (λ r. kv a ∷ r)
        (slots-append kv (a + 1) m n k (omega arith)
          ∙ ap (λ b. slots kv (a + 1) m ++ slots kv b n) (omega arith))

  pub length-items : (n : NodeBlock K) → length (items n) ≡ n.count
  unfolding items
  length-items n = length-slots n.kv 0 n.count

  -- a node keeps fewer items than a `u16` counts
  pub size-lt : (n : NodeBlock K) → size n < 65535
  unfolding size
  size-lt n = grind arith

  module _ (n : NodeBlock K) (i : ℕ) (inside : i ≤ n.count) where
    items-parts : items n ≡ slots n.kv 0 i ++ slots n.kv i (n.count - i)
    unfolding items
    items-parts =
        slots-append n.kv 0 i (n.count - i) n.count (omega arith)
        ∙ ap (λ b. slots n.kv 0 i ++ slots n.kv b (n.count - i)) (omega arith)

    pub take-items : take i (items n) ≡ slots n.kv 0 i
    take-items = rw items-parts (take-append (slots n.kv 0 i) _ i (sym (length-slots n.kv 0 i)))

    pub drop-items : drop i (items n) ≡ slots n.kv i (n.count - i)
    drop-items = rw items-parts (drop-append (slots n.kv 0 i) _ i (sym (length-slots n.kv 0 i)))

  abbrev pub new_slot : K → Value → Slot K
  new_slot key value = record { key = key; flag = 1; value = value }

  module _ (n : NodeBlock K) (key : K) (value : Value) (i : ℕ) (inside : i ≤ n.count)
      (room : n.count < size n) where
    pub insert_at-eq-some : insert_at n key value i ≡ some (inserted n key value i)
    unfolding insert_at
    insert_at-eq-some = rw (le→leb i n.count inside, lt→ltb n.count (size n) room)

    pub count-inserted : (inserted n key value i).count ≡ n.count + 1
    unfolding inserted
    count-inserted = omega (arith, size-lt n)

    -- The new item stands in front of the items from `i` on, which keep their order.
    pub items-inserted :
        items (inserted n key value i) ≡ take i (items n) ++ (new_slot key value ∷ drop i (items n))
    unfolding inserted slots
    items-inserted =
        let kv' = kv_insert n.kv n.count i (new_slot key value) in
        unfold items in
        ap (slots kv' 0) count-inserted
        ∙ slots-append kv' 0 i (suc (n.count - i)) (n.count + 1) (omega arith)
        ∙ ap₂ ◌++◌ (slots-agree kv' n.kv 0 0 i (λ j h. ground arith) ∙ sym (take-items n i inside))
            (ap₂ ◌∷◌ (ground arith) (
              slots-agree kv' n.kv (0 + i + 1) i (n.count - i) (λ j h. ground arith)
              ∙ sym (drop-items n i inside)))

  -- The two nodes after a split hold the old items between them, the first half rounded up.
  pub items-split :
      (n next : NodeBlock K)
      → let (l, r) = split n next in
        (items n ≡ items l ++ items r) × (l.count ≡ (n.count + 1) / 2) × (r.count ≡ n.count / 2)
  unfolding split items
  items-split n next =
      let kv' = (split n next).1.kv in
      (
        slots-append n.kv 0 ((n.count + 1) / 2) (n.count / 2) n.count (omega arith)
            ∙ ap (λ r. slots n.kv 0 ((n.count + 1) / 2) ++ r)
                (slots-agree n.kv kv' (0 + (n.count + 1) / 2) 0 (n.count / 2)
                  (λ j h. ground arith)),
        refl,
        refl,
      )

  -- The merged node holds the items of both, those of `next` last.
  pub items-merge :
      (n next : NodeBlock K)
      → n.count + next.count < 65536
      → items (merge n next) ≡ items n ++ items next
  unfolding merge items
  items-merge n next small =
      let kv' = (merge n next).kv in
      slots-append kv' 0 n.count next.count (merge n next).count (omega arith)
      ∙ ap₂ ◌++◌ (slots-agree kv' n.kv 0 0 n.count (λ j h. ground arith))
          (slots-agree kv' next.kv (0 + n.count) 0 next.count (λ j h. ground arith))

  module _ (n : NodeBlock K) (i : ℕ) (inside : i < n.count) where
    pub remove-eq-some : remove n i ≡ some (deleted n i)
    unfolding remove
    remove-eq-some = rw (lt→ltb i n.count inside)

    pub items-deleted : items (deleted n i) ≡ take i (items n) ++ drop (i + 1) (items n)
    unfolding deleted
    items-deleted =
        let kv' = (deleted n i).kv in
        unfold items in
        slots-append kv' 0 i (n.count - 1 - i) (n.count - 1) (omega arith)
        ∙ ap₂ ◌++◌
            (slots-agree kv' n.kv 0 0 i (λ j h. ground arith) ∙ sym (take-items n i (omega arith)))
            (slots-agree kv' n.kv (0 + i) (i + 1) (n.count - 1 - i) (λ j h. ground arith)
              ∙ ap (slots n.kv (i + 1)) (omega arith)
              ∙ sym (drop-items n (i + 1) (omega arith)))

-- the two nodes after a split
abbrev pub lower : {K : Type 0} → NodeBlock K → NodeBlock K → NodeBlock K
lower n next = (split n next).0

abbrev pub upper : {K : Type 0} → NodeBlock K → NodeBlock K → NodeBlock K
upper n next = (split n next).1
