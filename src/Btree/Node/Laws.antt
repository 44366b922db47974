-- ===== src/Btree/Node/Laws.antt =====
-- What a node keeps: the order of its keys through every operation, and its items through a split
-- that is merged again and an insertion that is removed again.
use example_engine.Prelude.{
  ℕ, zero, suc, ◌+◌, ◌-◌, ◌/◌, ◌≤◌, ◌<◌, ◌≡◌, refl, sym, ap, ap₂, ◌∙◌, true, false, some, List, [],
  ◌∷◌, ◌++◌, arith, length, length-take, take, drop, take-append, take-append-drop,
}
use example_engine.Btree.Order.{Compare, lt, same, IsOrder, lt_cases}
use example_engine.Btree.Node.{
  Value, NodeBlock, size_of_item, size, inserted, insert_at, split, merge, deleted, remove, insert,
  lub,
}
use example_engine.Btree.Node.Search.{IsSorted, Splits, lub-Splits}
use example_engine.Btree.Node.Items.{
  items, new_slot, insert_at-eq-some, count-inserted, items-inserted, items-split, items-merge,
  remove-eq-some, items-deleted, length-items, lower, upper,
}

module _ {K : Type 0} (cmp : Compare K) (order : IsOrder cmp) where
  -- no item of the node has the key
  abbrev pub IsAbsent : NodeBlock K → K → Type 0
  IsAbsent n key = (i : ℕ) → i < n.count → same cmp (n.kv i).key key ≡ false

  inserted-IsSorted :
      (n : NodeBlock K) (key : K) (value : Value) (i : ℕ)
      → n.count < size n
      → IsSorted cmp n
      → IsAbsent n key
      → Splits cmp n key i
      → IsSorted cmp (inserted n key value i)
  unfolding inserted
  inserted-IsSorted n key value i room sorted absent (inside, below, above) p q h k =
      let c : (inserted n key value i).count ≡ n.count + 1 =
        count-inserted n key value i inside room in
      ground (
        arith,
        c,
        sorted p q,
        sorted p (q - 1),
        sorted (p - 1) (q - 1),
        below p,
        above (q - 1),
        absent (q - 1),
        lt_cases cmp order (n.kv (q - 1)).key key,
      )

  deleted-IsSorted :
      (n : NodeBlock K) (i : ℕ) → i < n.count → IsSorted cmp n → IsSorted cmp (deleted n i)
  unfolding deleted
  deleted-IsSorted n i h sorted p q g k =
      ground (arith, sorted p q, sorted p (q + 1), sorted (p + 1) (q + 1))

  -- Inserting a key that a node with room does not hold, where its keys ascend, succeeds and keeps
  -- them ascending: the new item, with its flag set, stands between the items below the key and
  -- those above it, and all items keep their order.
  pub insert-IsSorted :
      (n : NodeBlock K) (key : K) (value : Value)
      → n.count < size n
      → IsSorted cmp n
      → IsAbsent n key
      → (n' : NodeBlock K) × (insert cmp n key value ≡ some n')
        × IsSorted cmp n'
        × (items n'
            ≡ take (lub cmp n key) (items n)
              ++ (new_slot key value ∷ drop (lub cmp n key) (items n)))
        × Splits cmp n key (lub cmp n key)
  unfolding insert
  insert-IsSorted n key value room sorted absent =
      let i = lub cmp n key in
      let s : Splits cmp n key i = lub-Splits cmp order n key sorted in
      (
        inserted n key value i,
        insert_at-eq-some n key value i s.0 room,
        inserted-IsSorted n key value i room sorted absent s,
        items-inserted n key value i s.0 room,
        s,
      )

  -- A node of at least two items whose keys ascend is split into two nodes that are not empty and
  -- not full, that hold the old items in their order, whose keys ascend, and of which the first has
  -- only keys below those of the second.
  pub split-IsSorted :
      (n next : NodeBlock K)
      → 2 ≤ n.count
      → n.count ≤ size n
      → size next ≡ size n
      → IsSorted cmp n
      → (items n ≡ items (lower n next) ++ items (upper n next))
        × IsSorted cmp (lower n next)
        × IsSorted cmp (upper n next)
        × ((i j : ℕ)
            → i < (lower n next).count
            → j < (upper n next).count
            → lt cmp ((lower n next).kv i).key ((upper n next).kv j).key ≡ true)
        × (0 < (lower n next).count)
        × (0 < (upper n next).count)
        × ((lower n next).count < size (lower n next))
        × ((upper n next).count < size (upper n next))
  split-IsSorted n next two fits same_size sorted = (
    (items-split n next).0,
    unfold split in (λ p q g k. sorted p q g (omega arith)),
    unfold split in
        (λ p q g k. ground (arith, sorted ((n.count + 1) / 2 + p) ((n.count + 1) / 2 + q))),
    unfold split in (λ i j p q. ground (arith, sorted i ((n.count + 1) / 2 + j))),
    unfold split in omega arith,
    unfold split in omega arith,
    unfold split size size_of_item in omega arith,
    unfold split size size_of_item in omega arith,
  )

-- Merging the two halves of a split back gives a node with the old items; it stands in the chain in
-- front of what the second half was in front of.
pub merge-split :
    {K : Type 0} (n next : NodeBlock K)
    → n.count < 65536
    → (items (merge (lower n next) (upper n next)) ≡ items n)
      × ((merge (lower n next) (upper n next)).count ≡ n.count)
      × ((merge (lower n next) (upper n next)).header.next ≡ next.header.next)
merge-split n next small =
    let (parts, l, r) = items-split n next in
    (
      items-merge (lower n next) (upper n next) (omega (arith, l, r)) ∙ sym parts,
      unfold merge split in omega arith,
      unfold merge split in refl,
    )

take_insert :
    {A : Type 0} (xs : List A) (a : A) (i : ℕ)
    → i ≤ length xs
    → take i (take i xs ++ (a ∷ drop i xs)) ≡ take i xs
take_insert xs a i h = take-append (take i xs) (a ∷ drop i xs) i (omega (arith, length-take i xs))

drop_insert :
    {A : Type 0} (xs : List A) (a : A) (i k : ℕ)
    → i ≤ length xs
    → k ≡ i + 1
    → drop k (take i xs ++ (a ∷ drop i xs)) ≡ drop i xs
drop_insert xs a i zero h e = absurd (omega arith)
drop_insert xs a zero (suc k) h e = let z : k ≡ 0 = omega arith in rw z
drop_insert [] a (suc i) (suc k) h e = absurd (omega arith)
drop_insert (x ∷ xs) a (suc i) (suc k) h e = drop_insert xs a i k (omega arith) (omega arith)

-- An item that was inserted in a node with room can be removed at the index where it stands, which
-- gives the old items back.
pub remove-insert_at :
    {K : Type 0} (n : NodeBlock K) (key : K) (value : Value) (i : ℕ)
    → i ≤ n.count
    → n.count < size n
    → (m n' : NodeBlock K) × (insert_at n key value i ≡ some m)
      × (remove m i ≡ some n')
      × (items n' ≡ items n)
remove-insert_at n key value i inside room =
    let m = inserted n key value i in
    let s = new_slot key value in
    let c = count-inserted n key value i inside room in
    let bound : i ≤ length (items n) = omega (arith, length-items n) in
    let new = items-inserted n key value i inside room in
    (
      m,
      deleted m i,
      insert_at-eq-some n key value i inside room,
      remove-eq-some m i (omega (arith, c)),
      items-deleted m i (omega (arith, c))
          ∙ ap₂ ◌++◌ (ap (take i) new ∙ take_insert (items n) s i bound)
              (ap (drop (i + 1)) new ∙ drop_insert (items n) s i (i + 1) bound refl)
          ∙ take-append-drop i (items n),
    )
