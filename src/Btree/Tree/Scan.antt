-- ===== src/Btree/Tree/Scan.antt =====
-- `next` along the chain of leaves: it stops at the first item behind that was not removed.
use example_engine.Prelude.{
  ℕ, zero, suc, ◌+◌, ◌-◌, ◌≤◌, ◌<◌, ◌≡◌, ◌≢◌, refl, sym, subst, Bool, true, false, Option, none,
  some, List, [], ◌∷◌, ◌++◌, arith, ltb, ◌==◌, length, if◌then◌else◌, Bool-cases, inl, inr, lt→ltb,
}
use example_engine.Btree.Node
use example_engine.Btree.Node.{NodeBlock}
use example_engine.Btree.Tree.{node, BTree, get_node_block}
use example_engine.Btree.Tree.Iterator.{Iterator, at_first, step_next, skip_next, skip_fuel, next}

-- a position in a leaf, and whether its item is removed
abbrev pub Item : Type 0
Item = Iterator × Bool

-- the first item that was not removed
abbrev pub first_live : List Item → Option Iterator
first_live [] = none
first_live ((it, removed) ∷ items) =
    let rest = first_live items in if removed then rest else some it

-- A move has come to an iterator, or to the end.
abbrev pub Arrives : Option Iterator → Option (Bool × Iterator) → Type 0
Arrives (some it) moved = moved ≡ some (true, it)
Arrives none moved = (it : Iterator) × (moved ≡ some (false, it))

module _ {K : Type 0} where
  -- so many items of a leaf, from one on
  abbrev pub leaf_items : ℕ → NodeBlock K → ℕ → ℕ → List Item
  leaf_items i n k zero = []
  leaf_items i n k (suc left) =
      (record { cur = i; index = k }, Node.removed n k) ∷ leaf_items i n (k + 1) left

  -- the items of a chain of leaves, the first of them at `i`
  abbrev pub chain_items : ℕ → List (NodeBlock K) → List Item
  chain_items i [] = []
  chain_items i (n ∷ ns) = leaf_items i n 0 n.count ++ chain_items n.header.next ns

  -- The leaves that follow each other by `next` from the block at `i`; none is empty.
  abbrev pub Leaves : BTree K → ℕ → List (NodeBlock K) → Type 0
  Leaves t i [] = i ≡ 0
  Leaves t i (n ∷ ns) =
      (i ≢ 0)
      × (i < t.meta.count_of_block)
      × (t.blocks i ≡ node n)
      × (0 < n.count)
      × Leaves t n.header.next ns

  module _ (t : BTree K) where
    step_inside :
        (i k : ℕ) (n : NodeBlock K)
        → t.blocks i ≡ node n
        → k + 1 < n.count
        → step_next t (record { cur = i; index = k })
          ≡ some (true, record { cur = i; index = k + 1 })
    unfolding step_next
    step_inside i k n e h = rw (e, lt→ltb (k + 1) n.count h) refl

    step_end :
        (i k : ℕ) (n : NodeBlock K)
        → t.blocks i ≡ node n
        → k + 1 ≡ n.count
        → n.header.next ≡ 0
        → step_next t (record { cur = i; index = k }) ≡ some (false, record { cur = i; index = k })
    unfolding step_next
    step_end i k n e h z =
        let a : ltb (k + 1) n.count ≡ false = ground arith in
        let b : ((k + 1) == n.count) ≡ true = ground arith in
        let c : (n.header.next == 0) ≡ true = ground arith in rw (e, a, b, c) refl

    step_over :
        (i k : ℕ) (n m : NodeBlock K)
        → t.blocks i ≡ node n
        → k + 1 ≡ n.count
        → n.header.next ≢ 0
        → n.header.next < t.meta.count_of_block
        → t.blocks n.header.next ≡ node m
        → step_next t (record { cur = i; index = k }) ≡ some (true, at_first n.header.next)
    unfolding step_next get_node_block
    step_over i k n m e h z used f =
        let a : ltb (k + 1) n.count ≡ false = ground arith in
        let b : ((k + 1) == n.count) ≡ true = ground arith in
        let c : (n.header.next == 0) ≡ false = ground (arith, z) in
        rw (e, a, b, c, lt→ltb n.header.next t.meta.count_of_block used, f) refl

    skip_live :
        (fuel i k : ℕ) (n : NodeBlock K)
        → t.blocks i ≡ node n
        → Node.removed n k ≡ false
        → skip_next (suc fuel) t (record { cur = i; index = k })
          ≡ some (true, record { cur = i; index = k })
    unfolding skip_next
    skip_live fuel i k n e live = rw (e, live) refl

    skip_step :
        (fuel i k : ℕ) (n : NodeBlock K) (it : Iterator)
        → t.blocks i ≡ node n
        → Node.removed n k ≡ true
        → step_next t (record { cur = i; index = k }) ≡ some (true, it)
        → skip_next (suc fuel) t (record { cur = i; index = k }) ≡ skip_next fuel t it
    unfolding skip_next
    skip_step fuel i k n it e gone s = rw (e, gone, s) refl

    skip_end :
        (fuel i k : ℕ) (n : NodeBlock K) (it : Iterator)
        → t.blocks i ≡ node n
        → Node.removed n k ≡ true
        → step_next t (record { cur = i; index = k }) ≡ some (false, it)
        → skip_next (suc fuel) t (record { cur = i; index = k }) ≡ some (false, it)
    unfolding skip_next
    skip_end fuel i k n it e gone s = rw (e, gone, s) refl

    next_step :
        (i k : ℕ) (it : Iterator)
        → step_next t (record { cur = i; index = k }) ≡ some (true, it)
        → next t (record { cur = i; index = k }) ≡ skip_next (skip_fuel t) t it
    unfolding next
    next_step i k it s = rw s refl

    next_end :
        (i k : ℕ) (it : Iterator)
        → step_next t (record { cur = i; index = k }) ≡ some (false, it)
        → next t (record { cur = i; index = k }) ≡ some (false, it)
    unfolding next
    next_end i k it s = rw s refl

    -- an item is stopped at, or the move goes on
    skip_item :
        (fuel i k : ℕ) (n : NodeBlock K) (rest : List Item)
        → t.blocks i ≡ node n
        → (Node.removed n k ≡ true
            → Arrives (first_live rest) (skip_next (suc fuel) t (record { cur = i; index = k })))
        → Arrives
            (first_live ((record { cur = i; index = k }, Node.removed n k) ∷ rest))
            (skip_next (suc fuel) t (record { cur = i; index = k }))
    skip_item fuel i k n rest e on = elim (Bool-cases (Node.removed n k)) [
      | inl gone ↦ rw gone (on gone)
      | inr live ↦ rw live (skip_live fuel i k n e live)
    ]

    skip_lem :
        (fuel i k left : ℕ) (n : NodeBlock K) (ns : List (NodeBlock K))
        → t.blocks i ≡ node n
        → k + suc left ≡ n.count
        → Leaves t n.header.next ns
        → length (leaf_items i n k (suc left) ++ chain_items n.header.next ns) ≤ fuel
        → Arrives
            (first_live (leaf_items i n k (suc left) ++ chain_items n.header.next ns))
            (skip_next fuel t (record { cur = i; index = k }))
    skip_lem zero i k left n ns e c leaves h = absurd (omega arith)
    skip_lem (suc fuel) i k (suc left) n ns e c leaves h =
        skip_item fuel i k n (leaf_items i n (k + 1) (suc left) ++ chain_items n.header.next ns) e
          (λ gone.
            subst
              (Arrives
                (first_live (leaf_items i n (k + 1) (suc left) ++ chain_items n.header.next ns)))
              (sym (skip_step fuel i k n _ e gone (step_inside i k n e (omega arith))))
              (skip_lem fuel i (k + 1) left n ns e (omega arith) leaves (omega (arith, h))))
    skip_lem (suc fuel) i k zero n [] e c leaves h =
        skip_item fuel i k n [] e
          (λ gone. (_, skip_end fuel i k n _ e gone (step_end i k n e (omega arith) leaves)))
    skip_lem (suc fuel) i k zero n (m ∷ ms) e c (there, used, f, full, leaves) h =
        let j = n.header.next in
        let d : suc (m.count - 1) ≡ m.count = omega arith in
        let items = (λ (left : ℕ). leaf_items j m 0 left ++ chain_items m.header.next ms) in
        skip_item fuel i k n (items m.count) e (λ gone.
          subst (Arrives (first_live (items m.count)))
            (sym (skip_step fuel i k n _ e gone (step_over i k n m e (omega arith) there used f)))
            (subst (λ left. Arrives (first_live (items left)) (skip_next fuel t (at_first j))) d
              (skip_lem fuel j 0 (m.count - 1) m ms f (omega arith) leaves
                (subst (λ left. length (items left) ≤ fuel) (sym d) (omega (arith, h))))))

    -- From an item of a chain of leaves none of which is empty, `next` moves to the first item behind it
    -- that was not removed, in its own leaf or a later one, and returns 0 exactly if there is none. The
    -- items behind it are no more than all the blocks have room for.
    pub next-Arrives :
        (i k left : ℕ) (n : NodeBlock K) (ns : List (NodeBlock K))
        → Leaves t i (n ∷ ns)
        → k + 1 + left ≡ n.count
        → length (leaf_items i n (k + 1) left ++ chain_items n.header.next ns) ≤ skip_fuel t
        → Arrives
            (first_live (leaf_items i n (k + 1) left ++ chain_items n.header.next ns))
            (next t (record { cur = i; index = k }))
    next-Arrives i k (suc left) n ns (there, used, e, full, leaves) c h =
        subst
          (Arrives (first_live (leaf_items i n (k + 1) (suc left) ++ chain_items n.header.next ns)))
          (sym (next_step i k _ (step_inside i k n e (omega arith))))
          (skip_lem (skip_fuel t) i (k + 1) left n ns e (omega arith) leaves h)
    next-Arrives i k zero n [] (there, used, e, full, leaves) c h =
        (_, next_end i k _ (step_end i k n e (omega arith) leaves))
    next-Arrives i k zero n (m ∷ ms) (there, used, e, full, (there', used', f, full', leaves)) c h =
        let j = n.header.next in
        let d : suc (m.count - 1) ≡ m.count = omega arith in
        let items = (λ (left : ℕ). leaf_items j m 0 left ++ chain_items m.header.next ms) in
        subst (Arrives (first_live (items m.count)))
          (sym (next_step i k _ (step_over i k n m e (omega arith) there' used' f)))
          (subst
            (λ left. Arrives (first_live (items left)) (skip_next (skip_fuel t) t (at_first j))) d
            (skip_lem (skip_fuel t) j 0 (m.count - 1) m ms f (omega arith) leaves
              (subst (λ left. length (items left) ≤ skip_fuel t) (sym d) h)))
