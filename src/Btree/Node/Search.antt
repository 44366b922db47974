-- ===== src/Btree/Node/Search.antt =====
-- The two binary searches of a node, on a node whose keys ascend.
use native.Mathlib.Decide.{dec_lt}
use example_engine.Prelude.{
  ℕ, zero, suc, ◌+◌, ◌/◌, ◌≤◌, ◌<◌, ◌≡◌, refl, sym, ◌∙◌, true, false, arith, ltb, ltb→lt,
  Bool-cases, inl, inr,
}
use example_engine.Prelude.Int.{ℤ, pos, negsuc, is_zero, positive}
use example_engine.Btree.Order.{Compare, lt, same, IsOrder, lt_cases}
use example_engine.Btree.Node.{NodeBlock, find_loop, find, lub_loop, lub}

module _ {K : Type 0} (cmp : Compare K) where
  -- the keys of the items ascend strictly
  abbrev pub IsSorted : NodeBlock K → Type 0
  IsSorted n = (i j : ℕ) → i < j → j < n.count → lt cmp (n.kv i).key (n.kv j).key ≡ true

  -- `r` parts the items into those below `key` and those not below it
  abbrev pub Splits : NodeBlock K → K → ℕ → Type 0
  Splits n key r =
      (r ≤ n.count)
      × ((i : ℕ) → i < r → lt cmp (n.kv i).key key ≡ true)
      × ((i : ℕ) → r ≤ i → i < n.count → lt cmp (n.kv i).key key ≡ false)

  module _ (order : IsOrder cmp) (n : NodeBlock K) (key : K) (sorted : IsSorted n) where
    -- an item below `key` has only such items in front of it
    below_before :
        (i j : ℕ)
        → i ≤ j
        → j < n.count
        → lt cmp (n.kv j).key key ≡ true
        → lt cmp (n.kv i).key key ≡ true
    below_before i j h k p = elim (dec_lt i j) [
      | yes q ↦ order.lt_trans (n.kv i).key (n.kv j).key key (sorted i j q k) p
      | no q ↦ let e : i ≡ j = omega arith in rw e p
    ]

    -- an item not below `key` has only such items behind it
    not_below_after :
        (i j : ℕ)
        → i ≤ j
        → j < n.count
        → lt cmp (n.kv i).key key ≡ false
        → lt cmp (n.kv j).key key ≡ false
    not_below_after i j h k p = ground (arith, below_before i j h k)

    lub_loop-Splits :
        (fuel lo hi : ℕ)
        → hi ≤ lo + fuel
        → lo ≤ hi
        → hi ≤ n.count
        → ((i : ℕ) → i < lo → lt cmp (n.kv i).key key ≡ true)
        → ((i : ℕ) → hi ≤ i → i < n.count → lt cmp (n.kv i).key key ≡ false)
        → Splits n key (lub_loop cmp n key fuel lo hi)
    unfolding lub_loop
    lub_loop-Splits zero lo hi f h k b a = (omega arith, b, λ i p q. a i (omega arith) q)
    lub_loop-Splits (suc fuel) lo hi f h k b a = elim (Bool-cases (ltb lo hi)) [
      | inr e ↦
          rw e (omega arith, b, λ i p q. a i (let g : hi ≤ lo = ground arith in omega arith) q)
      | inl e ↦
          let g : lo < hi = ltb→lt lo hi e in
          let mid = (lo + hi) / 2 in
          rw e (elim (Bool-cases (lt cmp (n.kv mid).key key)) [
            | inl p ↦ rw p (
                lub_loop-Splits fuel (mid + 1) hi (omega arith) (omega arith) k
                  (λ i q. below_before i mid (omega arith) (omega arith) p) a)
            | inr p ↦ rw p (
                lub_loop-Splits fuel lo mid (omega arith) (omega arith) (omega arith) b
                  (λ i q r. not_below_after mid i q r p))
          ])
    ]

    -- On a node whose keys ascend `lub` returns the index that parts the items at `key`: those in
    -- front of it are below `key`, and it and those behind it are not.
    pub lub-Splits : Splits n key (lub cmp n key)
    unfolding lub
    lub-Splits =
        lub_loop-Splits n.count 0 n.count (omega arith) (omega arith) (omega arith)
          (λ i p. absurd (omega arith)) (λ i p q. absurd (omega arith))

    -- an item above `key` has only such items behind it
    above_after :
        (i j : ℕ)
        → i ≤ j
        → j < n.count
        → lt cmp key (n.kv i).key ≡ true
        → lt cmp key (n.kv j).key ≡ true
    above_after i j h k p = elim (dec_lt i j) [
      | yes q ↦ order.lt_trans key (n.kv i).key (n.kv j).key p (sorted i j q k)
      | no q ↦ let e : i ≡ j = omega arith in rw (← e) p
    ]

    -- what the result of `find` says of the keys
    abbrev pub Finds : ℤ → Type 0
    Finds (pos i) = (i < n.count) × (same cmp (n.kv i).key key ≡ true)
    Finds (negsuc k) = (k ≡ 0) × ((i : ℕ) → i < n.count → same cmp (n.kv i).key key ≡ false)

    -- no item has the key if the items below and those above it leave no gap
    no_gap :
        (lo hi : ℕ)
        → hi ≤ lo
        → ((i : ℕ) → i < lo → lt cmp (n.kv i).key key ≡ true)
        → ((i : ℕ) → hi ≤ i → i < n.count → lt cmp key (n.kv i).key ≡ true)
        → Finds (negsuc 0)
    no_gap lo hi g b a = (
      refl,
      λ i h. elim (dec_lt i lo) [
        | yes p ↦ ground (arith, b i p, lt_cases cmp order (n.kv i).key key)
        | no p ↦ ground (arith, a i (omega arith) h, lt_cases cmp order (n.kv i).key key)
      ],
    )

    find_loop-Finds :
        (fuel lo hi : ℕ)
        → hi ≤ lo + fuel
        → lo ≤ hi
        → hi ≤ n.count
        → ((i : ℕ) → i < lo → lt cmp (n.kv i).key key ≡ true)
        → ((i : ℕ) → hi ≤ i → i < n.count → lt cmp key (n.kv i).key ≡ true)
        → Finds (find_loop cmp n key fuel lo hi)
    unfolding find_loop
    find_loop-Finds zero lo hi f h k b a = no_gap lo hi (omega arith) b a
    find_loop-Finds (suc fuel) lo hi f h k b a = elim (Bool-cases (ltb lo hi)) [
      | inr e ↦ rw e (no_gap lo hi (ground arith) b a)
      | inl e ↦
          let g : lo < hi = ltb→lt lo hi e in
          let mid = (lo + hi) / 2 in
          rw e (elim (Bool-cases (is_zero (cmp (n.kv mid).key key))) [
            | inl z ↦ rw z (omega arith, z)
            | inr z ↦ rw z (elim (Bool-cases (positive (cmp (n.kv mid).key key))) [
              | inl p ↦ rw p (
                  find_loop-Finds fuel lo mid (omega arith) (omega arith) (omega arith) b
                    (λ i q r. above_after mid i q r (sym (order.flip (n.kv mid).key key) ∙ p)))
              | inr p ↦ rw p (
                  find_loop-Finds fuel (mid + 1) hi (omega arith) (omega arith) k
                    (λ i q. below_before i mid (omega arith) (omega arith) (
                      ground (
                        arith,
                        lt_cases cmp order (n.kv mid).key key,
                        order.flip (n.kv mid).key key,
                      )))
                    a)
            ])
          ])
    ]

    -- On a node whose keys ascend `find` returns the index of an item with the key, or -1 if no
    -- item has it.
    pub find-Finds : Finds (find cmp n key)
    unfolding find
    find-Finds =
        find_loop-Finds n.count 0 n.count (omega arith) (omega arith) (omega arith)
          (λ i p. absurd (omega arith)) (λ i p q. absurd (omega arith))
