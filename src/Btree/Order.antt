-- ===== src/Btree/Order.antt =====
-- The comparison that a tree is given (`typedef int(Compare)(const void*, const void*, void*)`, the
-- extra information already applied) and what the tree relies on: a strict weak order.
use example_engine.Prelude.{◌≡◌, ◌⊎◌, Bool, true, false, arith}
use example_engine.Prelude.Int.{ℤ, ◌-ℤ◌, negative, positive, is_zero}

abbrev pub Compare : Type 0 → Type 0
Compare K = K → K → ℤ

module _ {K : Type 0} (cmp : Compare K) where
  -- `cmp(a, b) < 0`
  abbrev pub lt : K → K → Bool
  lt a b = negative (cmp a b)

  -- `cmp(a, b) == 0`
  abbrev pub same : K → K → Bool
  same a b = is_zero (cmp a b)

pub record IsOrder {K : Type 0} (cmp : Compare K) : Type 0 where
  pub flip : (a b : K) → positive (cmp a b) ≡ negative (cmp b a)
  pub lt_trans : (a b c : K) → lt cmp a b ≡ true → lt cmp b c ≡ true → lt cmp a c ≡ true
  pub lt_split : (a b c : K) → lt cmp a c ≡ true → (lt cmp a b ≡ true) ⊎ (lt cmp b c ≡ true)

module _ {K : Type 0} (cmp : Compare K) (order : IsOrder cmp) where
  -- exactly one of the three tests on a comparison holds
  pub lt_cases :
      (a b : K)
      → ((lt cmp a b ≡ true) × (lt cmp b a ≡ false) × (same cmp a b ≡ false))
        ⊎ ((lt cmp a b ≡ false) × (lt cmp b a ≡ true) × (same cmp a b ≡ false))
        ⊎ ((lt cmp a b ≡ false) × (lt cmp b a ≡ false) × (same cmp a b ≡ true))
  lt_cases a b = ground (arith, order.flip a b, order.flip b a)

-- `cmp`: `*(int *)a - *(int *)b`, for keys whose difference is an `int`
unfoldable pub compare_int : Compare ℤ
compare_int a b = a -ℤ b

pub compare_int-IsOrder : IsOrder compare_int
unfolding compare_int
compare_int-IsOrder = record {
  flip = λ a b. ground arith;
  lt_trans = λ a b c p q. ground arith;
  lt_split = λ a b c p. ground arith;
}
