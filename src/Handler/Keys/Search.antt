-- ===== src/Handler/Keys/Search.antt =====
-- Search keys of the second tree: where a key with a flag on its first byte stands among the keys of
-- its index.
use Prim.Native.Nat.{bit_and, bit_or}
use example_engine.Prelude.{
  ℕ, zero, suc, ◌≡◌, ◌<◌, refl, Bool, true, false, ◌&&◌, not, some, List, ◌∷◌, ◌==◌, if◌then◌else◌,
  arith, Bool-cases, inl, inr,
}
use example_engine.Prelude.Int.{ℤ, pos, negsuc, negative, is_zero, positive, ◌-ℤ◌}
use example_engine.Handler.Table.{Table, Key}
use example_engine.Handler.Keys.{
  key_info, second_key_compare, second_key_compare_prefix, compare_parts,
}

-- a test on all numbers below a bound
abbrev all_below : ℕ → (ℕ → Bool) → Bool
all_below zero test = true
all_below (suc n) test = test n && all_below n test

all_below_lem :
    (n : ℕ) (test : ℕ → Bool) → all_below n test ≡ true → (i : ℕ) → i < n → test i ≡ true
all_below_lem zero test e i h = absurd (omega arith)
all_below_lem (suc n) test e i h = elim (Bool-cases (i == n)) [
  | inl p ↦ let q : i ≡ n = ground (arith, p) in rw q (ground (arith, e))
  | inr p ↦ all_below_lem n test (ground (arith, e)) i (ground (arith, p))
]

-- what the masks make of the number of an index and of the two flags
abbrev masks_hold : ℕ → Bool
masks_hold n =
    (bit_and n 0x3f == n)
    && (bit_and n 0x7f == n)
    && (bit_and n 0x80 == 0)
    && (bit_and n 0x40 == 0)
    && (bit_and (bit_or n 0x80) 0x3f == n)
    && (bit_and (bit_or n 0x80) 0x7f == n)
    && not (bit_and (bit_or n 0x80) 0x80 == 0)
    && (bit_and (bit_or n 0x80) 0x40 == 0)
    && (bit_and (bit_or n 0x40) 0x3f == n)
    && not (bit_and (bit_or n 0x40) 0x40 == 0)

masks_lem : (n : ℕ) → n < 64 → masks_hold n ≡ true
masks_lem n h = all_below_lem 64 masks_hold refl n h

-- the number of an index, as the first byte of a key of the tree and of a search key
record Masks (n : ℕ) : Type 0 where
  plain : bit_and n 0x3f ≡ n
  plain_prefix : bit_and n 0x7f ≡ n
  plain_first : bit_and n 0x80 ≡ 0
  first : bit_and (bit_or n 0x80) 0x3f ≡ n
  first_prefix : bit_and (bit_or n 0x80) 0x7f ≡ n
  first_flag : (bit_and (bit_or n 0x80) 0x80 == 0) ≡ false
  first_last : (bit_and (bit_or n 0x80) 0x40 == 0) ≡ true
  last : bit_and (bit_or n 0x40) 0x3f ≡ n
  last_flag : (bit_and (bit_or n 0x40) 0x40 == 0) ≡ false

masks : (n : ℕ) → n < 64 → Masks n
masks n h =
    let e = masks_lem n h in
    record {
      plain = ground (arith, e);
      plain_prefix = ground (arith, e);
      plain_first = ground (arith, e);
      first = ground (arith, e);
      first_prefix = ground (arith, e);
      first_flag = ground (arith, e);
      first_last = ground (arith, e);
      last = ground (arith, e);
      last_flag = ground (arith, e);
    }

-- a tie decided for the key of the tree, or against it
abbrev tied : ℤ → ℤ → ℤ
tied decided c = if is_zero c then decided else c

tied_first : (c : ℤ) → (negative (tied (pos 1) c) ≡ negative c) × (is_zero (tied (pos 1) c) ≡ false)
tied_first c = ground arith

tied_last :
    (c : ℤ) → (positive (tied (negsuc 0) c) ≡ positive c) × (is_zero (tied (negsuc 0) c) ≡ false)
tied_last c = ground arith

-- the difference of two numbers of indexes
difference-is_zero : (m n : ℕ) → (m == n) ≡ false → is_zero (pos m -ℤ pos n) ≡ false
difference-is_zero m n e = ground (arith, e)

module _ (table : Table) (key : Key) (m n : ℕ) (ka kb : List ℕ) where
  -- Among the keys of the tree, a search key of an index stands right in front of those whose parts
  -- are its own with the flag 0x80, and right behind them with the flag 0x40: compared with either it
  -- is never equal, the keys in front of the first are those that the comparison of the parts puts in
  -- front, and the keys behind the second those that it puts behind. The comparison of the parts does
  -- not see the flag 0x80. The numbers of the indexes are below 64.
  pub second_key_compare-second_key_compare_prefix :
      m < 64
      → n < 64
      → key_info table n ≡ some key
      → (p first last : ℤ) × (second_key_compare_prefix table (m ∷ ka) (n ∷ kb) ≡ some p)
        × (second_key_compare_prefix table (m ∷ ka) (bit_or n 0x80 ∷ kb) ≡ some p)
        × (second_key_compare table (m ∷ ka) (bit_or n 0x80 ∷ kb) ≡ some first)
        × (second_key_compare table (m ∷ ka) (bit_or n 0x40 ∷ kb) ≡ some last)
        × ((negative first ≡ negative p) × (is_zero first ≡ false))
        × ((positive last ≡ positive p) × (is_zero last ≡ false))
  unfolding second_key_compare second_key_compare_prefix
  second_key_compare-second_key_compare_prefix small small' e =
      let a = masks m small in
      let b = masks n small' in
      elim (Bool-cases (m == n)) [
        | inl same ↦
            let v : m ≡ n = ground (arith, same) in
            let q = compare_parts key.parts ka kb in
            (
              q.0,
              tied (pos 1) q.0,
              tied (negsuc 0) q.0,
              rw (a.plain_prefix, b.plain_prefix, same, v, e) refl,
              rw (a.plain_prefix, b.first_prefix, same, v, e) refl,
              rw (a.plain, b.first, same, a.plain_first, v, e, b.first_flag, b.first_last) refl,
              rw (a.plain, b.last, same, a.plain_first, v, e, b.last_flag) refl,
              tied_first q.0,
              tied_last q.0,
            )
        | inr other ↦
            let d = pos m -ℤ pos n in
            (
              d,
              d,
              d,
              rw (a.plain_prefix, b.plain_prefix, other) refl,
              rw (a.plain_prefix, b.first_prefix, other) refl,
              rw (a.plain, b.first, other) refl,
              rw (a.plain, b.last, other) refl,
              (refl, difference-is_zero m n other),
              (refl, difference-is_zero m n other),
            )
      ]
