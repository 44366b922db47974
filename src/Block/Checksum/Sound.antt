-- ===== src/Block/Checksum/Sound.antt =====
-- The checksum that `compute` writes is accepted by `check`, and a changed word is not.
use example_engine.Prelude.{
  ℕ, zero, suc, ◌+◌, ◌-◌, ◌*◌, ◌%◌, ◌^◌, ◌≤◌, ◌<◌, ◌≡◌, ◌≢◌, inl, inr, Bool-cases, false, ap, some,
  get_elem?, true, List, [], ◌∷◌, set, arith, length,
}
use example_engine.Block.Header.{u32}
use example_engine.Block.Checksum.{sum_words, fold, compute, check}

-- every word is 16 bits
abbrev pub Words : List ℕ → Type 0
Words [] = Unit {0}
Words (w ∷ ws) = (w < 2 ^ 16) × Words ws

abbrev pub total : List ℕ → ℕ
total [] = 0
total (w ∷ ws) = w + total ws

total-le : (ws : List ℕ) → Words ws → total ws ≤ 65535 * length ws
total-le [] h = omega arith
total-le (w ∷ ws) h = omega (arith, total-le ws h.1)

-- a block is too short for its sum to wrap
sum_words-eq-total :
    (sum : ℕ) (ws : List ℕ) → sum + total ws < 2 ^ 32 → sum_words sum ws ≡ sum + total ws
unfolding sum_words
sum_words-eq-total sum [] h = omega arith
sum_words-eq-total sum (w ∷ ws) h =
    let e : u32 (sum + w) ≡ sum + w = omega arith in
    rw e (omega (arith, sum_words-eq-total (sum + w) ws))

-- The fold ends, keeps the sum modulo 65535, and is 0 only for 0.
fold_lem :
    (s : ℕ)
    → s < 2 ^ 32
    → (fold 2 s < 65536)
      × (fold 2 s % 65535 ≡ s % 65535)
      × (0 < s → 0 < fold 2 s)
      × (s ≡ 0 → fold 2 s ≡ 0)
unfolding fold
fold_lem s h = ground arith

fold-eq-ones : (s : ℕ) → s < 2 ^ 32 → 0 < s → s % 65535 ≡ 0 → fold 2 s ≡ 65535
fold-eq-ones s h p e = let f = fold_lem s h in let q = f.2 p in omega (arith, f)

-- what `check` tests
check-total :
    (block : List ℕ)
    → total block < 2 ^ 32
    → check block ≡ true
    → (total block % 65535 ≡ 0) × (0 < total block)
unfolding check
check-total block small h =
    ground (arith, sum_words-eq-total 0 block (omega arith), fold_lem (total block) small)

total-check :
    (block : List ℕ)
    → total block < 2 ^ 32
    → 0 < total block
    → total block % 65535 ≡ 0
    → check block ≡ true
unfolding check
total-check block small p e =
    ground (arith, sum_words-eq-total 0 block (omega arith), fold-eq-ones (total block) small p e)

-- a block is at most `BLOCK_SIZE / 2` words
abbrev pub IsBlock : List ℕ → Type 0
IsBlock block = Words block × (3 < length block) × (length block ≤ 2048)

-- the checksum word brings the sum to a multiple of 65535
module _ (w₀ w₁ w₂ c : ℕ) (ws : List ℕ) (valid : IsBlock (w₀ ∷ w₁ ∷ w₂ ∷ c ∷ ws)) where
  small : total (w₀ ∷ w₁ ∷ w₂ ∷ c ∷ ws) < 2 ^ 31
  small = omega (arith, total-le (w₀ ∷ w₁ ∷ w₂ ∷ c ∷ ws) valid.0)

  abbrev others : ℕ
  others = w₀ + w₁ + w₂ + total ws

  compute_lem : compute (w₀ ∷ w₁ ∷ w₂ ∷ c ∷ ws) ≡ w₀ ∷ w₁ ∷ w₂ ∷ (65535 - fold 2 others) ∷ ws
  unfolding compute
  compute_lem =
      let e : u32 (sum_words 0 (w₀ ∷ w₁ ∷ w₂ ∷ c ∷ ws) + 2 ^ 32 - c) ≡ others =
        omega (arith, sum_words-eq-total 0 (w₀ ∷ w₁ ∷ w₂ ∷ c ∷ ws) (omega (arith, small)), small) in
      rw e (ap (λ k. w₀ ∷ w₁ ∷ w₂ ∷ k ∷ ws) (omega (arith, fold_lem others (omega (arith, small)))))

  compute-check_lem : check (compute (w₀ ∷ w₁ ∷ w₂ ∷ c ∷ ws)) ≡ true
  compute-check_lem =
      let f = fold_lem others (omega (arith, small)) in
      rw compute_lem (
        total-check (w₀ ∷ w₁ ∷ w₂ ∷ (65535 - fold 2 others) ∷ ws) (omega (arith, small, f))
          (grind (arith, f)) (omega (arith, f)))

-- What `compute` writes into a block is accepted by `check`, whatever the block held.
pub check-compute : (block : List ℕ) → IsBlock block → check (compute block) ≡ true
check-compute [] h = absurd (omega arith)
check-compute (w₀ ∷ []) h = absurd (omega arith)
check-compute (w₀ ∷ w₁ ∷ []) h = absurd (omega arith)
check-compute (w₀ ∷ w₁ ∷ w₂ ∷ []) h = absurd (omega arith)
check-compute (w₀ ∷ w₁ ∷ w₂ ∷ c ∷ ws) h = compute-check_lem w₀ w₁ w₂ c ws h

total-set :
    (ws : List ℕ) (i w v : ℕ) → get_elem? ws i ≡ some w → total (set ws i v) + w ≡ total ws + v
total-set [] i w v h = ground arith
total-set (x ∷ ws) zero w v h = ground arith
total-set (x ∷ ws) (suc i) w v h = omega (arith, total-set ws i w v h)

same_word :
    (block : List ℕ) (i w v : ℕ)
    → IsBlock block
    → get_elem? block i ≡ some w
    → v < 2 ^ 16
    → check block ≡ true
    → check (set block i v) ≡ true
    → w % 65535 ≡ v % 65535
same_word block i w v valid at bound before after =
    let t = total-set block i w v at in
    let b = total-le block valid.0 in
    omega (
      arith,
      check-total block (omega (arith, b, valid.2)) before,
      check-total (set block i v) (omega (arith, b, t, valid.2)) after,
      t,
    )

-- Where an accepted block has one of its words changed to another that is not equal to it modulo
-- 65535 (any change but that between 0 and 65535), the block is refused.
pub check-set :
    (block : List ℕ) (i w v : ℕ)
    → IsBlock block
    → get_elem? block i ≡ some w
    → v < 2 ^ 16
    → check block ≡ true
    → w % 65535 ≢ v % 65535
    → check (set block i v) ≡ false
check-set block i w v valid at bound before differ = elim (Bool-cases (check (set block i v))) [
  | inr seen ↦ seen
  | inl after ↦ absurd (differ (same_word block i w v valid at bound before after))
]
