-- ===== src/Storage/Buffer/View.antt =====
-- What the buffer shows of the file: a cached block as it is in memory, any other as it is in the
-- file, both but for `reserved`, which is the buffer's own.
use example_engine.Prelude.{
  ℕ, ◌^◌, ◌<◌, ◌≡◌, ◌≢◌, refl, sym, ap, ◌∙◌, Bool, true, false, [], ◌∷◌, ◌==◌, if◌then◌else◌, arith,
  Bool-cases, inl, inr,
}
use example_engine.Block.Header.{block_size}
use example_engine.Storage.File.{Page, Device, write_block}
use example_engine.Storage.File.Blocks.{IsFile, write_block-block}
use example_engine.Storage.Buffer.{Pool, BufferManager, with_reserved, save_pool, save}

abbrev pub settled : Page → Page
settled page = record page { header = record page.header { reserved = 0 } }

-- no entry of the pool is for the block
abbrev pub IsAbsent : ℕ → Pool → Type 0
IsAbsent i [] = Unit {0}
IsAbsent i ((k, page) ∷ pool) = (k ≢ i) × IsAbsent i pool

-- no page of the pool is marked as changed
abbrev pub IsClean : Pool → Type 0
IsClean [] = Unit {0}
IsClean ((k, page) ∷ pool) = (page.header.reserved ≡ 0) × IsClean pool

-- a choice by index, on either side
pub choice-eq :
    (i j : ℕ) (x y z : Page) → (j ≡ i → x ≡ z) → (j ≢ i → y ≡ z) → (if j == i then x else y) ≡ z
choice-eq i j x y z here there = elim (Bool-cases (j == i)) [
  | inl e ↦ rw e (here (ground (arith, e)))
  | inr e ↦ rw e (there (ground (arith, e)))
]

choice-choice :
    (i j : ℕ) (x y z : Page)
    → (j ≢ i → y ≡ z)
    → (if j == i then x else y) ≡ (if j == i then x else z)
choice-choice i j x y z there = elim (Bool-cases (j == i)) [
  | inl e ↦ rw e refl
  | inr e ↦ rw e (there (ground (arith, e)))
]

module _ {H : Type 0} (device : Device H) (file : IsFile device) where
  abbrev pub shown : H → Pool → ℕ → Page
  shown h [] j = settled (file.block h j)
  shown h ((i, page) ∷ pool) j = if j == i then settled page else shown h pool j

  -- what the buffer shows as block `j`
  abbrev pub view : BufferManager H → ℕ → Page
  view b j = shown b.file b.pool j

  -- Each block is cached once, has a place in the file, and is in the file as in memory unless it is
  -- marked as changed.
  abbrev pub IsPool : H → Pool → Type 0
  IsPool h [] = Unit {0}
  IsPool h ((i, page) ∷ pool) =
      (i < 2 ^ 19)
      × (i < file.blocks h)
      × IsAbsent i pool
      × (page.header.reserved ≡ 0 → settled page ≡ settled (file.block h i))
      × IsPool h pool

  pub shown-absent :
      (h : H) (pool : Pool) (i : ℕ) → IsAbsent i pool → shown h pool i ≡ settled (file.block h i)
  shown-absent h [] i absent = refl
  shown-absent h ((k, page) ∷ pool) i (other, absent) =
      let e : (i == k) ≡ false = ground (arith, other) in rw e (shown-absent h pool i absent)

  pub shown-agree :
      (h h' : H) (pool : Pool) (j : ℕ)
      → file.block h' j ≡ file.block h j
      → shown h' pool j ≡ shown h pool j
  shown-agree h h' [] j e = ap settled e
  shown-agree h h' ((k, page) ∷ pool) j e =
      ap (λ p. if j == k then settled page else p) (shown-agree h h' pool j e)

  pub IsPool-agree :
      (h h' : H) (pool : Pool) (i : ℕ)
      → file.blocks h' ≡ file.blocks h
      → ((j : ℕ) → j ≢ i → file.block h' j ≡ file.block h j)
      → IsAbsent i pool
      → IsPool h pool
      → IsPool h' pool
  IsPool-agree h h' [] i size same absent valid = tt
  IsPool-agree h h' ((k, page) ∷ pool) i size same (other, absent)
        (small, inside, once, clean, valid) =
      (
        small,
        omega (arith, size),
        once,
        λ e. clean e ∙ ap settled (sym (same k other)),
        IsPool-agree h h' pool i size same absent valid,
      )

  -- what `save_pool` leaves
  abbrev IsSaved : H → Pool → Bool × H × Pool → Type 0
  IsSaved h pool (done, h', pool') =
      (done ≡ true)
      × ((j : ℕ) → settled (file.block h' j) ≡ shown h pool j)
      × ((j : ℕ) → shown h' pool' j ≡ shown h pool j)
      × IsClean pool'

  save_pool_lem : (h : H) (pool : Pool) → IsPool h pool → IsSaved h pool (save_pool device h pool)
  unfolding save_pool
  save_pool_lem h [] valid = (refl, λ j. refl, λ j. refl, tt)
  save_pool_lem h ((i, page) ∷ pool) (small, inside, once, clean, valid) =
      elim (Bool-cases (page.header.reserved == 0)) [
        | inl e ↦
            let h' = (save_pool device h pool).1 in
            let (done, written, same, all_clean) = save_pool_lem h pool valid in
            let unmarked : page.header.reserved ≡ 0 = ground (arith, e) in
            rw e (
              done,
              λ j. sym (
                  choice-eq i j (settled page) (shown h pool j) (settled (file.block h' j))
                    (λ q.
                      rw q (clean unmarked ∙ sym (shown-absent h pool i once) ∙ sym (written i)))
                    (λ q. sym (written j))),
              λ j. ap (λ p. if j == i then settled page else p) (same j),
              (unmarked, all_clean),
            )
        | inr e ↦
            let h₁ = (write_block device h (with_reserved 0 page) i block_size).1 in
            let (ok, size, new, others) =
              write_block-block device file h (with_reserved 0 page) i small inside in
            let h' = (save_pool device h₁ pool).1 in
            let (done, written, same, all_clean) =
              save_pool_lem h₁ pool (IsPool-agree h h₁ pool i size others once valid) in
            rw (e, ok)
              (
                done,
                λ j. sym (
                    choice-eq i j (settled page) (shown h pool j) (settled (file.block h' j))
                      (λ q. rw q (
                        ap settled (sym new) ∙ sym (shown-absent h₁ pool i once) ∙ sym (written i)))
                      (λ q. sym (shown-agree h h₁ pool j (others j q)) ∙ sym (written j))),
                λ j.
                    choice-choice i j (settled page) (shown h' (save_pool device h₁ pool).2 j)
                      (shown h pool j) (λ q. same j ∙ shown-agree h h₁ pool j (others j q)),
                (refl, all_clean),
              )
      ]

  -- After `save` of a buffer whose blocks have a place in the file, the file holds every block as the
  -- buffer showed it, but for `reserved`; the buffer shows what it did and has no changed page.
  pub save-view :
      (b : BufferManager H)
      → IsPool b.file b.pool
      → ((save device b).0 ≡ true)
        × ((j : ℕ) → settled (file.block (save device b).1.file j) ≡ view b j)
        × ((j : ℕ) → view (save device b).1 j ≡ view b j)
        × IsClean (save device b).1.pool
  unfolding save
  save-view b valid = save_pool_lem b.file b.pool valid
