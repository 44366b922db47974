-- ===== src/Storage/Buffer/Pages.antt =====
-- Pages of the pool that are looked up, written and marked.
use example_engine.Prelude.{
  ℕ, ◌%◌, ◌^◌, ◌≡◌, ◌≢◌, refl, sym, ap, ◌∙◌, true, false, none, some, [], ◌∷◌, ◌==◌, if◌then◌else◌,
  arith, Bool-cases, inl, inr,
}
use example_engine.Storage.File.{Page, Device}
use example_engine.Storage.File.Blocks.{IsFile}
use example_engine.Storage.Buffer.{Pool, lookup, put_page, marked}
use example_engine.Storage.Buffer.View.{settled, IsAbsent, shown, IsPool}

none≢some : (page : Page) → none ≢ some page
none≢some page e = cc

module _ {H : Type 0} (device : Device H) (file : IsFile device) where
  pub lookup-none : (pool : Pool) (i : ℕ) → lookup i pool ≡ none → IsAbsent i pool
  unfolding lookup
  lookup-none [] i e = tt
  lookup-none ((k, page) ∷ pool) i e = elim (Bool-cases (k == i)) [
    | inl q ↦
        let f : lookup i ((k, page) ∷ pool) ≡ some page = rw q refl in
        absurd (none≢some _ (sym e ∙ f))
    | inr q ↦
        let f : lookup i ((k, page) ∷ pool) ≡ lookup i pool = rw q refl in
        (ground (arith, q), lookup-none pool i (sym f ∙ e))
  ]

  -- A page that is written in the pool: only its block is shown otherwise.
  pub put_page-shown :
      (h : H) (pool : Pool) (i : ℕ) (page new : Page)
      → lookup i pool ≡ some page
      → (lookup i (put_page i new pool) ≡ some new)
        × (shown device file h pool i ≡ settled page)
        × ((j : ℕ)
            → shown device file h (put_page i new pool) j
              ≡ (if j == i then settled new else shown device file h pool j))
  unfolding lookup put_page
  put_page-shown h [] i page new e = absurd (none≢some page e)
  put_page-shown h ((k, old) ∷ pool) i page new e = elim (Bool-cases (k == i)) [
    | inl q ↦
        let v : k ≡ i = ground (arith, q) in
        let self : (i == i) ≡ true = ground arith in
        let f : lookup i ((k, old) ∷ pool) ≡ some old = rw q refl in
        let o : old ≡ page = cc in
        (
          rw q (rw q refl),
          rw (v, self) (ap settled o),
          λ j. elim (Bool-cases (j == i)) [ inl w ↦ rw (q, v, w) refl | inr w ↦ rw (q, v, w) refl ],
        )
    | inr q ↦
        let f : lookup i ((k, old) ∷ pool) ≡ lookup i pool = rw q refl in
        let u : (i == k) ≡ false = ground (arith, q) in
        let (found, same, others) = put_page-shown h pool i page new (sym f ∙ e) in
        (
          rw q (rw q found),
          rw u same,
          λ j. elim (Bool-cases (j == i)) [
            | inl w ↦
                let x : (j == k) ≡ false = ground (arith, q, w) in
                rw (q, x, w) (others j ∙ rw w refl)
            | inr w ↦ rw (q, w) (ap (λ p. if j == k then settled old else p) (others j ∙ rw w refl))
          ],
        )
  ]

  put_page-IsAbsent :
      (pool : Pool) (i k : ℕ) (new : Page) → IsAbsent k pool → IsAbsent k (put_page i new pool)
  unfolding put_page
  put_page-IsAbsent [] i k new absent = tt
  put_page-IsAbsent ((m, old) ∷ pool) i k new (other, absent) = elim (Bool-cases (m == i)) [
    | inl q ↦ rw q (other, absent)
    | inr q ↦ rw q (other, put_page-IsAbsent pool i k new absent)
  ]

  -- A page may be changed in memory if it is marked, or if it stays as the file has it.
  pub put_page-IsPool :
      (h : H) (pool : Pool) (i : ℕ) (new : Page)
      → (new.header.reserved ≡ 0 → settled new ≡ settled (file.block h i))
      → IsPool device file h pool
      → IsPool device file h (put_page i new pool)
  unfolding put_page
  put_page-IsPool h [] i new ok valid = tt
  put_page-IsPool h ((k, old) ∷ pool) i new ok (small, inside, once, clean, valid) =
      elim (Bool-cases (k == i)) [
        | inl q ↦
            let e : k ≡ i = ground (arith, q) in
            rw q (small, inside, once, (λ z. rw e (ok z)), valid)
        | inr q ↦ rw q (
          small,
          inside,
          put_page-IsAbsent pool i k new once,
          clean,
          put_page-IsPool h pool i new ok valid,
        )
      ]

  pub marked-settled : (flag : ℕ) (page : Page) → settled (marked flag page) ≡ settled page
  marked-settled flag page = elim (Bool-cases (page.header.reserved == 0)) [
    | inl e ↦ rw e refl
    | inr e ↦ rw e refl
  ]

  -- a page that `getBlock` hands out unmarked is one that was not marked
  pub marked-clean :
      (flag : ℕ) (page : Page) → (marked flag page).header.reserved ≡ 0 → page.header.reserved ≡ 0
  marked-clean flag page = elim (Bool-cases (page.header.reserved == 0)) [
    | inl e ↦ rw e (λ z. ground (arith, e))
    | inr e ↦ rw e (λ z. z)
  ]

  pub marked-dirty :
      (flag : ℕ) (page : Page) → flag % 2 ^ 13 ≢ 0 → (marked flag page).header.reserved ≢ 0
  marked-dirty flag page dirty = elim (Bool-cases (page.header.reserved == 0)) [
    | inl e ↦ rw e dirty
    | inr e ↦ rw e (ground (arith, e))
  ]

  pub lookup-clean :
      (h : H) (pool : Pool) (i : ℕ) (page : Page)
      → lookup i pool ≡ some page
      → IsPool device file h pool
      → page.header.reserved ≡ 0
      → settled page ≡ settled (file.block h i)
  unfolding lookup
  lookup-clean h [] i page e valid z = absurd (none≢some page e)
  lookup-clean h ((k, old) ∷ pool) i page e (small, inside, once, clean, valid) z =
      elim (Bool-cases (k == i)) [
        | inl q ↦
            let v : k ≡ i = ground (arith, q) in
            let f : lookup i ((k, old) ∷ pool) ≡ some old = rw q refl in
            let o : old ≡ page = cc in
            rw (← o, ← v) (clean (ap (λ (p : Page). p.header.reserved) o ∙ z))
        | inr q ↦
            let f : lookup i ((k, old) ∷ pool) ≡ lookup i pool = rw q refl in
            lookup-clean h pool i page (sym f ∙ e) valid z
      ]
