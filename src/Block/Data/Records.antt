-- ===== src/Block/Data/Records.antt =====
-- The records of a data block: an insertion keeps the block well formed, its record can be read
-- back, and the records that were there before are untouched.
use native.Mathlib.Nat.{le_refl}
use native.Mathlib.Decide.{dec_lt}
use example_engine.Prelude.{
  ℕ, ◌+◌, ◌*◌, ◌≤◌, ◌<◌, ◌≡◌, inl, inr, sym, ap, ◌↔◌, ◌∙◌, ap₂, some, List, arith, length, take,
  length-take, take-length,
}
use example_engine.Prelude.Memory.{
  read16, write_bytes, read_bytes, read16-write16_self, write16_elsewhere, write_bytes_elsewhere,
  read_bytes-write_bytes, read_bytes-agree,
}
use example_engine.Block.Header.{block_size}
use example_engine.Block.Data.{DataBlock, directory_addr, init, lowered, inserted, insert, get}

-- The directory ends below `free`, and every record begins at or above it.
pub record IsValid (b : DataBlock) : Type 0 where
  pub room : directory_addr b.count ≤ b.free
  pub inside : b.free ≤ block_size
  pub above : (i : ℕ) → i < b.count → b.free ≤ read16 b.page (directory_addr i)

pub init-IsValid : (b : DataBlock) (index : ℕ) → IsValid (init b index)
unfolding init
init-IsValid b index = record {
  room = omega arith;
  inside = omega arith;
  above = λ i h. absurd (omega arith);
}

-- the room that an insertion needs
abbrev pub Fits : DataBlock → ℕ → Type 0
Fits b size = directory_addr (b.count + 1) + 4 + size ≤ b.free

-- Exactly the insertions with room go through.
pub insert-eq-some :
    (b : DataBlock) (d : List ℕ) (size : ℕ)
    → Fits b size
    → insert b d size ≡ some (b.count, inserted b d size)
unfolding insert
insert-eq-some b d size fits = ground arith

pub Fits-insert :
    (b : DataBlock) (d : List ℕ) (size : ℕ) {r : ℕ × DataBlock}
    → insert b d size ≡ some r
    → Fits b size × (r ≡ (b.count, inserted b d size))
unfolding insert
Fits-insert b d size h = ground arith

module _ (b : DataBlock) (d : List ℕ) (size : ℕ) (valid : IsValid b) (fits : Fits b size) where
  lowered_lem : lowered b size + size + 2 ≡ b.free
  lowered_lem = omega (arith, valid.inside)

  count_lem : (inserted b d size).count ≡ b.count + 1
  unfolding inserted
  count_lem = omega (arith, valid.inside)

  length-taken : length (take size d) ≤ size
  length-taken = omega (arith, length-take size d)

  -- every byte from the old `free` on, and every old directory entry, is as it was
  page_above : (x : ℕ) → b.free ≤ x → (inserted b d size).page x ≡ b.page x
  unfolding inserted
  page_above x h =
      write16_elsewhere _ (directory_addr b.count) (lowered b size) x (inr (omega arith))
      ∙ write_bytes_elsewhere b.page (lowered b size) (take size d) x
          (inr (omega (arith, lowered_lem, length-taken)))

  page_directory : (x : ℕ) → x < directory_addr b.count → (inserted b d size).page x ≡ b.page x
  unfolding inserted
  page_directory x h =
      write16_elsewhere _ (directory_addr b.count) (lowered b size) x (inl h)
      ∙ write_bytes_elsewhere b.page (lowered b size) (take size d) x
          (inl (omega (arith, lowered_lem)))

  directory_old :
      (i : ℕ)
      → i < b.count
      → read16 (inserted b d size).page (directory_addr i) ≡ read16 b.page (directory_addr i)
  unfolding read16
  directory_old i h =
      ap₂ (λ (l h : ℕ). l + 256 * h) (page_directory _ (omega arith))
        (page_directory _ (omega arith))

  directory_new : read16 (inserted b d size).page (directory_addr b.count) ≡ lowered b size
  unfolding inserted
  directory_new = read16-write16_self _ (directory_addr b.count) (lowered b size)

  inserted-above :
      (i : ℕ)
      → i < b.count + 1
      → lowered b size ≤ read16 (inserted b d size).page (directory_addr i)
  inserted-above i h = elim (dec_lt i b.count) [
    | yes p ↦ omega (arith, directory_old i p, valid.above i p, lowered_lem)
    | no p ↦ let e : i ≡ b.count = omega arith in rw (e, directory_new) (le_refl _)
  ]

  pub inserted-IsValid : IsValid (inserted b d size)
  inserted-IsValid = record {
    room = unfold inserted in omega (arith, lowered_lem, count_lem, valid.inside);
    inside = unfold inserted in omega (arith, lowered_lem, valid.inside);
    above = λ i h. unfold inserted in inserted-above i (omega (arith, count_lem));
  }

  pub get-inserted_self : get (inserted b d size) b.count ≡ some (lowered b size)
  unfolding get
  get-inserted_self = ground (arith, directory_new, count_lem, lowered_lem, valid.room)

  pub get-inserted_old :
      (i off : ℕ) → get b i ≡ some off → (get (inserted b d size) i ≡ some off) × (b.free ≤ off)
  unfolding get
  get-inserted_old i off h = ground (arith, directory_old i, count_lem, valid.above i)

  read-inserted : length d ≡ size → read_bytes (inserted b d size).page (lowered b size) size ≡ d
  unfolding inserted
  read-inserted whole =
      read_bytes-agree (write_bytes b.page (lowered b size) (take size d)) _ (lowered b size) size
        (λ x l u.
          write16_elsewhere _ (directory_addr b.count) (lowered b size) x
            (inr (omega (arith, lowered_lem))))
      ∙ ap (λ r. read_bytes (write_bytes b.page (lowered b size) r) (lowered b size) size)
          (take-length d size (sym whole))
      ∙ ap (λ n. read_bytes (write_bytes b.page (lowered b size) d) (lowered b size) n) (sym whole)
      ∙ read_bytes-write_bytes b.page (lowered b size) d

-- From a well-formed block, an insertion goes through exactly if the record, its directory entry
-- and the four bytes that the code reserves fit between the directory and the records; the block
-- that it leaves is well formed, and holds one record more.
pub insert-IsValid :
    (b : DataBlock) (d : List ℕ) (size : ℕ)
    → IsValid b
    → ((r : ℕ × DataBlock) → insert b d size ≡ some r → IsValid r.1 × (r.1.count ≡ b.count + 1))
      × (Fits b size ↔ ((r : ℕ × DataBlock) × (insert b d size ≡ some r)))
insert-IsValid b d size valid = (
  λ r h.
      let (fits, e) = Fits-insert b d size h in
      rw e (inserted-IsValid b d size valid fits, count_lem b d size valid fits),
  (
    λ fits. ((b.count, inserted b d size), insert-eq-some b d size fits),
    λ s. (Fits-insert b d size s.1).0,
  ),
)

-- A record that was inserted in a well-formed block is found at the position that was returned,
-- inside the block, with the bytes that were given.
pub get-insert :
    (b : DataBlock) (d : List ℕ) (size p : ℕ) (b' : DataBlock)
    → IsValid b
    → length d ≡ size
    → insert b d size ≡ some (p, b')
    → (off : ℕ) × (get b' p ≡ some off)
      × (read_bytes b'.page off size ≡ d)
      × (off + size ≤ block_size)
get-insert b d size p b' valid whole h =
    let (fits, e) = Fits-insert b d size h in
    let e₀ : p ≡ b.count = ap (λ (r : ℕ × DataBlock). r.0) e in
    let e₁ : b' ≡ inserted b d size = ap (λ (r : ℕ × DataBlock). r.1) e in
    (
      lowered b size,
      rw (e₀, e₁) (get-inserted_self b d size valid fits),
      rw e₁ (read-inserted b d size valid fits whole),
      omega (arith, lowered_lem b d size valid fits, valid.inside),
    )

-- An insertion in a well-formed block leaves every record that could be read before where it was,
-- with the bytes that it had, however many of them are read.
pub get-insert_old :
    (b : DataBlock) (d : List ℕ) (size p : ℕ) (b' : DataBlock) (i off n : ℕ)
    → IsValid b
    → insert b d size ≡ some (p, b')
    → get b i ≡ some off
    → (get b' i ≡ some off) × (read_bytes b'.page off n ≡ read_bytes b.page off n)
get-insert_old b d size p b' i off n valid h g =
    let (fits, e) = Fits-insert b d size h in
    let old = get-inserted_old b d size valid fits i off g in
    let e' : b' ≡ inserted b d size = ap (λ (r : ℕ × DataBlock). r.1) e in
    rw e' (
      old.0,
      read_bytes-agree b.page _ off n
          (λ x l u. page_above b d size valid fits x (omega (arith, old.1))),
    )
