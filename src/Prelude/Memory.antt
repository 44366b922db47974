-- ===== src/Prelude/Memory.antt =====
-- Memory as bytes at addresses: single bytes, little-endian words and `memcpy`.
use Prim.Native.Nat.{ℕ, zero, suc, ◌+◌, ◌*◌, ◌/◌, ◌%◌, ◌≤◌, ◌<◌}
use mathlib.Core.Path.{◌≡◌, refl, ap₂}
use mathlib.Core.Logic.{◌⊎◌, inl, inr}
use mathlib.Core.List.{List, [], ◌∷◌}
use native.Mathlib.Omega.{arith}
use example_engine.Prelude.Tests.{◌==◌, if◌then◌else◌}
use example_engine.Prelude.Lists.{length}

abbrev pub Memory : Type 0
Memory = ℕ → ℕ

unfoldable pub write8 : Memory → ℕ → ℕ → Memory
write8 m a v x = if x == a then v else m x

-- `*(u16*)(p + a)`
unfoldable pub read16 : Memory → ℕ → ℕ
read16 m a = m a + 256 * m (a + 1)

unfoldable pub write16 : Memory → ℕ → ℕ → Memory
unfolding write8
write16 m a v = write8 (write8 m a (v % 256)) (a + 1) (v / 256)

-- `memcpy(p + a, data, n)` for `n` the length of the list
unfoldable pub write_bytes : Memory → ℕ → List ℕ → Memory
write_bytes m a [] = m
write_bytes m a (b ∷ bs) = write_bytes (write8 m a b) (a + 1) bs

-- the `n` bytes at `p + a`
unfoldable pub read_bytes : Memory → ℕ → ℕ → List ℕ
read_bytes m a zero = []
read_bytes m a (suc n) = m a ∷ read_bytes m (a + 1) n

pub read16-write16_self : (m : Memory) (a v : ℕ) → read16 (write16 m a v) a ≡ v
unfolding read16 write16
read16-write16_self m a v = ground arith

pub write16_elsewhere : (m : Memory) (a v x : ℕ) → (x < a) ⊎ (a + 2 ≤ x) → write16 m a v x ≡ m x
unfolding write16
write16_elsewhere m a v x h = ground arith

-- Bytes outside the copied range keep their values.
pub write_bytes_elsewhere :
    (m : Memory) (a : ℕ) (bs : List ℕ) (x : ℕ)
    → (x < a) ⊎ (a + length bs ≤ x)
    → write_bytes m a bs x ≡ m x
unfolding write_bytes write8
write_bytes_elsewhere m a [] x h = refl
write_bytes_elsewhere m a (b ∷ bs) x (inl h) =
    ground (arith, write_bytes_elsewhere (write8 m a b) (a + 1) bs x (inl (omega arith)))
write_bytes_elsewhere m a (b ∷ bs) x (inr h) =
    ground (arith, write_bytes_elsewhere (write8 m a b) (a + 1) bs x (inr (omega arith)))

-- What was copied is read back.
pub read_bytes-write_bytes :
    (m : Memory) (a : ℕ) (bs : List ℕ) → read_bytes (write_bytes m a bs) a (length bs) ≡ bs
unfolding read_bytes write_bytes write8
read_bytes-write_bytes m a [] = refl
read_bytes-write_bytes m a (b ∷ bs) =
    ap₂ ◌∷◌ (ground (arith, write_bytes_elsewhere (write8 m a b) (a + 1) bs a (inl (omega arith))))
      (read_bytes-write_bytes (write8 m a b) (a + 1) bs)

-- A range on which two memories agree reads the same.
pub read_bytes-agree :
    (m m' : Memory) (a n : ℕ)
    → ((x : ℕ) → a ≤ x → x < a + n → m' x ≡ m x)
    → read_bytes m' a n ≡ read_bytes m a n
unfolding read_bytes
read_bytes-agree m m' a zero h = refl
read_bytes-agree m m' a (suc n) h =
    ap₂ ◌∷◌ (h a (omega arith) (omega arith))
      (read_bytes-agree m m' (a + 1) n (λ x p q. h x (omega arith) (omega arith)))
