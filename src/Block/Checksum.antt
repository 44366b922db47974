-- ===== src/Block/Checksum.antt =====
-- `BlockHeader::compute` and `BlockHeader::check` of lib/block.cpp. A block is the list of its
-- 16-bit words; the checksum is the word at `checksum_at`.
pub mod Sound
use example_engine.Prelude.{
  ℕ, zero, suc, ◌+◌, ◌-◌, ◌/◌, ◌%◌, ◌^◌, Bool, List, [], ◌∷◌, ◌==◌, if◌then◌else◌, set,
}
use example_engine.Block.Header.{u16, u32}

-- the word of `checksum` behind `magic` and the bit fields
abbrev pub checksum_at : ℕ
checksum_at = 3

-- `for (...) sum += ((u16*)this)[i];` in `u32`
unfoldable pub sum_words : ℕ → List ℕ → ℕ
sum_words sum [] = sum
sum_words sum (w ∷ ws) = sum_words (u32 (sum + w)) ws

-- `while (sum >> 16) sum = (sum & 0xffff) + (sum >> 16);` for so many rounds at most
unfoldable pub fold : ℕ → ℕ → ℕ
fold zero sum = sum
fold (suc rounds) sum =
    let rest = fold rounds (sum % 2 ^ 16 + sum / 2 ^ 16) in if sum / 2 ^ 16 == 0 then sum else rest

-- Two rounds bring any `u32` below 2^16.
abbrev pub fold_rounds : ℕ
fold_rounds = 2

-- the word that the block has for its checksum
abbrev pub checksum_of : List ℕ → ℕ
checksum_of (_ ∷ _ ∷ _ ∷ c ∷ _) = c
checksum_of _ = 0

-- `~sum`, as a `u16`
abbrev pub complement : ℕ → ℕ
complement sum = u16 (2 ^ 32 - 1 - sum)

unfoldable pub compute : List ℕ → List ℕ
compute block =
    set block checksum_at
      (complement (fold fold_rounds (u32 (sum_words 0 block + 2 ^ 32 - checksum_of block))))

unfoldable pub check : List ℕ → Bool
check block = fold fold_rounds (sum_words 0 block) == 0xffff
