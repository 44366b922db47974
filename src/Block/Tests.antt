-- ===== src/Block/Tests.antt =====
-- A data block and a block of words at inputs.
use example_engine.Prelude.{
  ℕ, ◌+◌, ◌≤◌, ◌≡◌, ◌↔◌, refl, true, false, some, none, List, [], ◌∷◌, arith, set,
}
use example_engine.Prelude.Memory.{read_bytes, read16, write16, write_bytes}
use example_engine.Block.Header.{free_block, block_size}
use example_engine.Block.Data.{DataBlock, init, insert, inserted, get}
use example_engine.Block.Data.Records.{
  IsValid, init-IsValid, insert-IsValid, get-insert, get-insert_old, Fits,
}
use example_engine.Block.Checksum.{compute, check, sum_words, fold}
use example_engine.Block.Checksum.Sound.{IsBlock, check-compute, check-set}

abbrev raw : DataBlock
raw = record {
  header = record {
    magic = 0;
    type = free_block;
    reserved = 1;
    checksum = 0;
    index = 0;
    next = 0;
    last = 0;
  };
  count = 7;
  free = 9;
  page = λ _. 0xff;
}

fresh : DataBlock
unfolding init
fresh = init raw 5

abbrev hello : List ℕ
hello = 104 ∷ 101 ∷ 108 ∷ 108 ∷ 111 ∷ []

one : DataBlock
unfolding fresh inserted write16 write_bytes
one = inserted fresh hello 5

insert-hello : insert fresh hello 5 ≡ some (0, one)
unfolding fresh one insert
insert-hello = refl

insert_too_big : insert fresh hello 4067 ≡ none
unfolding fresh insert
insert_too_big = refl

get_hello : get one 0 ≡ some 4089
unfolding one get read16
get_hello = refl

fresh-IsValid : IsValid fresh
unfolding fresh
fresh-IsValid = init-IsValid raw 5

insert-IsValid_example :
    ((r : ℕ × DataBlock)
      → insert fresh hello 5 ≡ some r
      → IsValid r.1 × (r.1.count ≡ fresh.count + 1))
    × (Fits fresh 5 ↔ ((r : ℕ × DataBlock) × (insert fresh hello 5 ≡ some r)))
insert-IsValid_example = insert-IsValid fresh hello 5 fresh-IsValid

get-insert_example :
    (off : ℕ) × (get one 0 ≡ some off)
    × (read_bytes one.page off 5 ≡ hello)
    × (off + 5 ≤ block_size)
get-insert_example = get-insert fresh hello 5 0 one fresh-IsValid refl insert-hello

one-IsValid : IsValid one
one-IsValid = ((insert-IsValid fresh hello 5 fresh-IsValid).0 (0, one) insert-hello).0

two : DataBlock
unfolding one
two = inserted one (119 ∷ []) 1

insert_second : insert one (119 ∷ []) 1 ≡ some (1, two)
unfolding one two insert
insert_second = refl

get-insert_old_example :
    (get two 0 ≡ some 4089) × (read_bytes two.page 4089 5 ≡ read_bytes one.page 4089 5)
get-insert_old_example =
    get-insert_old one (119 ∷ []) 1 1 two 0 4089 5 one-IsValid insert_second get_hello

-- 8 words for a short block
abbrev words : List ℕ
words = 0xc6c1 ∷ 0x1ef0 ∷ 3 ∷ 77 ∷ 1 ∷ 0 ∷ 65535 ∷ 9 ∷ []

words-IsBlock : IsBlock words
words-IsBlock = omega arith

check-compute_example : check (compute words) ≡ true
check-compute_example = check-compute words words-IsBlock

abbrev sealed : List ℕ
sealed = 0xc6c1 ∷ 0x1ef0 ∷ 3 ∷ 6721 ∷ 1 ∷ 0 ∷ 65535 ∷ 9 ∷ []

compute-words : compute words ≡ sealed
unfolding compute sum_words fold
compute-words = refl

sealed_checks : check sealed ≡ true
unfolding check sum_words fold
sealed_checks = refl

-- That of 0 to 65535 is not.
sealed_changed_checks : check (set sealed 5 65535) ≡ true
unfolding check sum_words fold
sealed_changed_checks = refl

-- The change of the word 9 to 10 is seen.
check-set_example : check (set sealed 7 10) ≡ false
check-set_example =
    check-set sealed 7 9 10 (omega arith) refl (omega arith) sealed_checks (omega arith)
