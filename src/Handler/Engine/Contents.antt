-- ===== src/Handler/Engine/Contents.antt =====
-- The map that a tree keeps, as the engine relies on it, and the maps that its loops over the
-- secondary indexes make.
use example_engine.Prelude.{
  ℕ, suc, ◌<◌, ◌≡◌, ◌≢◌, Bool, false, Option, none, some, List, [], ◌∷◌, length, if◌then◌else◌,
}
use example_engine.Btree.Tree.Insert.{inserted, duplicate}
use example_engine.Btree.Tree.Iterator.{exact_key}
use example_engine.Handler.Engine.{Trees}

-- the value that a tree holds under each key
abbrev pub Contents : Type 0
Contents = List ℕ → Option (List ℕ)

-- which keys a tree's comparison takes for the same
abbrev pub Same : Type 0
Same = List ℕ → List ℕ → Bool

-- the values that go into a tree: those of its constant size, or of less than 4066 bytes
abbrev pub IsValue : Option ℕ → List ℕ → Type 0
IsValue none v = length v < 4066
IsValue (some size) v = (length v ≡ size) × (size < 4066)

abbrev pub stored : Same → List ℕ → List ℕ → Contents → Contents
stored same k v c k' = if same k k' then some v else c k'

-- the secondary keys of a row, each without a value
abbrev pub stored_all : Same → List (List ℕ) → Contents → Contents
stored_all same [] c = c
stored_all same (k ∷ ks) c = stored_all same ks (stored same k [] c)

-- each key is new when it is stored
abbrev pub AreNew : Same → List (List ℕ) → Contents → Type 0
AreNew same [] c = Unit {0}
AreNew same (k ∷ ks) c = (c k ≡ none) × AreNew same ks (stored same k [] c)

-- What a tree promises: it shows a map whose keys are told apart by its comparison, with values of
-- its constant size or of any, and has block numbers for so many insertions.
pub record IsMap {T I : Type 0} (trees : Trees T I) : Type 1 where
  pub Shows : T → Same → Option ℕ → Contents → ℕ → Type 0
  pub put_new :
      (t : T) (same : Same) (size : Option ℕ) (c : Contents) (n : ℕ) (k v : List ℕ)
      → Shows t same size c (suc n)
      → IsValue size v
      → c k ≡ none
      → (t' : T) × (trees.put t k v (length v) ≡ some (inserted, t'))
        × Shows t' same size (stored same k v c) n
  pub put_old :
      (t : T) (same : Same) (size : Option ℕ) (c : Contents) (n : ℕ) (k v : List ℕ)
      → Shows t same size c (suc n)
      → IsValue size v
      → c k ≢ none
      → trees.put t k v (length v) ≡ some (duplicate, t)
  pub locate_none :
      (t : T) (same : Same) (size : Option ℕ) (c : Contents) (n : ℕ) (k : List ℕ)
      → Shows t same size c n
      → c k ≡ none
      → (it : I) × (trees.locate t k exact_key ≡ some (false, it))
