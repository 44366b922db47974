-- ===== src/Handler/Lifecycle/Disk.antt =====
-- The files of the two trees of a table, with what `BTree::create` and `BTree::open` write and read.
use example_engine.Prelude.{
  ℕ, ◌≡◌, ◌≢◌, inl, inr, refl, sym, ap, ◌∙◌, Bool, true, Option, none, some, List, [], ◌∷◌, ◌++◌,
  if◌then◌else◌, Bool-cases,
}
use example_engine.Btree.Node.{NodeBlock}
use example_engine.Btree.Tree.{BTree, get_node_block}
use example_engine.Btree.Tree.Create.{create, open_, construct}
use example_engine.Handler.Lifecycle.{Files, extension, sec_extension}
use example_engine.Handler.Lifecycle.Laws.{IsStored}
use example_engine.Handler.Engine.Tests.{same_bytes, same_bytes_self, same_bytes-eq}

module _ {K : Type 0} (blank : NodeBlock K) where
  -- the tree that each file holds
  abbrev pub Disk : Type 0
  Disk = List ℕ → Option (BTree K)

  -- `open` of a tree for keys and values of these sizes, on what a file holds
  abbrev opened_file : Option (BTree K) → ℕ → ℕ → Option (BTree K)
  opened_file none key_size value_size = none
  opened_file (some t) key_size value_size = open_ (construct t.blocks t.meta key_size value_size)

  -- Every file can be created; a name is followed by its extension.
  abbrev pub disk : Files Disk (BTree K)
  disk = record {
    format_name = λ name ext. name ++ ext;
    create_tree = λ f name key_size value_size. (
      true,
      λ other. if same_bytes other name then some (create blank key_size value_size) else f other,
    );
    open_tree = λ f name key_size value_size. opened_file (f name) key_size value_size;
    close_tree = λ f t. f;
  }

  two_extensions : (name : List ℕ) → name ++ sec_extension ≢ name ++ extension
  two_extensions [] e = cc
  two_extensions (c ∷ cs) e = two_extensions cs cc

  open_created :
      (key_size value_size : ℕ)
      → open_ (
          construct
            (create blank key_size value_size).blocks
            (create blank key_size value_size).meta
            key_size
            value_size)
        ≡ some (record (create blank key_size value_size) { root = 1 })
  unfolding open_ create construct get_node_block
  open_created key_size value_size = refl

  pub disk-IsStored : IsStored disk
  disk-IsStored = record {
    Has = λ f name key_size value_size. f name ≡ some (create blank key_size value_size);
    has_created = λ f f' name key_size value_size e.
        sym (ap (λ (r : Bool × Disk). r.1 name) e) ∙ rw (same_bytes_self name) refl;
    has_kept = λ f f' name other key_size value_size key_size' value_size' done differ here e.
        sym (ap (λ (r : Bool × Disk). r.1 other) e) ∙ elim (Bool-cases (same_bytes other name)) [
          | inl p ↦ absurd (differ (same_bytes-eq other name p))
          | inr p ↦ rw p here
        ];
    opens = λ f name key_size value_size here. (
      record (create blank key_size value_size) { root = 1 },
      ap (λ o. opened_file o key_size value_size) here ∙ open_created key_size value_size,
    );
    two_names = two_extensions;
  }
