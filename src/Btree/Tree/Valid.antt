-- ===== src/Btree/Tree/Valid.antt =====
-- The trees that `create` and `put` make: blocks represent a tree in order, the root is the last node
-- of its level, and the leaves follow each other.
use example_engine.Prelude.{ℕ, zero, suc, ◌<◌, ◌≡◌, refl, ◌∙◌}
use example_engine.Btree.Order.{Compare}
use example_engine.Btree.Node.Sorted.{All-imp}
use example_engine.Btree.Tree.{BTree, get_node_block}
use example_engine.Btree.Tree.View.{view_at, AllLead}
use example_engine.Btree.Tree.Shape.{Tree, Linked, root_index, root_next, leaves, Represents}
use example_engine.Btree.Tree.InsertTree.{Ready}

pub record Valid {K : Type 0} (cmp : Compare K) (ks lv h : ℕ) (t : BTree K) (T : Tree K h)
    : Type 0 where
  pub ready : Ready cmp ks lv h t T
  pub root_is : root_index K h T ≡ t.root
  pub meta_is : t.meta.root ≡ t.root
  pub keys : t.key_size ≡ ks
  pub sizes : t.leaf_value_size ≡ lv
  pub ends : root_next K h T ≡ 0
  pub low : h < t.meta.count_of_block
  pub linked : (a : ℕ) × Linked a (leaves K h T) 0

module _ {K : Type 0} where
  -- other numbers in the metadata, and another root
  abbrev pub labelled : BTree K → ℕ → ℕ → ℕ → BTree K
  labelled t r k top = record t { meta = record t.meta { root = r; count_of_item = k }; root = top }

  pub view_at-labelled :
      (t : BTree K) (r k top i : ℕ) → view_at (labelled t r k top) i ≡ view_at t i
  unfolding view_at get_node_block
  view_at-labelled t r k top i = refl

  pub AllLead-labelled : (t : BTree K) (r k top : ℕ) → AllLead t → AllLead (labelled t r k top)
  unfolding view_at get_node_block
  AllLead-labelled t r k top a = a

  pub Represents-labelled :
      (ks lv h : ℕ) (t : BTree K) (r k top : ℕ) (T : Tree K h)
      → Represents K ks lv h t T
      → Represents K ks lv h (labelled t r k top) T
  Represents-labelled ks lv zero t r k top T (at, places) =
      (view_at-labelled t r k top T.index ∙ at, places)
  Represents-labelled ks lv (suc h) t r k top T (at, kids) = (
    view_at-labelled t r k top T.index ∙ at,
    All-imp _ _ (λ (j, c) p. Represents-labelled ks lv h t r k top c p) T.kids kids,
  )
