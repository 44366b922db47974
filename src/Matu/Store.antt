-- ===== src/Matu/Store.antt =====
-- `insert`, `query`, `del` and `update` of lib/matu.h, over what they use of the tree. `none` is
-- undefined behaviour: a condition with nothing assigned, a record that does not decode, or a loop
-- that runs longer than the tree has items.
pub mod Statement
mod Tests
use example_engine.Prelude.{
  ℕ, zero, suc, ◌+◌, Bool, true, false, Option, none, some, List, [], ◌∷◌, ◌++◌, if◌then◌else◌,
  ◌>>=◌,
}
use example_engine.Prelude.Int.{ℤ, lt_int}
use example_engine.Btree.Tree.Iterator.{IterFlag, key_or_next}
use example_engine.Matu.Condition.{Condition, ResFlag, and_, or_, eq_first, hi, lo, parse}
use example_engine.Matu.Row.{RowData}
use example_engine.Matu.Store.Statement.{Change, up, parse_set}

-- The operations of the tree and its iterator, with `decode` behind `getValue` and `encode` in front
-- of `put`. `limit` is more than the number of items.
pub record Index (S I : Type 0) : Type 0 where
  pub first : S → Option (Bool × I)
  pub locate : S → ℤ → IterFlag → Option (Bool × I)
  pub next : S → I → Option (Bool × I)
  pub row : S → I → Option RowData
  pub remove : S → I → Option S
  pub put : S → RowData → Option S
  pub limit : S → ℕ

-- `if (d.id > bound) break;`, where the loop has a bound
abbrev pub beyond : Option ℤ → RowData → Bool
beyond none d = false
beyond (some bound) d = lt_int bound d.id

module _ {S I : Type 0} (index : Index S I) where
  -- `do { ... } while (it.next());`, the rows pushed in their order
  unfoldable pub collect : ℕ → S → I → Option ℤ → Option (List RowData)
  collect zero s it bound = none
  collect (suc fuel) s it bound = do
    d ← index.row s it
    let rest =
        (index.next s it >>= λ (more, it').
        let r = collect fuel s it' bound in if more then r else some [])
    (if beyond bound d then some [] else (rest >>= λ ds. some (d ∷ ds)))

  -- the loop, if the iterator could be placed
  abbrev pub collect_from : S → Option (Bool × I) → Option ℤ → Option (List RowData)
  collect_from s placed bound =
      placed >>= λ (found, it). if found then collect (index.limit s) s it bound else some []

  -- the `switch` of `query`
  unfoldable pub query_condition : S → Condition → Option (List RowData)
  unfolding collect
  query_condition s con = elim con.flag [
    | and_ ↦ (con.b >>= λ b. collect_from s (index.locate s con.a key_or_next) (some b))
    | or_ ↦
        (con.b >>= λ b. collect_from s (index.first s) (some con.a) >>= λ front.
        collect_from s (index.locate s b key_or_next) none >>= λ back. some (front ++ back))
    | eq_first ↦
        (index.locate s con.a key_or_next >>= λ (found, it).
        if found then (index.row s it >>= λ d. some (d ∷ [])) else some [])
    | hi ↦ collect_from s (index.first s) (some con.a)
    | lo ↦ collect_from s (index.locate s con.a key_or_next) none
    | _ ↦ some []
  ]

  unfoldable pub query : S → List ℕ → Option (List RowData)
  unfolding query_condition parse
  query s sql = parse sql >>= query_condition s

  -- The loops of `del` and `update`: what is done to each row, given the state and the iterator.
  unfoldable pub each : (S → I → RowData → Option S) → ℕ → S → I → Option ℤ → Option S
  each act zero s it bound = none
  each act (suc fuel) s it bound = do
    d ← index.row s it
    let rest =
        (act s it d >>= λ s'. index.next s' it >>= λ (more, it').
        let r = each act fuel s' it' bound in if more then r else some s')
    (if beyond bound d then some s else rest)

  abbrev pub each_from : (S → I → RowData → Option S) → S → Option (Bool × I) → Option ℤ → Option S
  each_from act s placed bound =
      placed >>= λ (found, it). if found then each act (index.limit s) s it bound else some s

  -- the `switch` of `del` and of `update`
  unfoldable pub each_condition : (S → I → RowData → Option S) → S → Condition → Option S
  unfolding each
  each_condition act s con = elim con.flag [
    | and_ ↦ (con.b >>= λ b. each_from act s (index.locate s con.a key_or_next) (some b))
    | or_ ↦
        (con.b >>= λ b. each_from act s (index.first s) (some con.a) >>= λ s'.
        each_from act s' (index.locate s' b key_or_next) none)
    | eq_first ↦
        (index.locate s con.a key_or_next >>= λ (found, it).
        if found then (index.row s it >>= λ d. act s it d) else some s)
    | hi ↦ each_from act s (index.first s) (some con.a)
    | lo ↦ each_from act s (index.locate s con.a key_or_next) none
    | _ ↦ some s
  ]

  -- `it.remove();`
  abbrev pub delete_row : S → I → RowData → Option S
  delete_row s it d = index.remove s it

  unfoldable pub del : S → List ℕ → Option S
  unfolding each_condition parse
  del s sql = parse sql >>= each_condition delete_row s

  -- `it.remove(); void *t = up(...); bTree->put(&d.id, t, ...);`
  abbrev pub rewrite_row : Change → S → I → RowData → Option S
  rewrite_row change s it d = index.remove s it >>= λ s'. index.put s' (up d change)

  unfoldable pub update : S → List ℕ → Option S
  unfolding each_condition parse parse_set up
  update s sql = do
    change ← parse_set sql
    con ← parse sql
    each_condition (rewrite_row change) s con

  -- `insert(std::vector<RowData>)`
  unfoldable pub insert : S → List RowData → Option S
  insert s [] = some s
  insert s (r ∷ rows) = index.put s r >>= λ s'. insert s' rows
