-- ===== src/Handler/Engine/Kept.antt =====
-- The B+tree as the engine's map: a tree with its comparison, the operations of `BTree` and of its
-- iterator on it, and the map of its live entries.
use example_engine.Prelude.{
  ℕ, zero, suc, ◌+◌, ◌^◌, ◌≤◌, ◌<◌, ◌≡◌, ◌≢◌, inl, inr, refl, sym, ap, ◌∙◌, subst, true, false,
  Option, none, some, List, [], length, take, arith, ◌>>=◌, Bool-cases,
}
use example_engine.Block.Data.{DataBlock}
use example_engine.Btree.Order
use example_engine.Btree.Order.{Compare, IsOrder}
use example_engine.Btree.Node.{Value, NodeBlock, bytes}
use example_engine.Btree.Node.Sorted.{is_live}
use example_engine.Btree.Node.Live.{
  live_value, is_live-value, live_value-insert_self, live_value-insert_other, live_value-same,
}
use example_engine.Btree.Tree.{BTree}
use example_engine.Btree.Tree.Values.{DataKept}
use example_engine.Btree.Tree.Insert.{inserted, duplicate, put}
use example_engine.Btree.Tree.Iterator
use example_engine.Btree.Tree.Iterator.{Iterator, exact_key, Pointer}
use example_engine.Btree.Tree.Shape.{Tree, entries, Means, Fits, room}
use example_engine.Btree.Tree.Valid.{Valid}
use example_engine.Btree.Tree.Put.{put-insert_sorted}
use example_engine.Btree.Tree.Locate.{Located, locate-Located}
use example_engine.Handler.Engine.{Trees}
use example_engine.Handler.Engine.Contents.{Contents, Same, IsValue, stored, IsMap}

-- A tree with the comparison that it was constructed with.
pub record OrderedTree : Type 0 where
  pub tree : BTree (List ℕ)
  pub cmp : Compare (List ℕ)

-- block numbers for so many insertions into a tree of that many blocks and that height
abbrev pub HasNumbers : ℕ → ℕ → ℕ → Type 0
HasNumbers zero count h = Unit {0}
HasNumbers (suc n) count h = (count + h + 3 < 2 ^ 32) × HasNumbers n (count + h + 3) (h + 1)

fewer :
    (n count h count' h' : ℕ)
    → HasNumbers n count h
    → count' ≤ count
    → h' ≤ h
    → HasNumbers n count' h'
fewer zero count h count' h' numbers le le' = tt
fewer (suc n) count h count' h' (here, rest) le le' = (
  omega arith,
  fewer n (count + h + 3) (h + 1) (count' + h' + 3) (h' + 1) rest (omega arith) (omega arith),
)

-- the size that a map's values have in a tree of leaves with values of `lv` bytes
abbrev pub IsSize : BTree (List ℕ) → ℕ → Option ℕ → Type 0
IsSize t lv none = t.is_const_value_size ≡ false
IsSize t lv (some size) = (t.is_const_value_size ≡ true) × (lv ≡ size)

-- a live value and the bytes that it means
abbrev pub Agrees : BTree (List ℕ) → Option Value → Option (List ℕ) → Type 0
Agrees t none o = o ≡ none
Agrees t (some v) o = (b : List ℕ) × (o ≡ some b) × Means (List ℕ) t v b

-- A valid tree whose live entries are the map.
pub record ShowsMap (k : OrderedTree) (same : Same) (size : Option ℕ) (c : Contents) (n : ℕ)
    : Type 0 where
  pub order : IsOrder k.cmp
  pub same_is : (a b : List ℕ) → same a b ≡ Order.same k.cmp a b
  pub ks : ℕ
  pub lv : ℕ
  pub wide : (h : ℕ) → 3 ≤ room ks lv h
  pub h : ℕ
  pub T : Tree (List ℕ) h
  pub valid : Valid k.cmp ks lv h k.tree T
  pub size_is : IsSize k.tree lv size
  pub numbers : HasNumbers n k.tree.meta.count_of_block h
  pub agrees : (key : List ℕ) → Agrees k.tree (live_value k.cmp key (entries (List ℕ) h T)) (c key)

module _ (blank : NodeBlock (List ℕ)) (blank_data : DataBlock) where
  -- the operations of `BTree` and of its iterator; `getValue` is left to the reader of the blocks
  abbrev pub btrees : (BTree (List ℕ) → Pointer → Option (List ℕ)) → Trees OrderedTree Iterator
  btrees read = record {
    put = λ k key value size. put blank blank_data k.cmp k.tree key value size >>= λ (res, t).
        some (res, record k { tree = t });
    locate = λ k key flag. Iterator.locate k.cmp k.tree key flag;
    first = λ k. Iterator.first k.tree;
    last = λ k. Iterator.last k.tree;
    next = λ k it. Iterator.next k.tree it;
    prev = λ k it. Iterator.prev k.tree it;
    remove = λ k it. Iterator.remove k.tree it >>= λ t. some (record k { tree = t });
    get_key = λ k it. Iterator.get_key k.tree it;
    get_value = λ k it. Iterator.value_of k.tree it >>= λ p. some (read k.tree p);
    count_of_items = λ k. k.tree.meta.count_of_item;
  }

  -- what an insertion leaves of the bytes that a value means
  Means-put :
      (t t' : BTree (List ℕ)) (v : Value) (b : List ℕ)
      → t'.is_const_value_size ≡ t.is_const_value_size
      → t'.leaf_value_size ≡ t.leaf_value_size
      → t.meta.count_of_block ≤ t'.meta.count_of_block
      → DataKept t t'
      → Means (List ℕ) t v b
      → Means (List ℕ) t' v b
  Means-put t t' v b const size more data_ (inl (e, f)) =
      inl (const ∙ e, f ∙ ap (λ n. bytes (take n b)) (sym size))
  Means-put t t' v b const size more data_ (inr (l, d, off, f, used, at, found, read)) =
      let (d', at', same) = data_ l.index d used at in
      let (found', read') = same l.position off (length b) found in
      inr (l, d', off, f, omega (arith, used, more), at', found', read' ∙ read)

  Agrees-put :
      (t t' : BTree (List ℕ)) (v : Option Value) (o : Option (List ℕ))
      → t'.is_const_value_size ≡ t.is_const_value_size
      → t'.leaf_value_size ≡ t.leaf_value_size
      → t.meta.count_of_block ≤ t'.meta.count_of_block
      → DataKept t t'
      → Agrees t v o
      → Agrees t' v o
  Agrees-put t t' none o const size more data_ a = a
  Agrees-put t t' (some v) o const size more data_ (b, e, m) =
      (b, e, Means-put t t' v b const size more data_ m)

  Agrees-none : (t : BTree (List ℕ)) (v : Option Value) → Agrees t v none → v ≡ none
  Agrees-none t none a = refl
  Agrees-none t (some v) (b, e, m) = cc

  Agrees-some :
      (t : BTree (List ℕ)) (v : Option Value) (o : Option (List ℕ))
      → Agrees t v o
      → o ≢ none
      → (w : Value) × (v ≡ some w)
  Agrees-some t none o a present = absurd (present a)
  Agrees-some t (some v) o a present = (v, refl)

  IsValue-short : (size : Option ℕ) (v : List ℕ) → IsValue size v → length v < 4066
  IsValue-short none v e = e
  IsValue-short (some n) v (e, f) = omega (arith, e, f)

  IsValue-Fits :
      (t : BTree (List ℕ)) (lv : ℕ) (size : Option ℕ) (v : List ℕ)
      → t.leaf_value_size ≡ lv
      → IsSize t lv size
      → IsValue size v
      → Fits (List ℕ) t v
  IsValue-Fits t lv none v leaf e f const = (let q : false ≡ true = sym e ∙ const in absurd (cc))
  IsValue-Fits t lv (some n) v leaf (e, g) (f, f') const = omega (arith, leaf, g, f)

  IsSize-same :
      (t t' : BTree (List ℕ)) (lv : ℕ) (size : Option ℕ)
      → t'.is_const_value_size ≡ t.is_const_value_size
      → IsSize t lv size
      → IsSize t' lv size
  IsSize-same t t' lv none const e = const ∙ e
  IsSize-same t t' lv (some n) const (e, f) = (const ∙ e, f)

  module _ (read : BTree (List ℕ) → Pointer → Option (List ℕ)) (k : OrderedTree) (same : Same)
      (size : Option ℕ) (c : Contents) (n : ℕ) (key value : List ℕ) where
    abbrev PutsNew : Type 0
    PutsNew =
        (k' : OrderedTree) × ((btrees read).put k key value (length value) ≡ some (inserted, k'))
        × ShowsMap k' same size (stored same key value c) n

    pub put-ShowsMap :
        ShowsMap k same size c (suc n)
        → IsValue size value
        → (c key ≡ none → PutsNew)
          × (c key ≢ none → (btrees read).put k key value (length value) ≡ some (duplicate, k))
    put-ShowsMap s fit =
        let es = entries (List ℕ) s.h s.T in
        let result =
          put-insert_sorted blank blank_data k.cmp s.order s.ks s.lv s.wide key value
            (IsValue-short size value fit) s.h k.tree s.T s.valid
            (IsValue-Fits k.tree s.lv size value s.valid.sizes s.size_is fit) s.numbers.0 in
        (
          λ absent.
              let gone : live_value k.cmp key es ≡ none =
                Agrees-none k.tree (live_value k.cmp key es)
                  (subst (Agrees k.tree (live_value k.cmp key es)) absent (s.agrees key)) in
              let dead : is_live k.cmp key es ≡ false = is_live-value k.cmp key es ∙ rw gone refl in
              let (
                t',
                v,
                h',
                T',
                run,
                valid',
                low,
                set,
                means,
                items,
                data_,
                (const, leaf, more, bound),
              ) =
                rw dead at result in
              (
                record k { tree = t' },
                rw run refl,
                record {
                  order = s.order;
                  same_is = s.same_is;
                  ks = s.ks;
                  lv = s.lv;
                  wide = s.wide;
                  h = h';
                  T = T';
                  valid = valid';
                  size_is = IsSize-same k.tree t' s.lv size const s.size_is;
                  numbers = fewer n _ _ _ _ s.numbers.1 bound low;
                  agrees = λ key'. elim (Bool-cases (same key key')) [
                    | inl q ↦
                        let e =
                          ap (live_value k.cmp key') set
                          ∙ sym (
                              live_value-same k.cmp s.order key key' _
                                (sym (s.same_is key key') ∙ q))
                          ∙ live_value-insert_self k.cmp s.order key v es in
                        rw q (subst (λ o. Agrees t' o (some value)) (sym e) (value, refl, means))
                    | inr q ↦
                        let e =
                          ap (live_value k.cmp key') set
                          ∙ live_value-insert_other k.cmp s.order key key' v es
                              (sym (s.same_is key key') ∙ q) in
                        rw q (
                          subst (λ o. Agrees t' o (c key')) (sym e)
                            (Agrees-put k.tree t' (live_value k.cmp key' es) (c key') const leaf
                              more data_ (s.agrees key')))
                  ];
                },
              ),
          λ present.
              let (w, there) =
                Agrees-some k.tree (live_value k.cmp key es) (c key) (s.agrees key) present in
              let alive : is_live k.cmp key es ≡ true =
                is_live-value k.cmp key es ∙ rw there refl in
              let run = rw alive at result in rw run refl,
        )

    pub locate-ShowsMap :
        ShowsMap k same size c n
        → c key ≡ none
        → (it : Iterator) × ((btrees read).locate k key exact_key ≡ some (false, it))
    locate-ShowsMap s absent =
        let es = entries (List ℕ) s.h s.T in
        let gone : live_value k.cmp key es ≡ none =
          Agrees-none k.tree (live_value k.cmp key es)
            (subst (Agrees k.tree (live_value k.cmp key es)) absent (s.agrees key)) in
        let found = locate-Located k.cmp key s.order s.ks s.lv s.h k.tree s.T s.valid in
        subst (Located k.cmp key k.tree) gone found

  -- The B+tree keeps a map.
  abbrev pub btrees-IsMap :
      (read : BTree (List ℕ) → Pointer → Option (List ℕ)) → IsMap (btrees read)
  btrees-IsMap read = record {
    Shows = ShowsMap;
    put_new =
        λ k same size c n key value s fit. (put-ShowsMap read k same size c n key value s fit).0;
    put_old =
        λ k same size c n key value s fit. (put-ShowsMap read k same size c n key value s fit).1;
    locate_none = λ k same size c n key s. locate-ShowsMap read k same size c n key [] s;
  }
