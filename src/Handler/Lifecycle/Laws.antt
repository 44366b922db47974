-- ===== src/Handler/Lifecycle/Laws.antt =====
-- A table that `create` made can be opened, with the key lengths that its trees were made for.
use example_engine.Prelude.{
  ℕ, ◌≡◌, ◌≢◌, ◌⊎◌, inl, inr, refl, sym, ap, ◌∙◌, Bool, true, false, Option, none, some, List, ltb,
  if◌then◌else◌, subst, [], ◌∷◌, map, length, leb, arith, ◌<◌, ◌+◌, ◌^◌,
}
use example_engine.Block.Header.{u16}
use example_engine.Handler.Table.{Key, Table}
use example_engine.Handler.Keys.{keys}
use example_engine.Handler.Engine.{Code, ok, internal_error}
use example_engine.Handler.Lifecycle.{
  Files, Opened, longest, opened, extension, sec_extension, any_size, no_size, primary_key_length,
  second_key_size, with_trees, create_secondary, create, open_,
}

-- What the file system does: a file that holds a new tree can be opened as such, and the creation of
-- another leaves it; the names of a table's two files differ.
pub record IsStored {F T : Type 0} (files : Files F T) : Type 1 where
  pub Has : F → List ℕ → ℕ → ℕ → Type 0
  pub has_created :
      (f f' : F) (name : List ℕ) (key_size value_size : ℕ)
      → files.create_tree f name key_size value_size ≡ (true, f')
      → Has f' name key_size value_size
  pub has_kept :
      (f f' : F) (name other : List ℕ) (key_size value_size key_size' value_size' : ℕ) (done : Bool)
      → other ≢ name
      → Has f other key_size value_size
      → files.create_tree f name key_size' value_size' ≡ (done, f')
      → Has f' other key_size value_size
  pub opens :
      (f : F) (name : List ℕ) (key_size value_size : ℕ)
      → Has f name key_size value_size
      → (t : T) × (files.open_tree f name key_size value_size ≡ some t)
  pub two_names :
      (name : List ℕ) → files.format_name name sec_extension ≢ files.format_name name extension

-- An operation that returns an error where the test fails, and returns 0, has passed the test.
passed :
    {F : Type 0} (b : Bool) (x : Code × F) (f f' : F)
    → (if b then x else (internal_error, f)) ≡ (ok, f')
    → (b ≡ true) × (x ≡ (ok, f'))
passed true x f f' e = (refl, e)
passed {F = F} false x f f' e = let q : internal_error ≡ ok = ap (λ (r : Code × F). r.0) e in cc

-- Where the part for the secondary keys returned 0, it made its file or there was nothing to make.
made_or_none :
    {F : Type 0} (more done : Bool) (f₁ f f' : F)
    → ◌≡◌ {A = Code × F}
        (if more then (if done then ok else internal_error, f₁) else (ok, f))
        (ok, f')
    → ((more ≡ true) × (done ≡ true) × (f₁ ≡ f')) ⊎ ((more ≡ false) × (f ≡ f'))
made_or_none {F = F} true true f₁ f f' e = inl (refl, refl, ap (λ (r : Code × F). r.1) e)
made_or_none {F = F} true false f₁ f f' e =
    let q : internal_error ≡ ok = ap (λ (r : Code × F). r.0) e in cc
made_or_none {F = F} false done f₁ f f' e = inr (refl, ap (λ (r : Code × F). r.1) e)

-- the greatest number of a list, 0 if it is empty
abbrev pub max_list : List ℕ → ℕ
max_list [] = 0
max_list (n ∷ ns) = let rest = max_list ns in if leb n rest then rest else n

-- the length of the longest key
abbrev pub key_lengths : List Key → ℕ
key_lengths ks = max_list (map (λ (k : Key). k.key_length) ks)

longest-max_list :
    (ks : List Key) (so_far : ℕ)
    → key_lengths ks < 2 ^ 16
    → longest so_far ks ≡ (if leb so_far (key_lengths ks) then key_lengths ks else so_far)
unfolding longest
longest-max_list [] so_far short = ground arith
longest-max_list (k ∷ ks) so_far short =
    let n = if ltb so_far k.key_length then u16 k.key_length else so_far in
    longest-max_list ks n (ground (arith, short)) ∙ ground (arith, short)

-- the test for more than one key
second_cases :
    (ks : List Key)
    → ((ks ≡ []) × (ltb 1 (length ks + 1) ≡ false)) ⊎ ((ks ≢ []) × (ltb 1 (length ks + 1) ≡ true))
second_cases [] = inl (refl, ground arith)
second_cases (k ∷ ks) = inr (λ e. cc, ground arith)

module _ (table : Table) {F T : Type 0} (files : Files F T) (stored : IsStored files) where
  -- the name of the table's first file, and of the second
  abbrev first_name : List ℕ → List ℕ
  first_name name = files.format_name name extension

  abbrev second_name : List ℕ → List ℕ
  second_name name = files.format_name name sec_extension

  -- The files of the table `name` are there, the second if there is more than one key.
  abbrev Made : F → List ℕ → Type 0
  Made f name =
      stored.Has f (first_name name) (primary_key_length table) any_size
      × (ltb 1 (keys table) ≡ true
          → stored.Has f (second_name name) (second_key_size table) no_size)

  create_secondary-Made :
      (f f' : F) (name : List ℕ)
      → stored.Has f (first_name name) (primary_key_length table) any_size
      → create_secondary table files f name ≡ (ok, f')
      → Made f' name
  create_secondary-Made f f' name first e =
      let r = files.create_tree f (second_name name) (second_key_size table) no_size in
      let kept =
        stored.has_kept f r.1 (second_name name) (first_name name) (primary_key_length table)
          any_size (second_key_size table) no_size r.0 (λ same. stored.two_names name (sym same))
          first refl in
      elim (made_or_none (ltb 1 (keys table)) r.0 r.1 f f' e) [
        | inl (_, done, same) ↦
            let second =
              stored.has_created f r.1 (second_name name) (second_key_size table) no_size
                (ap (λ b. (b, r.1)) done) in
            subst (λ g. Made g name) same (kept, λ _. second)
        | inr (one, same) ↦
            subst (λ g. Made g name) same
              (first, λ more. let q : false ≡ true = sym one ∙ more in cc)
      ]

  create-Made : (f f' : F) (name : List ℕ) → create table files f name ≡ (ok, f') → Made f' name
  unfolding create
  create-Made f f' name e =
      let r = files.create_tree f (first_name name) (primary_key_length table) any_size in
      let (done, rest) = passed r.0 (create_secondary table files r.1 name) r.1 f' e in
      create_secondary-Made r.1 f' name
        (stored.has_created f r.1 (first_name name) (primary_key_length table) any_size
          (ap (λ b. (b, r.1)) done))
        rest

  -- The longest search key fits 16 bits.
  abbrev pub IsShort : Type 0
  IsShort = table.primary.key_length + key_lengths table.secondary + 1 < 2 ^ 16

  lengths_lem :
      IsShort
      → (primary_key_length table ≡ table.primary.key_length)
        × (longest 0 table.secondary ≡ key_lengths table.secondary)
        × (second_key_size table ≡ table.primary.key_length + key_lengths table.secondary + 1)
  lengths_lem short =
      let m = longest-max_list table.secondary 0 (omega (arith, short)) in
      let m₀ : longest 0 table.secondary ≡ key_lengths table.secondary = ground (arith, m) in
      (omega (arith, short), m₀, omega (arith, m₀, short))

  -- What `open` leaves in the handler with these trees.
  abbrev pub handler_of : T → Option T → Opened T
  handler_of p s = record {
    p_btree = p;
    s_btree = s;
    primary_key_length = table.primary.key_length;
    max_second_key_length = key_lengths table.secondary;
    key_buffer = table.primary.key_length + key_lengths table.secondary + 1;
  }

  -- The second tree of a table: that of the second file, for keys as long as the longest secondary key
  -- with the primary key and a length byte; none if there is one key.
  abbrev pub IsSecond : F → List ℕ → Option T → Type 0
  IsSecond f name s =
      ((table.secondary ≡ []) × (s ≡ none))
      ⊎ ((table.secondary ≢ [])
          × (s ≢ none)
          × (s
              ≡ files.open_tree f (second_name name)
                  (table.primary.key_length + key_lengths table.secondary + 1) no_size))

  -- Where created files stay (`IsStored`) and all key lengths together are below 2^16, a table for which
  -- `create` returned 0 is opened by `open`. The first tree is that of the file ".db" for keys of the
  -- primary key's length, the second that of the file "_sec.db" for keys as long as the primary key,
  -- the longest secondary key and one byte, or null if there is no secondary key; the handler's three
  -- lengths are those of the primary key and of the longest secondary key, and the size of a search
  -- key.
  pub open-create :
      (f f' : F) (name : List ℕ)
      → IsShort
      → create table files f name ≡ (ok, f')
      → (p : T) × ((s : Option T) × ((open_ table files true f' name
              ≡ (opened (handler_of p s), f'))
            × ((files.open_tree f' (first_name name) table.primary.key_length any_size ≡ some p)
                × IsSecond f' name s)))
  unfolding open_
  open-create f f' name short e =
      let (first, second) = create-Made f f' name e in
      let (p_size, m_size, s_size) = lengths_lem short in
      let (p, is_p) = stored.opens f' (first_name name) (primary_key_length table) any_size first in
      let lengths : (s : Option T) → opened (with_trees table files p s) ≡ opened (handler_of p s) =
        (λ s. rw (p_size, m_size) refl) in
      elim (second_cases table.secondary) [
        | inl (none_, one) ↦ (
          p,
          (
            none,
            (
              rw (is_p, one) (ap (λ o. (o, f')) (lengths none)),
              (
                ap (λ n. files.open_tree f' (first_name name) n any_size) (sym p_size) ∙ is_p,
                inl (none_, refl),
              ),
            ),
          ),
        )
        | inr (some_, more) ↦
            let (s, is_s) =
              stored.opens f' (second_name name) (second_key_size table) no_size (second more) in
            (
              p,
              (
                some s,
                (
                  rw (is_p, more, is_s) (ap (λ o. (o, f')) (lengths (some s))),
                  (
                    ap (λ n. files.open_tree f' (first_name name) n any_size) (sym p_size) ∙ is_p,
                    inr (
                      some_,
                      (λ q. cc),
                      sym is_s ∙ ap (λ n. files.open_tree f' (second_name name) n no_size) s_size,
                    ),
                  ),
                ),
              ),
            )
      ]
