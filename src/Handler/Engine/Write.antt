-- ===== src/Handler/Engine/Write.antt =====
-- What `write_row` and `delete_row` do to the maps that the two trees show.
use example_engine.Prelude.{
  ℕ, zero, suc, ◌+◌, ◌-◌, ◌<◌, ◌≡◌, refl, ap, ◌∙◌, subst, none, some, List, [], ◌∷◌, length, arith,
}
use example_engine.Handler.Table.{Table}
use example_engine.Handler.Keys.{keys, pack_key}
use example_engine.Handler.Rows.{RecordBuffer, pack_row}
use example_engine.Handler.Engine.{
  Trees, Server, Handler, ok, put_secondary, put_row, write_numbered, write_row,
}
use example_engine.Handler.Engine.Contents.{IsMap, Same, Contents, stored, stored_all, AreNew}

-- the keys of a record in so many indexes from `idx` on
abbrev pub ArePacked : Table → ℕ → ℕ → List ℕ → List (List ℕ) → Type 0
ArePacked table zero idx buf [] = Unit {0}
ArePacked table zero idx buf (k ∷ ks) = ⊥
ArePacked table (suc left) idx buf [] = ⊥
ArePacked table (suc left) idx buf (k ∷ ks) =
    (pack_key table idx buf ≡ some k) × ArePacked table left (idx + 1) buf ks

-- The row of a record and its keys in all indexes.
pub record Packs (table : Table) (b : RecordBuffer) (buf : List ℕ) : Type 0 where
  pub row : List ℕ
  pub primary : List ℕ
  pub secondary : List (List ℕ)
  pub has_row : (pack_row table b buf).0 ≡ some row
  pub has_primary : pack_key table 0 buf ≡ some primary
  pub has_secondary : ArePacked table (keys table - 1) 1 buf secondary
  pub short : length row < 4066

module _ {T I : Type 0} (trees : Trees T I) (server : Server) (table : Table)
    (map_ : IsMap trees) where
  put_secondary_lem :
      (left idx n : ℕ) (s : T) (same : Same) (c : Contents) (buf : List ℕ) (ks : List (List ℕ))
      → ArePacked table left idx buf ks
      → AreNew same ks c
      → map_.Shows s same (some 0) c (left + n)
      → (s' : T) × (put_secondary trees server table left idx s buf ≡ some (ok, s'))
        × map_.Shows s' same (some 0) (stored_all same ks c) n
  unfolding put_secondary
  put_secondary_lem zero idx n s same c buf [] e new shows =
      (s, refl, subst (map_.Shows s same (some 0) c) (omega arith) shows)
  put_secondary_lem zero idx n s same c buf (k ∷ ks) e new shows = absurd e
  put_secondary_lem (suc left) idx n s same c buf [] e new shows = absurd e
  put_secondary_lem (suc left) idx n s same c buf (k ∷ ks) (e, es) (absent, new) shows =
      let (s₁, done, shows₁) =
        map_.put_new s same (some 0) c (left + n) k []
          (subst (map_.Shows s same (some 0) c) (omega arith) shows) (refl, omega arith) absent in
      let (s', all_done, shows') =
        put_secondary_lem left (idx + 1) n s₁ same (stored same k [] c) buf ks es new shows₁ in
      (s', rw (e, done) all_done, shows')

  -- `write_row` up to where the packed row is put
  write_row_lem :
      (h : Handler T I) (buf₀ buf row : List ℕ)
      → server.auto_increment buf₀ ≡ (0, buf)
      → (pack_row table h.buffer buf).0 ≡ some row
      → write_row trees server table h buf₀
        ≡ put_row trees server table (record h { buffer = (pack_row table h.buffer buf).1 }) buf row
  unfolding write_row
  write_row_lem h buf₀ buf row e f = ap (write_numbered trees server table h) e ∙ rw f refl

  module _ (h : Handler T I) (same_p same_s : Same) (p s : Contents) (n m : ℕ)
      (shows_p : map_.Shows h.p_btree same_p none p (suc n))
      (shows_s : map_.Shows h.s_btree same_s (some 0) s (keys table - 1 + m)) where
    put_row-stored :
        (b : RecordBuffer) (buf row primary : List ℕ) (ks : List (List ℕ))
        → pack_key table 0 buf ≡ some primary
        → ArePacked table (keys table - 1) 1 buf ks
        → length row < 4066
        → p primary ≡ none
        → AreNew same_s ks s
        → (h' : Handler T I) × (put_row trees server table (record h { buffer = b }) buf row
            ≡ some (ok, h'))
          × map_.Shows h'.p_btree same_p none (stored same_p primary row p) n
          × map_.Shows h'.s_btree same_s (some 0) (stored_all same_s ks s) m
    unfolding put_row
    put_row-stored b buf row primary ks e es short absent new =
        let (p', done, shows_p') =
          map_.put_new h.p_btree same_p none p n primary row shows_p short absent in
        let (s', all_done, shows_s') =
          put_secondary_lem (keys table - 1) 1 m h.s_btree same_s s buf ks es new shows_s in
        (
          record h { buffer = b; p_btree = p'; s_btree = s' },
          rw (e, done, all_done) refl,
          shows_p',
          shows_s',
        )

    pub write_row-stored :
        (buf₀ buf : List ℕ)
        → server.auto_increment buf₀ ≡ (0, buf)
        → (packs : Packs table h.buffer buf) → p packs.primary ≡ none
        → AreNew same_s packs.secondary s
        → (h' : Handler T I) × (write_row trees server table h buf₀ ≡ some (ok, h'))
          × map_.Shows h'.p_btree same_p none (stored same_p packs.primary packs.row p) n
          × map_.Shows h'.s_btree same_s (some 0) (stored_all same_s packs.secondary s) m
    write_row-stored buf₀ buf e packs absent new =
        let (h', done, shows_p', shows_s') =
          put_row-stored (pack_row table h.buffer buf).1 buf packs.row packs.primary packs.secondary
            packs.has_primary packs.has_secondary packs.short absent new in
        (h', write_row_lem h buf₀ buf packs.row e packs.has_row ∙ done, shows_p', shows_s')
