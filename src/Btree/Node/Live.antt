-- ===== src/Btree/Node/Live.antt =====
-- The value of the live slot with a key in a sorted list, and what an insertion does to it.
use example_engine.Prelude.{
  ◌≡◌, inl, inr, refl, true, false, not, ◌&&◌, Option, none, some, List, [], ◌∷◌, ◌++◌, arith, ◌==◌,
  if◌then◌else◌, Bool-cases,
}
use example_engine.Btree.Order.{Compare, lt, same, IsOrder, lt_cases}
use example_engine.Btree.Node.{Value, Slot}
use example_engine.Btree.Node.Sorted.{Below, Stops, insert_sorted, is_live}

module _ {K : Type 0} (cmp : Compare K) where
  abbrev pub live_value : K → List (Slot K) → Option Value
  live_value key [] = none
  live_value key (s ∷ ss) =
      if lt cmp s.key key
      then live_value key ss
      else if same cmp s.key key && not (s.flag == 0)
      then some s.value
      else none

  pub live_value-Below :
      (key : K) (xs ys : List (Slot K))
      → Below cmp key xs
      → live_value key (xs ++ ys) ≡ live_value key ys
  live_value-Below key [] ys h = refl
  live_value-Below key (x ∷ xs) ys (b, h) = rw b (live_value-Below key xs ys h)

  pub live_value-Stops :
      (key : K) (xs ys : List (Slot K))
      → Stops cmp key xs
      → live_value key (xs ++ ys) ≡ live_value key xs
  live_value-Stops key [] ys h = absurd h
  live_value-Stops key (x ∷ xs) ys (inl e) = rw e refl
  live_value-Stops key (x ∷ xs) ys (inr h) = elim (Bool-cases (lt cmp x.key key)) [
    | inl e ↦ rw e (live_value-Stops key xs ys h)
    | inr e ↦ rw e refl
  ]

  -- a key has a value exactly if it is live
  pub is_live-value :
      (key : K) (xs : List (Slot K))
      → is_live cmp key xs ≡ elim (live_value key xs) [ none ↦ false | some v ↦ true ]
  is_live-value key [] = refl
  is_live-value key (x ∷ xs) = elim (Bool-cases (lt cmp x.key key)) [
    | inl e ↦ rw e (is_live-value key xs)
    | inr e ↦ elim (Bool-cases (same cmp x.key key && not (x.flag == 0))) [
      | inl f ↦ rw (e, f) refl
      | inr f ↦ rw (e, f) refl
    ]
  ]

  module _ (order : IsOrder cmp) where
    self_lem : (a : K) → (lt cmp a a ≡ false) × (same cmp a a ≡ true)
    self_lem a = ground (arith, lt_cases cmp order a a)

    pub live_value-insert_self :
        (key : K) (v : Value) (xs : List (Slot K))
        → live_value key (insert_sorted cmp key v xs) ≡ some v
    live_value-insert_self key v [] = (let (a, b) = self_lem key in rw (a, b) refl)
    live_value-insert_self key v (x ∷ xs) = elim (Bool-cases (lt cmp x.key key)) [
      | inl e ↦ rw (e, e) (live_value-insert_self key v xs)
      | inr e ↦ elim (Bool-cases (same cmp x.key key)) [
        | inl q ↦ rw (e, q) (rw (e, q) refl)
        | inr q ↦ rw (e, q) ((let (a, b) = self_lem key in rw (a, b) refl))
      ]
    ]

    -- two keys that are the same as a third are the same
    same_lem : (a b c : K) → same cmp a b ≡ true → same cmp a c ≡ true → same cmp b c ≡ true
    same_lem a b c p q = ground (
      arith,
      lt_cases cmp order a b,
      lt_cases cmp order a c,
      lt_cases cmp order b c,
      order.lt_split b a c,
      order.lt_split c a b,
    )

    -- The value does not depend on which of the same keys is looked for.
    pub live_value-same :
        (a b : K) (xs : List (Slot K)) → same cmp a b ≡ true → live_value a xs ≡ live_value b xs
    live_value-same a b [] p = refl
    live_value-same a b (x ∷ xs) p =
        let below : lt cmp x.key a ≡ lt cmp x.key b = ground (
          arith,
          lt_cases cmp order a b,
          lt_cases cmp order x.key a,
          lt_cases cmp order x.key b,
          order.lt_split x.key b a,
          order.lt_split x.key a b,
        ) in
        let equal : same cmp x.key a ≡ same cmp x.key b = ground (
          arith,
          lt_cases cmp order a b,
          lt_cases cmp order x.key a,
          lt_cases cmp order x.key b,
          order.lt_split x.key b a,
          order.lt_split x.key a b,
          order.lt_split a b x.key,
          order.lt_split b a x.key,
        ) in
        rw (below, equal, live_value-same a b xs p) refl

    pub live_value-insert_other :
        (key other : K) (v : Value) (xs : List (Slot K))
        → same cmp key other ≡ false
        → live_value other (insert_sorted cmp key v xs) ≡ live_value other xs
    live_value-insert_other key other v [] apart = elim (Bool-cases (lt cmp key other)) [
      | inl e ↦ rw e refl
      | inr e ↦ rw (e, apart) refl
    ]
    live_value-insert_other key other v (x ∷ xs) apart = elim (Bool-cases (lt cmp x.key key)) [
      | inl e ↦ rw e (elim (Bool-cases (lt cmp x.key other)) [
        | inl f ↦ rw f (live_value-insert_other key other v xs apart)
        | inr f ↦ rw f refl
      ])
      | inr e ↦ elim (Bool-cases (same cmp x.key key)) [
        | inl q ↦
            let f : same cmp x.key other ≡ false =
              ground (arith, same_lem x.key key other q, apart) in
            rw (e, q) (rw f refl)
        | inr q ↦
            rw (e, q)
              (elim (Bool-cases (lt cmp key other)) [
                | inl f ↦ rw f refl
                | inr f ↦
                    let above : lt cmp key x.key ≡ true =
                      ground (arith, lt_cases cmp order x.key key) in
                    let below : lt cmp other key ≡ true =
                      ground (arith, lt_cases cmp order key other) in
                    let over = order.lt_trans other key x.key below above in
                    let a : lt cmp x.key other ≡ false =
                      ground (arith, lt_cases cmp order x.key other) in
                    let b : same cmp x.key other ≡ false =
                      ground (arith, lt_cases cmp order x.key other) in
                    rw (f, apart) (rw (a, b) refl)
              ])
      ]
    ]
