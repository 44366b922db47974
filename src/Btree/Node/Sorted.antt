-- ===== src/Btree/Node/Sorted.antt =====
-- Lists of slots whose keys ascend, and what an insertion by key makes of them.
use example_engine.Prelude.{
  subst, ◌+◌, ◌≡◌, ◌⊎◌, inl, inr, refl, sym, ap, ◌∙◌, Bool, true, false, not, ◌&&◌, Option, none,
  some, List, [], ◌∷◌, ◌++◌, arith, ◌==◌, if◌then◌else◌, Bool-cases, append-nil, length, ◌≤◌,
}
use example_engine.Btree.Order.{Compare, lt, same, IsOrder, lt_cases}
use example_engine.Btree.Node.{Value, Slot}

-- every element has the property
abbrev pub All {ℓ κ} : {A : Type ℓ} → (A → Type κ) → List A → Type κ
All P [] = Unit
All P (x ∷ xs) = P x × All P xs

pub All-append {ℓ κ} :
    {A : Type ℓ} (P : A → Type κ) (xs ys : List A) → All P xs → All P ys → All P (xs ++ ys)
All-append P [] ys p q = q
All-append P (x ∷ xs) ys (h, p) q = (h, All-append P xs ys p q)

pub All-left {ℓ κ} : {A : Type ℓ} (P : A → Type κ) (xs ys : List A) → All P (xs ++ ys) → All P xs
All-left P [] ys h = tt
All-left P (x ∷ xs) ys (p, h) = (p, All-left P xs ys h)

pub All-right {ℓ κ} : {A : Type ℓ} (P : A → Type κ) (xs ys : List A) → All P (xs ++ ys) → All P ys
All-right P [] ys h = h
All-right P (x ∷ xs) ys (p, h) = All-right P xs ys h

pub All-imp {ℓ κ} :
    {A : Type ℓ} (P Q : A → Type κ) → ((x : A) → P x → Q x) → (xs : List A) → All P xs → All Q xs
All-imp P Q f [] h = tt
All-imp P Q f (x ∷ xs) (p, h) = (f x p, All-imp P Q f xs h)

-- the key of the last slot
abbrev pub last_key : {K : Type 0} → List (Slot K) → Option K
last_key [] = none
last_key (s ∷ []) = some s.key
last_key (s ∷ r ∷ ss) = last_key (r ∷ ss)

pub last_key-append :
    {K : Type 0} (xs : List (Slot K)) (y : Slot K) (ys : List (Slot K))
    → last_key (xs ++ (y ∷ ys)) ≡ last_key (y ∷ ys)
last_key-append [] y ys = refl
last_key-append (x ∷ []) y ys = refl
last_key-append (x ∷ x' ∷ xs) y ys = last_key-append (x' ∷ xs) y ys

module _ {K : Type 0} (cmp : Compare K) where
  -- the keys of the slots are below `key`, or none is
  abbrev pub Below : K → List (Slot K) → Type 0
  Below key = All (λ s. lt cmp s.key key ≡ true)

  abbrev pub NotBelow : K → List (Slot K) → Type 0
  NotBelow key = All (λ s. lt cmp s.key key ≡ false)

  -- the keys ascend strictly
  abbrev pub Ascends : List (Slot K) → Type 0
  Ascends [] = Unit {0}
  Ascends (s ∷ ss) = All (λ r. lt cmp s.key r.key ≡ true) ss × Ascends ss

  -- a key that is not below `key` stands among the slots
  abbrev pub Stops : K → List (Slot K) → Type 0
  Stops key [] = ⊥
  Stops key (s ∷ ss) = (lt cmp s.key key ≡ false) ⊎ Stops key ss

  -- the slots with the key set to a value: a slot with the key is given it and revived, or a new
  -- slot stands in front of the first that is not below the key
  abbrev pub insert_sorted : K → Value → List (Slot K) → List (Slot K)
  insert_sorted key v [] = record { key = key; flag = 1; value = v } ∷ []
  insert_sorted key v (s ∷ ss) =
      if lt cmp s.key key
      then s ∷ insert_sorted key v ss
      else if same cmp s.key key
      then record { key = s.key; flag = 1; value = v } ∷ ss
      else record { key = key; flag = 1; value = v } ∷ s ∷ ss

  -- the key stands in a slot that is not removed
  abbrev pub is_live : K → List (Slot K) → Bool
  is_live key [] = false
  is_live key (s ∷ ss) =
      if lt cmp s.key key then is_live key ss else same cmp s.key key && not (s.flag == 0)

  -- what holds of the values still holds of them and the new one
  pub All-insert_sorted :
      (P : Value → Type 0) (key : K) (v : Value) (xs : List (Slot K))
      → P v
      → All (λ s. P s.value) xs
      → All (λ s. P s.value) (insert_sorted key v xs)
  All-insert_sorted P key v [] p h = (p, tt)
  All-insert_sorted P key v (x ∷ xs) p (q, h) = elim (Bool-cases (lt cmp x.key key)) [
    | inl e ↦ rw e (q, All-insert_sorted P key v xs p h)
    | inr e ↦ elim (Bool-cases (same cmp x.key key)) [
      | inl f ↦ rw (e, f) (p, h)
      | inr f ↦ rw (e, f) (p, (q, h))
    ]
  ]

  -- at most one slot is new
  pub length-insert_sorted :
      (key : K) (v : Value) (xs : List (Slot K)) → length (insert_sorted key v xs) ≤ length xs + 1
  length-insert_sorted key v [] = omega arith
  length-insert_sorted key v (x ∷ xs) = elim (Bool-cases (lt cmp x.key key)) [
    | inl e ↦ rw e (omega (arith, length-insert_sorted key v xs))
    | inr e ↦ elim (Bool-cases (same cmp x.key key)) [
      | inl f ↦ rw (e, f) (omega arith)
      | inr f ↦ rw (e, f) (omega arith)
    ]
  ]

  pub insert_sorted-Below :
      (key : K) (v : Value) (xs ys : List (Slot K))
      → Below key xs
      → insert_sorted key v (xs ++ ys) ≡ xs ++ insert_sorted key v ys
  insert_sorted-Below key v [] ys h = refl
  insert_sorted-Below key v (x ∷ xs) ys (b, h) =
      rw b (ap (λ r. x ∷ r) (insert_sorted-Below key v xs ys h))

  pub is_live-Below :
      (key : K) (xs ys : List (Slot K)) → Below key xs → is_live key (xs ++ ys) ≡ is_live key ys
  is_live-Below key [] ys h = refl
  is_live-Below key (x ∷ xs) ys (b, h) = rw b (is_live-Below key xs ys h)

  pub insert_sorted-Stops :
      (key : K) (v : Value) (xs ys : List (Slot K))
      → Stops key xs
      → insert_sorted key v (xs ++ ys) ≡ insert_sorted key v xs ++ ys
  insert_sorted-Stops key v [] ys h = absurd h
  insert_sorted-Stops key v (x ∷ xs) ys (inl e) =
      rw e (elim (Bool-cases (same cmp x.key key)) [ inl q ↦ rw q refl | inr q ↦ rw q refl ])
  insert_sorted-Stops key v (x ∷ xs) ys (inr h) = elim (Bool-cases (lt cmp x.key key)) [
    | inl e ↦ rw e (ap (λ r. x ∷ r) (insert_sorted-Stops key v xs ys h))
    | inr e ↦
        rw e (elim (Bool-cases (same cmp x.key key)) [ inl q ↦ rw q refl | inr q ↦ rw q refl ])
  ]

  pub is_live-Stops :
      (key : K) (xs ys : List (Slot K)) → Stops key xs → is_live key (xs ++ ys) ≡ is_live key xs
  is_live-Stops key [] ys h = absurd h
  is_live-Stops key (x ∷ xs) ys (inl e) = rw e refl
  is_live-Stops key (x ∷ xs) ys (inr h) = elim (Bool-cases (lt cmp x.key key)) [
    | inl e ↦ rw e (is_live-Stops key xs ys h)
    | inr e ↦ rw e refl
  ]

  insert_sorted-cons :
      (key : K) (v : Value) (xs : List (Slot K))
      → (z : Slot K) × (zs : List (Slot K)) × (insert_sorted key v xs ≡ z ∷ zs)
  insert_sorted-cons key v [] = (_, [], refl)
  insert_sorted-cons key v (x ∷ xs) = elim (Bool-cases (lt cmp x.key key)) [
    | inl e ↦ (x, insert_sorted key v xs, rw e refl)
    | inr e ↦ elim (Bool-cases (same cmp x.key key)) [
      | inl q ↦ (record { key = x.key; flag = 1; value = v }, xs, rw (e, q) refl)
      | inr q ↦ (record { key = key; flag = 1; value = v }, x ∷ xs, rw (e, q) refl)
    ]
  ]

  last_key-cons :
      (x : Slot K) (key : K) (v : Value) (xs : List (Slot K))
      → last_key (x ∷ insert_sorted key v xs) ≡ last_key (insert_sorted key v xs)
  last_key-cons x key v xs = let (z, zs, e) = insert_sorted-cons key v xs in rw e refl

  -- a key that some slot is not below is not below the last slot's either, which keeps its key
  pub last_key-Stops :
      (key : K) (v : Value) (xs : List (Slot K))
      → Stops key xs
      → last_key (insert_sorted key v xs) ≡ last_key xs
  last_key-Stops key v [] h = absurd h
  last_key-Stops key v (x ∷ []) (inl e) =
      rw e (elim (Bool-cases (same cmp x.key key)) [ inl q ↦ rw q refl | inr q ↦ rw q refl ])
  last_key-Stops key v (x ∷ []) (inr h) = absurd h
  last_key-Stops key v (x ∷ y ∷ ys) h = elim (Bool-cases (lt cmp x.key key)) [
    | inl e ↦
        let later : Stops key (y ∷ ys) = elim h [ inl f ↦ cc | inr g ↦ g ] in
        let step : insert_sorted key v (x ∷ y ∷ ys) ≡ x ∷ insert_sorted key v (y ∷ ys) =
          rw e refl in
        ap last_key step ∙ last_key-cons x key v (y ∷ ys) ∙ last_key-Stops key v (y ∷ ys) later
    | inr e ↦ elim (Bool-cases (same cmp x.key key)) [
      | inl q ↦ rw (e, q) refl
      | inr q ↦ rw (e, q) refl
    ]
  ]

  pub last_key-Below :
      (key : K) (v : Value) (xs : List (Slot K))
      → Below key xs
      → last_key (insert_sorted key v xs) ≡ some key
  last_key-Below key v xs h =
      ap last_key
        (ap (insert_sorted key v) (sym (append-nil xs)) ∙ insert_sorted-Below key v xs [] h)
      ∙ last_key-append xs (record { key = key; flag = 1; value = v }) []

  -- Slots in front of one that is not below the key, where keys ascend, and so on.
  pub Ascends-append :
      (xs ys : List (Slot K))
      → Ascends (xs ++ ys)
      → Ascends xs × Ascends ys × All (λ x. All (λ y. lt cmp x.key y.key ≡ true) ys) xs
  Ascends-append [] ys h = (tt, h, tt)
  Ascends-append (x ∷ xs) ys (a, h) =
      let (l, r, m) = Ascends-append xs ys h in
      ((All-left _ xs ys a, l), r, (All-right _ xs ys a, m))

  pub append-Ascends :
      (xs ys : List (Slot K))
      → Ascends xs
      → Ascends ys
      → All (λ x. All (λ y. lt cmp x.key y.key ≡ true) ys) xs
      → Ascends (xs ++ ys)
  append-Ascends [] ys l r m = r
  append-Ascends (x ∷ xs) ys (a, l) r (b, m) = (All-append _ xs ys a b, append-Ascends xs ys l r m)

  All-rekeyed :
      (P : K → Type 0) (pre : List (Slot K)) (s s' : Slot K) (post : List (Slot K))
      → s'.key ≡ s.key
      → All (λ r. P r.key) (pre ++ (s ∷ post))
      → All (λ r. P r.key) (pre ++ (s' ∷ post))
  All-rekeyed P [] s s' post e (p, h) = (subst P (sym e) p, h)
  All-rekeyed P (r ∷ pre) s s' post e (p, h) = (p, All-rekeyed P pre s s' post e h)

  -- what matters of a slot is its key
  pub Ascends-rekeyed :
      (pre : List (Slot K)) (s s' : Slot K) (post : List (Slot K))
      → s'.key ≡ s.key
      → Ascends (pre ++ (s ∷ post))
      → Ascends (pre ++ (s' ∷ post))
  Ascends-rekeyed [] s s' post e (over, h) = (rw e over, h)
  Ascends-rekeyed (r ∷ pre) s s' post e (over, h) = (
    All-rekeyed (λ k. lt cmp r.key k ≡ true) pre s s' post e over,
    Ascends-rekeyed pre s s' post e h,
  )

  module _ (order : IsOrder cmp) where
    -- every key of the slots is above `a`
    abbrev Over : K → List (Slot K) → Type 0
    Over a = All (λ s. lt cmp a s.key ≡ true)

    Over-insert_sorted :
        (a key : K) (v : Value) (xs : List (Slot K))
        → lt cmp a key ≡ true
        → Over a xs
        → Over a (insert_sorted key v xs)
    Over-insert_sorted a key v [] h over = (h, tt)
    Over-insert_sorted a key v (x ∷ xs) h (o, over) = elim (Bool-cases (lt cmp x.key key)) [
      | inl e ↦ rw e (o, Over-insert_sorted a key v xs h over)
      | inr e ↦ elim (Bool-cases (same cmp x.key key)) [
        | inl q ↦ rw (e, q) (o, over)
        | inr q ↦ rw (e, q) (h, (o, over))
      ]
    ]

    -- the keys still ascend
    pub insert_sorted-Ascends :
        (key : K) (v : Value) (xs : List (Slot K)) → Ascends xs → Ascends (insert_sorted key v xs)
    insert_sorted-Ascends key v [] h = (tt, tt)
    insert_sorted-Ascends key v (x ∷ xs) (over, h) = elim (Bool-cases (lt cmp x.key key)) [
      | inl e ↦ rw e (Over-insert_sorted x.key key v xs e over, insert_sorted-Ascends key v xs h)
      | inr e ↦ elim (Bool-cases (same cmp x.key key)) [
        | inl q ↦ rw (e, q) (over, h)
        | inr q ↦
            let above : lt cmp key x.key ≡ true = ground (arith, lt_cases cmp order x.key key) in
            rw (e, q)
              (
                (above, All-imp _ _ (λ s o. order.lt_trans key x.key s.key above o) xs over),
                (over, h),
              )
      ]
    ]
