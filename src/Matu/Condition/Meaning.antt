-- ===== src/Matu/Condition/Meaning.antt =====
-- What a condition says of an id, and that `combine` says what the two comparisons say together.
use example_engine.Prelude.{◌≡◌, Bool, true, false, ◌&&◌, ◌||◌, Option, none, some, arith}
use example_engine.Prelude.Int.{ℤ, ◌<ℤ◌, le_int, eq_int}
use example_engine.Matu.Condition.{
  Op, eq, ge, le, ResFlag, bad, eq_first, hi, lo, eq_both, and_, or_, eq_lo, eq_hi, all_, Conn,
  both, either, Condition, combine,
}

-- the comparison `id op num`
abbrev pub holds : Op → ℤ → ℤ → Bool
holds eq num id = eq_int id num
holds ge num id = le_int num id
holds le num id = le_int id num

abbrev pub joined : Conn → Bool → Bool → Bool
joined both p q = p && q
joined either p q = p || q

-- a test on `b`, which fails where `b` was not assigned
abbrev at_b : Option ℤ → (ℤ → Bool) → Bool
at_b none test = false
at_b (some b) test = test b

-- the ids that `enum ResFlag` says a flag stands for
unfoldable pub selects : ResFlag → ℤ → Option ℤ → ℤ → Bool
selects bad a b id = false
selects eq_first a b id = eq_int id a
selects hi a b id = le_int id a
selects lo a b id = le_int a id
selects eq_both a b id = eq_int id a || at_b b (λ v. eq_int id v)
selects and_ a b id = le_int a id && at_b b (λ v. le_int id v)
selects or_ a b id = le_int id a || at_b b (λ v. le_int v id)
selects eq_lo a b id = eq_int id a || at_b b (λ v. le_int v id)
selects eq_hi a b id = eq_int id a || at_b b (λ v. le_int id v)
selects all_ a b id = true

unfoldable pub matches : Condition → ℤ → Bool
unfolding selects
matches c id = selects c.flag c.a c.b id

-- the one branch that keeps the wrong number: `<= num and = x` with `x` below `num`
abbrev pub IsMistaken : Op → Op → Conn → ℤ → ℤ → Type 0
IsMistaken eq le both num x = x <ℤ num
IsMistaken _ _ _ num x = ⊥

-- In all branches but one the condition made of two comparisons selects exactly the ids for which both
-- hold (`and`), or one of them (`or`), for all numbers. The branch that is excluded is `<= num and = x`
-- with `x` below `num`.
pub matches-combine :
    (second first : Op) (conn : Conn) (num x id : ℤ) (res : Condition)
    → ¬ (IsMistaken second first conn num x)
    → matches (combine second first conn num x res) id
      ≡ joined conn (holds first num id) (holds second x id)
unfolding matches combine
matches-combine ge ge both num x id res m = ground arith
matches-combine ge ge either num x id res m = ground arith
matches-combine ge eq both num x id res m = ground arith
matches-combine ge eq either num x id res m = ground arith
matches-combine ge le both num x id res m = ground arith
matches-combine ge le either num x id res m = ground arith
matches-combine eq ge both num x id res m = ground arith
matches-combine eq ge either num x id res m = ground arith
matches-combine eq eq both num x id res m = ground arith
matches-combine eq eq either num x id res m = ground arith
matches-combine eq le both num x id res m = ground arith
matches-combine eq le either num x id res m = ground arith
matches-combine le ge both num x id res m = ground arith
matches-combine le ge either num x id res m = ground arith
matches-combine le eq both num x id res m = ground arith
matches-combine le eq either num x id res m = ground arith
matches-combine le le both num x id res m = ground arith
matches-combine le le either num x id res m = ground arith

-- In that branch the code selects the id `num`, for which the second comparison does not hold, and
-- leaves out the id `x`, for which both hold.
pub combine_mistaken :
    (num x : ℤ) (res : Condition)
    → x <ℤ num
    → (matches (combine eq le both num x res) num ≡ true)
      × (joined both (holds le num num) (holds eq x num) ≡ false)
      × (matches (combine eq le both num x res) x ≡ false)
      × (joined both (holds le num x) (holds eq x x) ≡ true)
unfolding matches combine
combine_mistaken num x res h = (ground arith, ground arith, ground arith, ground arith)
