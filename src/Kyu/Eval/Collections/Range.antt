-- ===== src/Kyu/Eval/Collections/Range.antt =====
-- What range of kyu/eval/collections.go returns while no element overflows.
use sh.Prelude.{
  ℕ, zero, suc, ◌≤◌, ◌≡◌, refl, Bool, true, false, Bool-cases, inl, inr, Option, none, some, List,
  [], ◌∷◌, length, arith,
}
use sh.Prelude.Int.{ℤ, pos, negsuc, ◌+ℤ◌}
use sh.Std.Int64.{InRange, add64_exact}
use sh.Kyu.Value.Data.{Value, lt_int, same_int}
use sh.Kyu.Eval.Collections.{
  goes_on, cons_int, range_from, range_of, range_value, bi_range, ints_of,
}

-- `i` comes before `stop`, in the direction of a step that is not 0.
abbrev pub before : ℤ → ℤ → ℤ → Bool
before i stop (pos s) = lt_int i stop
before i stop (negsuc s) = lt_int stop i

-- The integers from `i` on, by steps of `step`, as long as they come before `stop`, and no more.
unfoldable pub IsRange : ℤ → ℤ → ℤ → List ℤ → Type 0
IsRange i stop step [] = before i stop step ≡ false
IsRange i stop step (x ∷ xs) =
    (x ≡ i) × (before i stop step ≡ true) × IsRange (i +ℤ step) stop step xs

-- There are more than `n` integers from `i` on.
unfoldable pub HasMore : ℕ → ℤ → ℤ → ℤ → Type 0
HasMore zero i stop step = before i stop step ≡ true
HasMore (suc n) i stop step = (before i stop step ≡ true) × HasMore n (i +ℤ step) stop step

-- What the loop returns, for both of its results.
abbrev pub RangeIs : ℕ → ℤ → ℤ → ℤ → Option (List ℤ) → Type 0
RangeIs room i stop step none = HasMore room i stop step
RangeIs room i stop step (some xs) = IsRange i stop step xs × (length xs ≤ room)

goes_on-before :
    (i stop step : ℤ) → same_int step (pos 0) ≡ false → goes_on i stop step ≡ before i stop step
unfolding goes_on
goes_on-before (pos i) (pos n) (pos s) h = ground arith
goes_on-before (pos i) (pos n) (negsuc s) h = ground arith
goes_on-before (pos i) (negsuc n) (pos s) h = ground arith
goes_on-before (pos i) (negsuc n) (negsuc s) h = ground arith
goes_on-before (negsuc i) (pos n) (pos s) h = ground arith
goes_on-before (negsuc i) (pos n) (negsuc s) h = ground arith
goes_on-before (negsuc i) (negsuc n) (pos s) h = ground arith
goes_on-before (negsuc i) (negsuc n) (negsuc s) h = ground arith

step-InRange :
    (i stop step : ℤ)
    → InRange i
    → InRange (stop +ℤ step)
    → before i stop step ≡ true
    → InRange (i +ℤ step)
unfolding ◌+ℤ◌
step-InRange (pos i) (pos n) (pos s) hi hs on = ground arith
step-InRange (pos i) (pos n) (negsuc s) hi hs on = ground arith
step-InRange (pos i) (negsuc n) (pos s) hi hs on = ground arith
step-InRange (pos i) (negsuc n) (negsuc s) hi hs on = ground arith
step-InRange (negsuc i) (pos n) (pos s) hi hs on = ground arith
step-InRange (negsuc i) (pos n) (negsuc s) hi hs on = ground arith
step-InRange (negsuc i) (negsuc n) (pos s) hi hs on = ground arith
step-InRange (negsuc i) (negsuc n) (negsuc s) hi hs on = ground arith

cons-RangeIs :
    (room : ℕ) (i stop step : ℤ) (rest : Option (List ℤ))
    → before i stop step ≡ true
    → RangeIs room (i +ℤ step) stop step rest
    → RangeIs (suc room) i stop step (cons_int i rest)
unfolding IsRange HasMore
cons-RangeIs room i stop step none on h = (on, h)
cons-RangeIs room i stop step (some xs) on (h, few) = ((refl, on, h), omega (arith, few))

range_from-RangeIs :
    (room : ℕ) (i stop step : ℤ)
    → InRange i
    → InRange (stop +ℤ step)
    → same_int step (pos 0) ≡ false
    → RangeIs room i stop step (range_from room i stop step)
unfolding range_from HasMore IsRange
range_from-RangeIs zero i stop step hi hs nz = elim (Bool-cases (before i stop step)) [
  | inl e ↦ rw (goes_on-before i stop step nz, e) e
  | inr e ↦ rw (goes_on-before i stop step nz, e) (e, omega arith)
]
range_from-RangeIs (suc room) i stop step hi hs nz = elim (Bool-cases (before i stop step)) [
  | inl e ↦
      let next = step-InRange i stop step hi hs e in
      let rest = range_from-RangeIs room (i +ℤ step) stop step next hs nz in
      rw (goes_on-before i stop step nz, e, add64_exact i step next)
        (cons-RangeIs room i stop step _ e rest)
  | inr e ↦ rw (goes_on-before i stop step nz, e) (e, omega arith)
]

-- For ints `start`, `stop` and `step` of 64 bits, where `step` is not 0 and `stop + step` is one of 64
-- bits too, range(start, stop, step) is the list of the exact integers from `start` by steps of `step`
-- that come before `stop`, and no longer than maxRangeLen; or it fails, and then there are more than
-- maxRangeLen of them.
pub bi_range-RangeIs :
    {A : Type 0} (room : ℕ) (start stop step : ℤ)
    → InRange start
    → InRange (stop +ℤ step)
    → same_int step (pos 0) ≡ false
    → (out : Option (List ℤ)) × (bi_range {A = A} room
          (Value.int start ∷ Value.int stop ∷ Value.int step ∷ [])
        ≡ range_value out)
      × RangeIs room start stop step out
unfolding bi_range ints_of range_of
bi_range-RangeIs room start stop step hi hs nonzero = (
  range_from room start stop step,
  rw nonzero refl,
  range_from-RangeIs room start stop step hi hs nonzero,
)
