-- ===== src/Kyu/Eval/Collections.antt =====
-- range and zip of kyu/eval/collections.go.
pub mod Range
pub mod Zip
use sh.Prelude.{
  ℕ, zero, suc, Bool, true, false, not, ◌&&◌, ◌||◌, Option, none, some, List, [], ◌∷◌, length,
  if◌then◌else◌,
}
use sh.Prelude.Int.{ℤ, pos, negsuc}
use sh.Std.Int64.{add64, is_negative}
use sh.Kyu.Value.Data.{Value, Elems, kind, lt_int, same_int}
use sh.Kyu.Eval.{EvalError, Result, ok, err}

-- The condition of the loop of `biRange`.
unfoldable pub goes_on : ℤ → ℤ → ℤ → Bool
goes_on i stop step =
    (lt_int (pos 0) step && lt_int i stop) || (lt_int step (pos 0) && lt_int stop i)

abbrev pub cons_int : ℤ → Option (List ℤ) → Option (List ℤ)
cons_int i none = none
cons_int i (some xs) = some (i ∷ xs)

-- The loop of `biRange`, with the room that is left below maxRangeLen; `none` is its error.
unfoldable pub range_from : ℕ → ℤ → ℤ → ℤ → Option (List ℤ)
unfolding goes_on add64
range_from zero i stop step = if goes_on i stop step then none else some []
range_from (suc room) i stop step =
    let rest = range_from room (add64 i step) stop step in
    if goes_on i stop step then cons_int i rest else some []

-- `maxRangeLen`
abbrev pub max_range_len : ℕ
max_range_len = 1000000

unfoldable pub int_list : {A : Type 0} → List ℤ → Elems A
int_list [] = Elems.nil
int_list (x ∷ xs) = Elems.cons (Value.int x) (int_list xs)

abbrev pub range_value : {A : Type 0} → Option (List ℤ) → Result (Value A)
range_value none = err EvalError.too_many
range_value (some xs) = ok (Value.list (int_list xs))

-- `biRange` behind the checks of its arguments; `room` is `maxRangeLen`
unfoldable pub range_of : {A : Type 0} → ℕ → ℤ → ℤ → ℤ → Result (Value A)
unfolding range_from int_list
range_of room start stop step =
    if same_int step (pos 0)
    then err EvalError.zero_step
    else range_value (range_from room start stop step)

-- The arguments as ints, or the error for the first that is none.
unfoldable pub ints_of : {A : Type 0} → List (Value A) → Result (List ℤ)
ints_of [] = ok []
ints_of (Value.int n ∷ vs) = elim (ints_of vs) [ ok ns ↦ ok (n ∷ ns) | err e ↦ err e ]
ints_of (v ∷ vs) = err (EvalError.not_an_int (kind v))

abbrev pub range_ints : {A : Type 0} → ℕ → List ℤ → Result (Value A)
range_ints room (stop ∷ []) = range_of room (pos 0) stop (pos 1)
range_ints room (start ∷ stop ∷ []) = range_of room start stop (pos 1)
range_ints room (start ∷ stop ∷ step ∷ []) = range_of room start stop step
range_ints room _ = err EvalError.argument_count

abbrev pub one_to_three : {A : Type 0} → List A → Bool
one_to_three (a ∷ []) = true
one_to_three (a ∷ b ∷ []) = true
one_to_three (a ∷ b ∷ c ∷ []) = true
one_to_three _ = false

-- `biRange`; `room` is `maxRangeLen`
unfoldable pub bi_range : {A : Type 0} → ℕ → List (Value A) → Result (Value A)
unfolding range_of ints_of
bi_range room args =
    if not (one_to_three args)
    then err EvalError.argument_count
    else elim (ints_of args) [ err e ↦ err e | ok ns ↦ range_ints room ns ]

-- The loop of `biZip`: pairs while both lists last.
unfoldable pub zip_elems : {A : Type 0} → Elems A → Elems A → Elems A
zip_elems (Elems.cons x xs) (Elems.cons y ys) =
    Elems.cons (Value.list (Elems.cons x (Elems.cons y Elems.nil))) (zip_elems xs ys)
zip_elems _ _ = Elems.nil

-- `biZip`
unfoldable pub bi_zip : {A : Type 0} → List (Value A) → Result (Value A)
unfolding zip_elems
bi_zip (Value.list b ∷ Value.list a ∷ []) = ok (Value.list (zip_elems a b))
bi_zip (Value.list b ∷ v ∷ []) = err (EvalError.not_a_list (kind v))
bi_zip (v ∷ w ∷ []) = err (EvalError.not_a_list (kind v))
bi_zip _ = err EvalError.argument_count
