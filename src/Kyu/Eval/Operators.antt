-- ===== src/Kyu/Eval/Operators.antt =====
-- The operators of kyu/eval/eval.go on values: evalBinary and evalUnary behind the evaluation of the
-- operands.
pub mod Bounds
pub mod Division
use sh.Prelude.{
  ℕ, zero, Bool, true, false, not, ◌&&◌, ◌||◌, Option, none, some, List, [], ◌∷◌, ◌++◌, Runes,
  if◌then◌else◌,
}
use sh.Prelude.Int.{ℤ, pos, negsuc}
use sh.Std.Int64.{add64, sub64, mul64, quo64, rem64, neg64, is_negative, abs}
use sh.Std.Paths.{join_two}
use sh.Kyu.Token.{Kind}
use sh.Kyu.Value.Data.{Value, Elems, Floats, kind, truthy, equal, compare, same_int}
use sh.Kyu.Eval.{EvalError, Result, ok, err}

-- The arithmetic of float64.
pub record FloatArith (A : Type 0) : Type 0 where
  pub fadd : A → A → A
  pub fsub : A → A → A
  pub fmul : A → A → A
  pub fdiv : A → A → A
  pub fneg : A → A

-- `joinPath` with one segment
abbrev pub join_path : Runes → Runes → Runes
join_path base seg = join_two base seg

unfoldable pub append_elems : {A : Type 0} → Elems A → Elems A → Elems A
append_elems Elems.nil ys = ys
append_elems (Elems.cons x xs) ys = Elems.cons x (append_elems xs ys)

abbrev pub union_paths : {A : Type 0} → Value A → Option (List Runes)
union_paths (Value.path p) = some (p ∷ [])
union_paths (Value.ns_union ps) = some ps
union_paths _ = none

abbrev pub union_of : {A : Type 0} → Option (List Runes) → Option (List Runes) → Option (Value A)
union_of (some ps) (some qs) = some (Value.ns_union (ps ++ qs))
union_of _ _ = none

-- `nsUnion`
abbrev pub ns_union_of : {A : Type 0} → Value A → Value A → Option (Value A)
ns_union_of l r = union_of (union_paths l) (union_paths r)

abbrev pub is_plus : Kind → Bool
is_plus Kind.plus = true
is_plus _ = false

-- The cases of `evalArith` for `+` behind the union.
abbrev pub text_plus : {A : Type 0} → Value A → Value A → Option (Result (Value A))
text_plus (Value.path p) (Value.string s) = some (ok (Value.path (join_path p s)))
text_plus (Value.string s) (Value.path p) = some (err EvalError.path_on_right)
text_plus (Value.string s) (Value.string t) = some (ok (Value.string (s ++ t)))
text_plus (Value.list xs) (Value.list ys) = some (ok (Value.list (append_elems xs ys)))
text_plus _ _ = none

-- The cases of `evalArith` for `+` in front of the numbers.
abbrev pub plus_of : {A : Type 0} → Value A → Value A → Option (Result (Value A))
plus_of l r = elim (ns_union_of l r) [ some u ↦ some (ok u) | none ↦ text_plus l r ]

abbrev pub is_zero : ℤ → Bool
is_zero n = same_int n (pos 0)

-- The switch of `evalArith` on two ints.
abbrev pub int_arith : {A : Type 0} → Kind → ℤ → ℤ → Option (Result (Value A))
int_arith Kind.plus a b = some (ok (Value.int (add64 a b)))
int_arith Kind.minus a b = some (ok (Value.int (sub64 a b)))
int_arith Kind.star a b = some (ok (Value.int (mul64 a b)))
int_arith Kind.slash a b =
    some (if is_zero b then err EvalError.division_by_zero else ok (Value.int (quo64 a b)))
int_arith Kind.modulo a b =
    some (if is_zero b then err EvalError.division_by_zero else ok (Value.int (rem64 a b)))
int_arith _ a b = none

abbrev pub both_ints : {A : Type 0} → Kind → Value A → Value A → Option (Result (Value A))
both_ints op (Value.int a) (Value.int b) = int_arith op a b
both_ints op _ _ = none

module _ (F : Floats) (H : FloatArith F.Float) where
  -- `toFloat`
  abbrev pub to_float : Value F.Float → Option F.Float
  to_float (Value.int n) = some (F.of_int n)
  to_float (Value.float x) = some x
  to_float _ = none

  -- The last switch of `evalArith`.
  abbrev pub float_arith : Kind → F.Float → F.Float → Result (Value F.Float)
  float_arith Kind.plus x y = ok (Value.float (H.fadd x y))
  float_arith Kind.minus x y = ok (Value.float (H.fsub x y))
  float_arith Kind.star x y = ok (Value.float (H.fmul x y))
  float_arith Kind.slash x y =
      if F.feq y (F.of_int (pos 0))
      then err EvalError.division_by_zero
      else ok (Value.float (H.fdiv x y))
  float_arith op x y = err (EvalError.not_for_floats op)

  abbrev pub both_floats :
      Kind
      → Value F.Float
      → Value F.Float
      → Option F.Float
      → Option F.Float
      → Result (Value F.Float)
  both_floats op l r (some x) (some y) = float_arith op x y
  both_floats op l r _ _ = err (EvalError.cannot_apply op (kind l) (kind r))

  -- `evalArith` behind the cases for `+`
  abbrev pub number_arith : Kind → Value F.Float → Value F.Float → Result (Value F.Float)
  number_arith op l r = elim (both_ints op l r) [
    | some out ↦ out
    | none ↦ both_floats op l r (to_float l) (to_float r)
  ]

  -- `evalArith`
  unfoldable pub eval_arith : Kind → Value F.Float → Value F.Float → Result (Value F.Float)
  eval_arith op l r = elim (if is_plus op then plus_of l r else none) [
    | some out ↦ out
    | none ↦ number_arith op l r
  ]

  -- The switch of `evalComparison`, on the order of the operands.
  abbrev pub of_order : Kind → ℤ → Result (Value F.Float)
  of_order Kind.lt c = ok (Value.bool (is_negative c))
  of_order Kind.gt c = ok (Value.bool (not (is_negative c) && not (is_zero c)))
  of_order Kind.le c = ok (Value.bool (is_negative c || is_zero c))
  of_order Kind.ge c = ok (Value.bool (not (is_negative c)))
  of_order op c = err (EvalError.unknown_operator op)

  -- `evalComparison`
  unfoldable pub eval_comparison : Kind → Value F.Float → Value F.Float → Result (Value F.Float)
  eval_comparison op l r = elim (compare F l r) [
    | none ↦ err (EvalError.cannot_compare (kind l) (kind r))
    | some c ↦ of_order op c
  ]

  -- The last switch of `evalBinary`, on the values of the operands.
  unfoldable pub binary_of : Kind → Value F.Float → Value F.Float → Result (Value F.Float)
  unfolding eval_comparison eval_arith
  binary_of Kind.eq l r = ok (Value.bool (equal F l r))
  binary_of Kind.neq l r = ok (Value.bool (not (equal F l r)))
  binary_of Kind.lt l r = eval_comparison Kind.lt l r
  binary_of Kind.gt l r = eval_comparison Kind.gt l r
  binary_of Kind.le l r = eval_comparison Kind.le l r
  binary_of Kind.ge l r = eval_comparison Kind.ge l r
  binary_of Kind.plus l r = eval_arith Kind.plus l r
  binary_of Kind.minus l r = eval_arith Kind.minus l r
  binary_of Kind.star l r = eval_arith Kind.star l r
  binary_of Kind.slash l r = eval_arith Kind.slash l r
  binary_of Kind.modulo l r = eval_arith Kind.modulo l r
  binary_of op l r = err (EvalError.unknown_operator op)

  abbrev pub negation : Value F.Float → Result (Value F.Float)
  negation (Value.int n) = ok (Value.int (neg64 n))
  negation (Value.float x) = ok (Value.float (H.fneg x))
  negation v = err (EvalError.cannot_negate (kind v))

  -- The switch of `evalUnary`, on the value of the operand.
  unfoldable pub unary_of : Kind → Value F.Float → Result (Value F.Float)
  unary_of Kind.not v = ok (Value.bool (not (truthy v)))
  unary_of Kind.minus v = negation v
  unary_of op v = err (EvalError.unknown_operator op)
