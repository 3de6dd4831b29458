-- ===== src/Kyu/Eval.antt =====
-- kyu/eval, the evaluator of kyu: what its operations return.
pub mod Operators
pub mod Collections
pub mod Scopes
mod Tests
use sh.Prelude.{ℕ, Bool, true, false, Runes}
use sh.Prelude.Int.{ℤ}
use sh.Kyu.Token.{Kind}
use sh.Kyu.Value.Data.{Value}

-- What the errors of kyu/eval (eval.go, callable.go, inns.go, collections.go, builtins.go) say, with what they print.
pub data EvalError : Type 0 where
  division_by_zero : EvalError
  path_on_right : EvalError
  cannot_apply : Kind → Runes → Runes → EvalError
  not_for_floats : Kind → EvalError
  cannot_negate : Runes → EvalError
  cannot_compare : Runes → Runes → EvalError
  unknown_operator : Kind → EvalError
  argument_count : EvalError
  not_an_int : Runes → EvalError
  not_a_list : Runes → EvalError
  zero_step : EvalError
  too_many : EvalError
  not_a_string : Runes → EvalError
  not_absolute : Runes → EvalError
  negative_count : ℤ → EvalError
  missing_input : EvalError
  is_builtin : Runes → EvalError
  undefined_variable : Runes → EvalError
  -- the field, and the kind of what should be a record
  not_a_record : Runes → Runes → EvalError
  no_field : Runes → EvalError
  cannot_assign : Runes → Runes → EvalError
  -- the field, and the error of its backing
  write_failed : Runes → Runes → EvalError
  invalid_target : EvalError
  unknown_node : EvalError
  cannot_call : Runes → EvalError
  wrong_arity : ℕ → ℕ → ℕ → EvalError
  nested_too_deep : EvalError
  cancelled : Runes → EvalError
  no_namespace : EvalError
  break_outside : EvalError
  continue_outside : EvalError
  -- the parameter, and the error of its default
  in_default : Runes → EvalError → EvalError
  -- the text of an ErrorVal
  aborted : Runes → EvalError

-- A value and a nil error, or the error.
pub data Result (A : Type 0) : Type 0 where
  ok : A → Result A
  err : EvalError → Result A

abbrev pub is_ok : {A : Type 0} → Result A → Bool
is_ok (ok v) = true
is_ok (err e) = false
