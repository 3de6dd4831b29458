-- ===== src/Kyu/Machine/Whole.antt =====
-- evalExpr of kyu/eval/eval.go, and the evaluator with its recursive calls, on fuel: a unit of it for each
-- evalExpr, call, round of a loop or Equal inside another.
use sh.Prelude.{ℕ, zero, suc, none}
use sh.Kyu.Ast.{Expr, Stmts}
use sh.Kyu.Eval.{EvalError}
use sh.Kyu.Machine.{Val, Vals, Signal, Outside, State, Eval, pure, raise, fail, ◌>>=◌}
use sh.Kyu.Machine.Values.{equal_step}
use sh.Kyu.Machine.Host.{Rules, Host, read_var}
use sh.Kyu.Machine.Calls.{call_step, eval_block}
use sh.Kyu.Machine.Forms.{
  eval_record_lit, eval_list_like, eval_field_access, call_with, pipe_into, eval_err_check,
  eval_unary,
}
use sh.Kyu.Machine.Control.{eval_if, loop_step, eval_binary, eval_in_ns}

module _ (O : Outside) (H : Host O) where
  -- `evalExpr`
  unfoldable pub expr_step : Rules O → Expr → ℕ → Eval (State O) Val
  unfolding eval_record_lit eval_list_like eval_field_access call_with pipe_into
  expr_step R Expr.missing e = fail EvalError.unknown_node
  expr_step R (Expr.ident t name) e = read_var O e name
  expr_step R (Expr.int_lit t n) e = pure (Val.int n)
  expr_step R (Expr.float_lit t x) e = pure (Val.float x)
  expr_step R (Expr.string_lit t s) e = pure (Val.string s)
  expr_step R (Expr.bool_lit t b) e = pure (Val.bool b)
  expr_step R (Expr.null_lit t) e = pure Val.null
  expr_step R (Expr.duration_lit t s d) e = pure (Val.duration d)
  expr_step R (Expr.path_lit t p) e = pure (Val.path p)
  expr_step R (Expr.record_lit t fs) e = eval_record_lit O H R fs e
  expr_step R (Expr.table_lit t rows) e = eval_list_like O H R rows e
  expr_step R (Expr.list_lit t xs) e = eval_list_like O H R xs e
  expr_step R (Expr.closure t ps body) e = pure (Val.closure ps body e)
  expr_step R (Expr.field_access t recv field) e = eval_field_access O H R recv field e
  expr_step R (Expr.call t fn args) e = call_with O H R fn args Vals.no_vals e
  expr_step R (Expr.external_call t name x args) e =
      H.external R (Expr.external_call t name x args) none e
  expr_step R (Expr.pipe_expr t l r) e = do v ← R.expr l e; pipe_into O H R r v e
  expr_step R (Expr.binary_expr t op l r) e = eval_binary O H R op l r e
  expr_step R (Expr.unary_expr t op x) e = eval_unary O H R op x e
  expr_step R (Expr.err_check t x) e = eval_err_check O H R x e
  expr_step R (Expr.if_expr t c a b) e = eval_if O H R c a b e
  expr_step R (Expr.while_expr t c body) e = R.loop c body e
  expr_step R (Expr.break_expr t) e = raise Signal.broke
  expr_step R (Expr.continue_expr t) e = raise Signal.continued
  expr_step R (Expr.background t x b) e = H.background R (Expr.background t x b) e
  expr_step R (Expr.at_host t name x body) e = H.at_host R (Expr.at_host t name x body) e
  expr_step R (Expr.in_ns t body) e = eval_in_ns O H R body e

  abbrev pub no_rules : Rules O
  no_rules = record {
    expr = λ x e st. none;
    call = λ f args st. none;
    loop = λ c body e st. none;
    equal = λ st a b. none;
  }

  abbrev pub step_rules : Rules O → Rules O
  step_rules R = record {
    expr = expr_step R;
    call = call_step O H R;
    loop = loop_step O H R;
    equal = λ st. equal_step O R.equal st H.number;
  }

  unfoldable pub rules : ℕ → Rules O
  unfolding expr_step call_step loop_step equal_step
  rules zero = no_rules
  rules (suc fuel) = step_rules (rules fuel)

  -- `Eval`, in the scope of the program
  unfoldable pub eval_program : ℕ → Stmts → ℕ → Eval (State O) Val
  unfolding eval_block rules
  eval_program fuel program e = eval_block O H (rules fuel) program e
