-- ===== src/Kyu/Machine/Calls.antt =====
-- Statements, blocks and calls of kyu/eval/eval.go and kyu/eval/callable.go, over the recursive calls of the
-- evaluator.
use sh.Prelude.{
  ℕ, suc, ◌+◌, ◌-◌, Bool, true, false, ◌||◌, Option, none, some, Runes, ltb, leb, if◌then◌else◌,
}
use sh.Kyu.Ast.{
  Expr, Exprs, no_exprs, expr_cons, Params, no_params, param_cons, Stmt, Stmts, no_stmts, stmt_cons,
  is_missing,
}
use sh.Kyu.Eval.{EvalError}
use sh.Kyu.Machine.{
  Val, Vals, no_vals, val_cons, Signal, broke, continued, failed, Answer, value, raised, Outside,
  State, Eval, pure, fail, on_outcome, ◌>>=◌, ◌>>◌,
}
use sh.Kyu.Machine.Values.{length_vals, kind_of}
use sh.Kyu.Machine.Host.{Rules, Host, child_of, define_in, assign_var, assign_field}

-- `maxArity` and `minArity`
unfoldable pub max_arity : Params → ℕ
max_arity no_params = 0
max_arity (param_cons name default ps) = suc (max_arity ps)

unfoldable pub min_arity : Params → ℕ
min_arity no_params = 0
min_arity (param_cons name default ps) =
    let rest = min_arity ps in if is_missing default then suc rest else rest

abbrev pub max_call_depth : ℕ
max_call_depth = 10000

-- What an error says.
abbrev pub error_of : Signal → EvalError
error_of broke = EvalError.break_outside
error_of continued = EvalError.continue_outside
error_of (failed e) = e

abbrev pub wrapped : Runes → Answer Val → Answer Val
wrapped name (value v) = value v
wrapped name (raised s) = raised (failed (EvalError.in_default name (error_of s)))

module _ (O : Outside) (H : Host O) where
  -- The test of CancelContext of `callClosure` and `evalWhile`.
  abbrev pub go_unless : Option Runes → Eval (State O) Val
  go_unless none = pure Val.null
  go_unless (some msg) = fail (EvalError.cancelled msg)

  abbrev pub check_cancelled : Eval (State O) Val
  check_cancelled st = go_unless (H.cancelled st.world) st

  abbrev pub enter_if : Bool → Eval (State O) Val
  enter_if true st = fail EvalError.nested_too_deep st
  enter_if false st = pure Val.null (record st { call_depth = st.call_depth + 1 })

  -- `callDepth++`, behind its test
  unfoldable pub enter : Eval (State O) Val
  enter st = enter_if (leb max_call_depth st.call_depth) st

  -- `callDepth--`, deferred
  unfoldable pub leave : Answer Val → Eval (State O) Val
  leave a st = some (a, record st { call_depth = st.call_depth - 1 })

  module _ (R : Rules O) where
    -- `evalArgs`, and the loop of `evalListLike`
    unfoldable pub eval_exprs : Exprs → ℕ → Eval (State O) Vals
    eval_exprs no_exprs e = pure no_vals
    eval_exprs (expr_cons x xs) e = do v ← R.expr x e; vs ← eval_exprs xs e; pure (val_cons v vs)

    -- `evalAssign`, by its target
    unfoldable pub assign_to : Expr → Val → ℕ → Eval (State O) Val
    assign_to (Expr.ident t name) v e = assign_var O e name v
    assign_to (Expr.field_access t recv field) v e = do r ← R.expr recv e; assign_field O field v r
    assign_to _ v e = fail EvalError.invalid_target

    -- `evalStmt`
    unfoldable pub eval_stmt : Stmt → ℕ → Eval (State O) Val
    unfolding assign_to
    eval_stmt (Stmt.expr_stmt x) e = R.expr x e
    eval_stmt (Stmt.define_stmt t u name x) e = do v ← R.expr x e; define_in O e name v
    eval_stmt (Stmt.assign_stmt t target x) e = do v ← R.expr x e; assign_to target v e
    eval_stmt (Stmt.bind_stmt t source dest disposition read_only) e =
        H.namespace_stmt R (Stmt.bind_stmt t source dest disposition read_only) e
    eval_stmt (Stmt.unbind_stmt t x) e = H.namespace_stmt R (Stmt.unbind_stmt t x) e

    -- The loop of `evalBlock`, on the last value.
    unfoldable pub eval_stmts : Stmts → ℕ → Val → Eval (State O) Val
    unfolding eval_stmt
    eval_stmts no_stmts e last = pure last
    eval_stmts (stmt_cons s ss) e last = do v ← eval_stmt s e; eval_stmts ss e v

    -- `evalBlock`
    unfoldable pub eval_block : Stmts → ℕ → Eval (State O) Val
    unfolding eval_stmts
    eval_block ss e = eval_stmts ss e Val.null

    -- The loop over the parameters of `callClosure`, on the arguments that are left.
    unfoldable pub bind_params : Params → Vals → ℕ → Eval (State O) Val
    bind_params no_params args child = pure Val.null
    bind_params (param_cons name default ps) (val_cons v vs) child =
        define_in O child name v >> bind_params ps vs child
    bind_params (param_cons name default ps) no_vals child =
        (λ st. on_outcome (R.expr default child st) (λ a st. some (wrapped name a, st))) >>= λ v.
        define_in O child name v >> bind_params ps no_vals child

    -- `callClosure` behind its tests
    unfoldable pub run_body : Params → Stmts → ℕ → Vals → Eval (State O) Val
    unfolding bind_params eval_block
    run_body ps body e args = do
      child ← child_of O e
      _ ← bind_params ps args child
      eval_block body child

    abbrev pub by_arity : Bool → Params → Stmts → ℕ → Vals → Eval (State O) Val
    by_arity true ps body e args =
        fail (EvalError.wrong_arity (min_arity ps) (max_arity ps) (length_vals args))
    by_arity false ps body e args = run_body ps body e args

    -- `callClosure` behind `callDepth++`
    unfoldable pub run_closure : Params → Stmts → ℕ → Vals → Eval (State O) Val
    unfolding run_body length_vals min_arity max_arity
    run_closure ps body e args =
        by_arity (ltb (length_vals args) (min_arity ps) || ltb (max_arity ps) (length_vals args)) ps
          body e args

    -- `callClosure`
    unfoldable pub call_closure : Params → Stmts → ℕ → Vals → Eval (State O) Val
    unfolding run_closure
    call_closure ps body e args = do
      _ ← check_cancelled
      _ ← enter
      λ st. on_outcome (run_closure ps body e args st) leave

    -- `call`
    unfoldable pub call_step : Val → Vals → Eval (State O) Val
    unfolding call_closure
    call_step (Val.builtin name) args = H.builtin R name args
    call_step (Val.closure ps body e) args = call_closure ps body e args
    call_step v args = fail (EvalError.cannot_call (kind_of v))
