-- ===== src/Kyu/Machine/Forms.antt =====
-- The expressions of kyu/eval/eval.go that evaluate their parts in order, over the recursive calls of the
-- evaluator.
use sh.Prelude.{some, Runes, ℕ}
use sh.Kyu.Token.{Kind}
use sh.Kyu.Ast.{Expr, Exprs, RecordFields, no_fields, field_cons}
use sh.Kyu.Value.Record.{Record, new_record, set}
use sh.Kyu.Eval.{EvalError}
use sh.Kyu.Machine.{Val, Vals, no_vals, val_cons, Outside, backings, State, Eval, pure, fail, ◌>>=◌}
use sh.Kyu.Machine.Values.{append_vals, unary_val}
use sh.Kyu.Machine.Host.{Rules, Host, of_result, access, store_record}
use sh.Kyu.Machine.Calls.{eval_exprs}

module _ (O : Outside) (H : Host O) where
  module _ (R : Rules O) where
    -- The loop of `evalRecordLit`.
    unfoldable pub eval_fields :
        RecordFields → ℕ → Record (backings O) → Eval (State O) (Record (backings O))
    unfolding set
    eval_fields no_fields e r = pure r
    eval_fields (field_cons name x fs) e r = do
      v ← R.expr x e
      eval_fields fs e (set (backings O) r name v)

    -- `evalRecordLit`
    unfoldable pub eval_record_lit : RecordFields → ℕ → Eval (State O) Val
    unfolding eval_fields
    eval_record_lit fs e = do r ← eval_fields fs e (new_record (backings O)); store_record O r

    -- `evalListLike`
    unfoldable pub eval_list_like : Exprs → ℕ → Eval (State O) Val
    unfolding eval_exprs
    eval_list_like xs e = do vs ← eval_exprs O H R xs e; pure (Val.list vs)

    -- `evalFieldAccess`
    unfoldable pub eval_field_access : Expr → Runes → ℕ → Eval (State O) Val
    eval_field_access recv field e = do r ← R.expr recv e; access O H field r

    -- `evalCall`, and the case of `evalPipeExpr` for a call
    unfoldable pub call_with : Expr → Exprs → Vals → ℕ → Eval (State O) Val
    unfolding eval_exprs
    call_with fn args piped e = do
      f ← R.expr fn e
      vs ← eval_exprs O H R args e
      R.call f (append_vals vs piped)

    unfoldable pub pipe_value : Expr → Val → ℕ → Eval (State O) Val
    pipe_value right v e = do f ← R.expr right e; R.call f (val_cons v no_vals)

    -- The switch of `evalPipeExpr`, on the value of the left side.
    unfoldable pub pipe_into : Expr → Val → ℕ → Eval (State O) Val
    unfolding call_with pipe_value
    pipe_into (Expr.external_call t name x args) v e =
        H.external R (Expr.external_call t name x args) (some v) e
    pipe_into (Expr.call t fn args) v e = call_with fn args (val_cons v no_vals) e
    pipe_into right v e = pipe_value right v e

    abbrev pub checked : Val → Eval (State O) Val
    checked (Val.error_val msg) = fail (EvalError.aborted msg)
    checked v = pure v

    -- `evalErrCheck`
    unfoldable pub eval_err_check : Expr → ℕ → Eval (State O) Val
    eval_err_check x e = do v ← R.expr x e; checked v

    -- `evalUnary`
    unfoldable pub eval_unary : Kind → Expr → ℕ → Eval (State O) Val
    eval_unary op x e = do v ← R.expr x e; of_result (unary_val H.number op v)
