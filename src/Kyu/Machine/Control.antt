-- ===== src/Kyu/Machine/Control.antt =====
-- Control flow in kyu/eval/eval.go, and in_ns of kyu/eval/inns.go, over the recursive calls of the
-- evaluator.
use sh.Prelude.{Bool, true, false, not, Option, none, some, ℕ}
use sh.Prelude.Int.{ℤ, pos}
use sh.Kyu.Token.{Kind}
use sh.Kyu.Ast.{Expr, Stmts}
use sh.Kyu.Value.Data.{same_int}
use sh.Kyu.Eval.{EvalError}
use sh.Kyu.Machine.{
  Val, broke, continued, failed, Answer, value, raised, Outside, State, Eval, pure, fail,
  on_outcome, state, ◌>>=◌,
}
use sh.Kyu.Machine.Values.{is_true, operate}
use sh.Kyu.Machine.Host.{Rules, Host, of_result, child_of}
use sh.Kyu.Machine.Calls.{check_cancelled, eval_block}

abbrev pub is_zero_code : Option ℤ → Bool
is_zero_code none = false
is_zero_code (some code) = same_int code (pos 0)

-- Whether `evalLogical` evaluates its right side, by the operator and the truth of its left side.
abbrev pub needs_right : Bool → Bool → Bool
needs_right true b = b
needs_right false b = not b

module _ (O : Outside) (H : Host O) where
  -- The deferred SwapNamespace of `evalInNS`.
  unfoldable pub swap_back : Option O.Namespace → Answer Val → Eval (State O) Val
  swap_back prev a st = some (a, record st { namespace = prev })

  module _ (R : Rules O) where
    -- A block in a scope of its own.
    unfoldable pub eval_scoped : Stmts → ℕ → Eval (State O) Val
    eval_scoped body e = do child ← child_of O e; eval_block O H R body child

    abbrev pub branch : Stmts → Stmts → ℕ → Bool → Eval (State O) Val
    branch yes_body no_body e true = eval_scoped yes_body e
    branch yes_body no_body e false = eval_scoped no_body e

    -- `evalIf`. No else, and an else with no statements, have the same value.
    unfoldable pub eval_if : Expr → Stmts → Stmts → ℕ → Eval (State O) Val
    unfolding eval_scoped
    eval_if c yes_body no_body e = do v ← R.expr c e; branch yes_body no_body e (is_true v)

    -- What `evalWhile` does with the outcome of its body.
    abbrev pub after_body : Expr → Stmts → ℕ → Answer Val → Eval (State O) Val
    after_body c body e (value v) = R.loop c body e
    after_body c body e (raised broke) = pure Val.null
    after_body c body e (raised continued) = R.loop c body e
    after_body c body e (raised (failed err)) = fail err

    abbrev pub round_if : Expr → Stmts → ℕ → Bool → Eval (State O) Val
    round_if c body e true = λ st. on_outcome (eval_scoped body e st) (after_body c body e)
    round_if c body e false = pure Val.null

    -- One round of the loop of `evalWhile`, and those behind it.
    unfoldable pub loop_step : Expr → Stmts → ℕ → Eval (State O) Val
    unfolding eval_scoped
    loop_step c body e = do _ ← check_cancelled O H; v ← R.expr c e; round_if c body e (is_true v)

    -- The truth of the value of a command of the host.
    abbrev pub command_truth : Val → State O → Bool
    command_truth (Val.error_val msg) st = false
    command_truth v st = is_zero_code st.last_exit_code

    -- `evalTruth`, on the value of the expression
    abbrev pub truth_of : Expr → Val → State O → Bool
    truth_of (Expr.external_call t name x args) v st = command_truth v st
    truth_of x v st = is_true v

    -- `evalTruth`
    unfoldable pub eval_truth : Expr → ℕ → Eval (State O) Bool
    eval_truth x e = do v ← R.expr x e; st ← state; pure (truth_of x v st)

    abbrev pub right_if : Expr → ℕ → Bool → Bool → Eval (State O) Val
    right_if r e a true = eval_truth r e >>= λ b. pure (Val.bool b)
    right_if r e a false = pure (Val.bool a)

    -- `evalLogical`
    unfoldable pub eval_logical : Bool → Expr → Expr → ℕ → Eval (State O) Val
    unfolding eval_truth
    eval_logical is_and l r e = do a ← eval_truth l e; right_if r e a (needs_right is_and a)

    -- The cases of `evalBinary` for == and !=, on the answer of Equal.
    abbrev pub equality : (Bool → Bool) → Option Bool → Eval (State O) Val
    equality f (some b) = pure (Val.bool (f b))
    equality f none = λ st. none

    -- The switch of `evalBinary`, on the values of the operands.
    abbrev pub combine : Kind → Val → Val → Eval (State O) Val
    combine Kind.eq l r = λ st. equality (λ b. b) (R.equal st l r) st
    combine Kind.neq l r = λ st. equality not (R.equal st l r) st
    combine op l r = of_result (operate H.number op l r)

    unfoldable pub eval_strict : Kind → Expr → Expr → ℕ → Eval (State O) Val
    eval_strict op l r e = do a ← R.expr l e; b ← R.expr r e; combine op a b

    -- `evalBinary`
    unfoldable pub eval_binary : Kind → Expr → Expr → ℕ → Eval (State O) Val
    unfolding eval_logical eval_strict
    eval_binary Kind.and l r e = eval_logical true l r e
    eval_binary Kind.or l r e = eval_logical false l r e
    eval_binary op l r e = eval_strict op l r e

    -- `evalInNS`, by the namespace
    unfoldable pub in_clone : Option O.Namespace → Stmts → ℕ → Eval (State O) Val
    unfolding eval_scoped swap_back
    in_clone none body e st = fail EvalError.no_namespace st
    in_clone (some prev) body e st =
        on_outcome (eval_scoped body e (record st { namespace = some (H.clone prev) }))
          (swap_back (some prev))

    -- `evalInNS`
    unfoldable pub eval_in_ns : Stmts → ℕ → Eval (State O) Val
    unfolding in_clone
    eval_in_ns body e st = in_clone st.namespace body e st
