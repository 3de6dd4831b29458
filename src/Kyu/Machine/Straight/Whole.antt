-- ===== src/Kyu/Machine/Straight/Whole.antt =====
-- Programs of kyu/eval that call nothing and loop nowhere, over the whole evaluator.
use sh.Prelude.{ℕ, zero, suc, ◌+◌, ◌≤◌, refl, Bool, true, false, Option, none, some, arith}
use sh.Kyu.Token.{Kind}
use sh.Kyu.Ast.{Expr, Stmts}
use sh.Kyu.Value.Record.{new_record}
use sh.Kyu.Machine.{Val, Answer, Outside, backings, State}
use sh.Kyu.Machine.Values.{operate, unary_val, is_true}
use sh.Kyu.Machine.Host.{Rules, Host, store_record}
use sh.Kyu.Machine.Calls.{eval_block}
use sh.Kyu.Machine.Forms.{eval_record_lit, eval_list_like, checked, eval_err_check, eval_unary}
use sh.Kyu.Machine.Control.{
  branch, eval_if, swap_back, eval_truth, right_if, needs_right, eval_logical, combine, eval_strict,
  eval_binary, in_clone, eval_in_ns,
}
use sh.Kyu.Machine.Whole.{expr_step, rules, eval_program}
use sh.Kyu.Machine.Straight.{IsOrdinary, IsStraight, AreStraightStmts, size, size_stmts}
use sh.Kyu.Machine.Straight.Total.{
  Returns, returned, bind-Returns, outcome-Returns, of_result-Returns, read_var-Returns,
  eval_exprs-Returns, eval_fields-Returns, eval_stmts-Returns, eval_scoped-Returns,
}

module _ {O : Outside} (H : Host O) (R : Rules O) (k : ℕ)
    (total : (x : Expr) (e : ℕ) (st : State O)
      → IsStraight x
      → size x ≤ k
      → Returns (R.expr x e st)) where
  branch-Returns :
      (a b : Stmts) (e : ℕ) (t : Bool) (st : State O)
      → AreStraightStmts a × AreStraightStmts b
      → size_stmts a + size_stmts b ≤ k
      → Returns (branch O H R a b e t st)
  branch-Returns a b e true st (s, s') h =
      eval_scoped-Returns H R k total a e st s (omega (arith, h))
  branch-Returns a b e false st (s, s') h =
      eval_scoped-Returns H R k total b e st s' (omega (arith, h))

  eval_truth-Returns :
      (x : Expr) (e : ℕ) (st : State O)
      → IsStraight x
      → size x ≤ k
      → Returns (eval_truth O H R x e st)
  unfolding eval_truth
  eval_truth-Returns x e st s h = bind-Returns (total x e st s h) (λ v st1. returned)

  right_if-Returns :
      (r : Expr) (e : ℕ) (a t : Bool) (st : State O)
      → IsStraight r
      → size r ≤ k
      → Returns (right_if O H R r e a t st)
  right_if-Returns r e a true st s h =
      bind-Returns (eval_truth-Returns r e st s h) (λ b st1. returned)
  right_if-Returns r e a false st s h = returned

  eval_logical-Returns :
      (is_and : Bool) (l r : Expr) (e : ℕ) (st : State O)
      → IsStraight l × IsStraight r
      → size l + size r ≤ k
      → Returns (eval_logical O H R is_and l r e st)
  unfolding eval_logical
  eval_logical-Returns is_and l r e st (s, s') h =
      bind-Returns (eval_truth-Returns l e st s (omega (arith, h)))
        (λ a st1. right_if-Returns r e a (needs_right is_and a) st1 s' (omega (arith, h)))

  combine-Returns :
      (op : Kind) (l r : Val) (st : State O) → IsOrdinary op → Returns (combine O H R op l r st)
  combine-Returns Kind.eq l r st (not_eq, not_neq) = absurd (not_eq refl)
  combine-Returns Kind.neq l r st (not_eq, not_neq) = absurd (not_neq refl)
  combine-Returns op l r st s = of_result-Returns (operate H.number op l r) st

  eval_strict-Returns :
      (op : Kind) (l r : Expr) (e : ℕ) (st : State O)
      → IsOrdinary op × IsStraight l × IsStraight r
      → size l + size r ≤ k
      → Returns (eval_strict O H R op l r e st)
  unfolding eval_strict
  eval_strict-Returns op l r e st (o, s, s') h =
      bind-Returns (total l e st s (omega (arith, h))) (λ a st1.
        bind-Returns (total r e st1 s' (omega (arith, h))) (λ b st2. combine-Returns op a b st2 o))

  eval_binary-Returns :
      (op : Kind) (l r : Expr) (e : ℕ) (st : State O)
      → IsOrdinary op × IsStraight l × IsStraight r
      → size l + size r ≤ k
      → Returns (eval_binary O H R op l r e st)
  unfolding eval_binary
  eval_binary-Returns Kind.and l r e st (o, s, s') h = eval_logical-Returns true l r e st (s, s') h
  eval_binary-Returns Kind.or l r e st (o, s, s') h = eval_logical-Returns false l r e st (s, s') h
  eval_binary-Returns op l r e st s h = eval_strict-Returns op l r e st s h

  swap_back-Returns :
      (prev : Option O.Namespace) (a : Answer Val) (st : State O)
      → Returns (swap_back O H prev a st)
  unfolding swap_back
  swap_back-Returns prev a st = returned

  eval_in_ns-Returns :
      (body : Stmts) (e : ℕ) (st : State O)
      → AreStraightStmts body
      → size_stmts body ≤ k
      → Returns (eval_in_ns O H R body e st)
  unfolding eval_in_ns in_clone
  eval_in_ns-Returns body e st s h = by_namespace st.namespace
    where
      by_namespace : (n : Option O.Namespace) → Returns (in_clone O H R n body e st)
      by_namespace none = returned
      by_namespace (some prev) =
          outcome-Returns (eval_scoped-Returns H R k total body e _ s h)
            (swap_back-Returns (some prev))

  checked-Returns : (v : Val) (st : State O) → Returns (checked O H R v st)
  checked-Returns (Val.error_val msg) st = returned
  checked-Returns Val.null st = returned
  checked-Returns v st = returned

  expr_step-Returns :
      (x : Expr) (e : ℕ) (st : State O)
      → IsStraight x
      → size x ≤ suc k
      → Returns (expr_step O H R x e st)
  unfolding expr_step IsStraight size eval_record_lit eval_list_like eval_err_check eval_unary
      eval_if store_record
  expr_step-Returns Expr.missing e st s h = returned
  expr_step-Returns (Expr.ident t name) e st s h = read_var-Returns e name st
  expr_step-Returns (Expr.int_lit t n) e st s h = returned
  expr_step-Returns (Expr.float_lit t x) e st s h = returned
  expr_step-Returns (Expr.string_lit t x) e st s h = returned
  expr_step-Returns (Expr.bool_lit t b) e st s h = returned
  expr_step-Returns (Expr.null_lit t) e st s h = returned
  expr_step-Returns (Expr.duration_lit t x d) e st s h = returned
  expr_step-Returns (Expr.path_lit t p) e st s h = returned
  expr_step-Returns (Expr.record_lit t fs) e st s h =
      bind-Returns
        (eval_fields-Returns H R k total fs e (new_record (backings O)) st s (omega (arith, h)))
        (λ r st1. returned)
  expr_step-Returns (Expr.table_lit t rows) e st s h =
      bind-Returns (eval_exprs-Returns H R k total rows e st s (omega (arith, h)))
        (λ vs st1. returned)
  expr_step-Returns (Expr.list_lit t xs) e st s h =
      bind-Returns (eval_exprs-Returns H R k total xs e st s (omega (arith, h)))
        (λ vs st1. returned)
  expr_step-Returns (Expr.closure t ps body) e st s h = returned
  expr_step-Returns (Expr.field_access t recv field) e st s h = absurd s
  expr_step-Returns (Expr.call t fn args) e st s h = absurd s
  expr_step-Returns (Expr.external_call t name x args) e st s h = absurd s
  expr_step-Returns (Expr.pipe_expr t l r) e st s h = absurd s
  expr_step-Returns (Expr.binary_expr t op l r) e st s h =
      eval_binary-Returns op l r e st s (omega (arith, h))
  expr_step-Returns (Expr.unary_expr t op x) e st s h =
      bind-Returns (total x e st s (omega (arith, h)))
        (λ v st1. of_result-Returns (unary_val H.number op v) st1)
  expr_step-Returns (Expr.err_check t x) e st s h =
      bind-Returns (total x e st s (omega (arith, h))) (λ v st1. checked-Returns v st1)
  expr_step-Returns (Expr.if_expr t c a b) e st (s, ss, ss') h =
      bind-Returns (total c e st s (omega (arith, h)))
        (λ v st1. branch-Returns a b e (is_true v) st1 (ss, ss') (omega (arith, h)))
  expr_step-Returns (Expr.while_expr t c body) e st s h = absurd s
  expr_step-Returns (Expr.break_expr t) e st s h = returned
  expr_step-Returns (Expr.continue_expr t) e st s h = returned
  expr_step-Returns (Expr.background t x b) e st s h = absurd s
  expr_step-Returns (Expr.at_host t name x body) e st s h = absurd s
  expr_step-Returns (Expr.in_ns t body) e st s h = eval_in_ns-Returns body e st s (omega (arith, h))

module _ {O : Outside} (H : Host O) where
  size-pos : (x : Expr) → IsStraight x → 1 ≤ size x
  unfolding size
  size-pos Expr.missing s = omega arith
  size-pos _ s = omega arith

  expr-Returns :
      (fuel : ℕ) (x : Expr) (e : ℕ) (st : State O)
      → IsStraight x
      → size x ≤ fuel
      → Returns ((rules O H fuel).expr x e st)
  unfolding rules
  expr-Returns zero x e st s h = absurd (omega (arith, h, size-pos x s))
  expr-Returns (suc fuel) x e st s h =
      expr_step-Returns H (rules O H fuel) fuel (expr-Returns fuel) x e st s h

  -- A program that calls nothing, has no loop, no bind and no command, reads and assigns no field, and
  -- compares nothing with == or !=, returns a value or an error, in every state, with as much fuel as it
  -- has expressions.
  pub eval_program-Returns :
      (program : Stmts) (e : ℕ) (st : State O)
      → AreStraightStmts program
      → Returns (eval_program O H (size_stmts program) program e st)
  unfolding eval_program eval_block
  eval_program-Returns program e st s =
      eval_stmts-Returns H (rules O H (size_stmts program)) (size_stmts program)
        (expr-Returns (size_stmts program)) program e Val.null st s (omega arith)
