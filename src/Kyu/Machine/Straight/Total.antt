-- ===== src/Kyu/Machine/Straight/Total.antt =====
-- Programs of kyu/eval that call nothing and loop nowhere, with as much fuel as they have expressions.
use sh.Prelude.{ℕ, ◌≤◌, true, false, Option, none, some, Runes, arith}
use sh.Kyu.Ast.{
  Expr, Exprs, no_exprs, expr_cons, RecordFields, no_fields, field_cons, Stmt, Stmts, no_stmts,
  stmt_cons,
}
use sh.Kyu.Value.Record.{Record, set}
use sh.Kyu.Eval.{Result, ok, err}
use sh.Kyu.Machine.{Val, Answer, value, raised, Outside, backings, State, Eval, on_outcome, go_on}
use sh.Kyu.Machine.Host.{
  Rules, Host, of_result, read_var, found_var, assign_var, after_set, child_of, define_in,
}
use sh.Kyu.Machine.Calls.{eval_exprs, assign_to, eval_stmt, eval_stmts, eval_block}
use sh.Kyu.Machine.Forms.{eval_fields}
use sh.Kyu.Machine.Control.{eval_scoped}
use sh.Kyu.Machine.Straight.{
  IsStraight, AreStraight, AreStraightFields, IsStraightStmt, AreStraightStmts, size, size_all,
  size_fields, size_stmt, size_stmts,
}

pub data Returns {A : Type 0} : Option A → Type 0 where
  returned : {r : A} → Returns (some r)

pub bind-Returns :
    {S A B : Type 0} {o : Option (Answer A × S)} {f : A → Eval S B}
    → Returns o
    → ((a : A) (st : S) → Returns (f a st))
    → Returns (on_outcome o (go_on f))
bind-Returns (returned {r = (value a, st)}) k = k a st
bind-Returns (returned {r = (raised s, st)}) k = returned

pub outcome-Returns :
    {S A B : Type 0} {o : Option (Answer A × S)} {f : Answer A → Eval S B}
    → Returns o
    → ((a : Answer A) (st : S) → Returns (f a st))
    → Returns (on_outcome o f)
outcome-Returns (returned {r = (a, st)}) k = k a st

pub of_result-Returns : {S A : Type 0} (r : Result A) (st : S) → Returns (of_result r st)
of_result-Returns (ok v) st = returned
of_result-Returns (err e) st = returned

module _ {O : Outside} where
  pub read_var-Returns : (e : ℕ) (name : Runes) (st : State O) → Returns (read_var O e name st)
  unfolding read_var
  read_var-Returns e name st = by_value _
    where
      by_value : (v : Option Val) → Returns (found_var O name v st)
      by_value none = returned
      by_value (some v) = returned

  assign_var-Returns :
      (e : ℕ) (name : Runes) (v : Val) (st : State O) → Returns (assign_var O e name v st)
  unfolding assign_var
  assign_var-Returns e name v st = by_answer _
    where
      by_answer : (o : _) → Returns (after_set O name st o)
      by_answer (true, scopes) = returned
      by_answer (false, scopes) = returned

  module _ (H : Host O) (R : Rules O) (k : ℕ)
      (total : (x : Expr) (e : ℕ) (st : State O)
        → IsStraight x
        → size x ≤ k
        → Returns (R.expr x e st)) where
    pub eval_exprs-Returns :
        (xs : Exprs) (e : ℕ) (st : State O)
        → AreStraight xs
        → size_all xs ≤ k
        → Returns (eval_exprs O H R xs e st)
    unfolding eval_exprs size_all AreStraight
    eval_exprs-Returns no_exprs e st s h = returned
    eval_exprs-Returns (expr_cons x xs) e st (s, ss) h =
        bind-Returns (total x e st s (omega (arith, h))) (λ v st1.
          bind-Returns (eval_exprs-Returns xs e st1 ss (omega (arith, h))) (λ vs st2. returned))

    pub eval_fields-Returns :
        (fs : RecordFields) (e : ℕ) (r : Record (backings O)) (st : State O)
        → AreStraightFields fs
        → size_fields fs ≤ k
        → Returns (eval_fields O H R fs e r st)
    unfolding eval_fields size_fields AreStraightFields
    eval_fields-Returns no_fields e r st s h = returned
    eval_fields-Returns (field_cons name x fs) e r st (s, ss) h =
        bind-Returns (total x e st s (omega (arith, h)))
          (λ v st1. eval_fields-Returns fs e (set (backings O) r name v) st1 ss (omega (arith, h)))

    assign_to-Returns :
        (target : Expr) (v : Val) (e : ℕ) (st : State O)
        → IsStraight target
        → size target ≤ k
        → Returns (assign_to O H R target v e st)
    unfolding assign_to size IsStraight
    assign_to-Returns (Expr.ident t name) v e st s h = assign_var-Returns e name v st
    assign_to-Returns (Expr.field_access t recv field) v e st s h = absurd s
    assign_to-Returns Expr.missing v e st s h = returned
    assign_to-Returns _ v e st s h = returned

    eval_stmt-Returns :
        (s : Stmt) (e : ℕ) (st : State O)
        → IsStraightStmt s
        → size_stmt s ≤ k
        → Returns (eval_stmt O H R s e st)
    unfolding eval_stmt define_in size_stmt IsStraightStmt
    eval_stmt-Returns (Stmt.expr_stmt x) e st s h = total x e st s h
    eval_stmt-Returns (Stmt.define_stmt t u name x) e st s h =
        bind-Returns (total x e st s h) (λ v st1. returned)
    eval_stmt-Returns (Stmt.assign_stmt t target x) e st (s, ss) h =
        bind-Returns (total x e st ss (omega (arith, h)))
          (λ v st1. assign_to-Returns target v e st1 s (omega (arith, h)))
    eval_stmt-Returns (Stmt.bind_stmt t source dest disposition read_only) e st s h = absurd s
    eval_stmt-Returns (Stmt.unbind_stmt t x) e st s h = absurd s

    pub eval_stmts-Returns :
        (ss : Stmts) (e : ℕ) (last : Val) (st : State O)
        → AreStraightStmts ss
        → size_stmts ss ≤ k
        → Returns (eval_stmts O H R ss e last st)
    unfolding eval_stmts size_stmts AreStraightStmts
    eval_stmts-Returns no_stmts e last st s h = returned
    eval_stmts-Returns (stmt_cons s ss) e last st (w, ws) h =
        bind-Returns (eval_stmt-Returns s e st w (omega (arith, h)))
          (λ v st1. eval_stmts-Returns ss e v st1 ws (omega (arith, h)))

    pub eval_scoped-Returns :
        (body : Stmts) (e : ℕ) (st : State O)
        → AreStraightStmts body
        → size_stmts body ≤ k
        → Returns (eval_scoped O H R body e st)
    unfolding eval_scoped eval_block child_of
    eval_scoped-Returns body e st s h = eval_stmts-Returns body _ Val.null _ s h
