-- ===== src/Kyu/Machine/Straight.antt =====
-- Programs of kyu/eval that call nothing, loop nowhere, read and write no field, which may be live and then
-- block, and compare for no equality: each of their
-- expressions is evaluated once, so that their size is enough fuel.
pub mod Total
pub mod Whole
use sh.Prelude.{ℕ, suc, ◌+◌, ◌≢◌}
use sh.Kyu.Token.{Kind}
use sh.Kyu.Ast.{
  Expr, Exprs, no_exprs, expr_cons, RecordFields, no_fields, field_cons, Stmt, Stmts, no_stmts,
  stmt_cons,
}

-- Operators that are not equality.
abbrev pub IsOrdinary : Kind → Type 0
IsOrdinary op = (op ≢ Kind.eq) × (op ≢ Kind.neq)

unfoldable mutual
  pub IsStraight : Expr → Type 0
  IsStraight (Expr.record_lit t fs) = AreStraightFields fs
  IsStraight (Expr.table_lit t rows) = AreStraight rows
  IsStraight (Expr.list_lit t xs) = AreStraight xs
  IsStraight (Expr.field_access t recv field) = ⊥
  IsStraight (Expr.call t fn args) = ⊥
  IsStraight (Expr.external_call t name x args) = ⊥
  IsStraight (Expr.pipe_expr t l r) = ⊥
  IsStraight (Expr.binary_expr t op l r) = IsOrdinary op × IsStraight l × IsStraight r
  IsStraight (Expr.unary_expr t op x) = IsStraight x
  IsStraight (Expr.err_check t x) = IsStraight x
  IsStraight (Expr.if_expr t c a b) = IsStraight c × AreStraightStmts a × AreStraightStmts b
  IsStraight (Expr.while_expr t c body) = ⊥
  IsStraight (Expr.background t x b) = ⊥
  IsStraight (Expr.at_host t name x body) = ⊥
  IsStraight (Expr.in_ns t body) = AreStraightStmts body
  IsStraight _ = Unit {0}

  pub AreStraight : Exprs → Type 0
  AreStraight no_exprs = Unit {0}
  AreStraight (expr_cons x xs) = IsStraight x × AreStraight xs

  pub AreStraightFields : RecordFields → Type 0
  AreStraightFields no_fields = Unit {0}
  AreStraightFields (field_cons name x fs) = IsStraight x × AreStraightFields fs

  pub IsStraightStmt : Stmt → Type 0
  IsStraightStmt (Stmt.expr_stmt x) = IsStraight x
  IsStraightStmt (Stmt.define_stmt t u name x) = IsStraight x
  IsStraightStmt (Stmt.assign_stmt t target x) = IsStraight target × IsStraight x
  IsStraightStmt (Stmt.bind_stmt t source dest disposition read_only) = ⊥
  IsStraightStmt (Stmt.unbind_stmt t x) = ⊥

  pub AreStraightStmts : Stmts → Type 0
  AreStraightStmts no_stmts = Unit {0}
  AreStraightStmts (stmt_cons s ss) = IsStraightStmt s × AreStraightStmts ss

-- How many expressions there are.
unfoldable mutual
  pub size : Expr → ℕ
  size (Expr.record_lit t fs) = suc (size_fields fs)
  size (Expr.table_lit t rows) = suc (size_all rows)
  size (Expr.list_lit t xs) = suc (size_all xs)
  size (Expr.binary_expr t op l r) = suc (size l + size r)
  size (Expr.unary_expr t op x) = suc (size x)
  size (Expr.err_check t x) = suc (size x)
  size (Expr.if_expr t c a b) = suc (size c + size_stmts a + size_stmts b)
  size (Expr.in_ns t body) = suc (size_stmts body)
  size _ = 1

  pub size_all : Exprs → ℕ
  size_all no_exprs = 0
  size_all (expr_cons x xs) = size x + size_all xs

  pub size_fields : RecordFields → ℕ
  size_fields no_fields = 0
  size_fields (field_cons name x fs) = size x + size_fields fs

  pub size_stmt : Stmt → ℕ
  size_stmt (Stmt.expr_stmt x) = size x
  size_stmt (Stmt.define_stmt t u name x) = size x
  size_stmt (Stmt.assign_stmt t target x) = size target + size x
  size_stmt _ = 0

  pub size_stmts : Stmts → ℕ
  size_stmts no_stmts = 0
  size_stmts (stmt_cons s ss) = size_stmt s + size_stmts ss
