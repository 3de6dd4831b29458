-- ===== src/Kyu/Ast.antt =====
-- kyu/ast/ast.go: the syntax trees. A field of an interface type may be nil, which is `missing` (an
-- expression) or absent from its list (a statement). A float64 is its 64 bits.
use sh.Prelude.{ℕ, Bool, true, false, Runes}
use sh.Prelude.Int.{ℤ}
use sh.Kyu.Token.{Kind, Token}

mutual
  -- Expr; each node has its token first
  pub data Expr : Type 0 where
    missing : Expr
    ident : Token → Runes → Expr
    int_lit : Token → ℤ → Expr
    float_lit : Token → ℕ → Expr
    string_lit : Token → Runes → Expr
    bool_lit : Token → Bool → Expr
    null_lit : Token → Expr
    duration_lit : Token → Runes → ℤ → Expr
    path_lit : Token → Runes → Expr
    record_lit : Token → RecordFields → Expr
    table_lit : Token → Exprs → Expr
    list_lit : Token → Exprs → Expr
    closure : Token → Params → Stmts → Expr
    field_access : Token → Expr → Runes → Expr
    call : Token → Expr → Exprs → Expr
    -- the name, or the expression that computes it
    external_call : Token → Runes → Expr → Exprs → Expr
    pipe_expr : Token → Expr → Expr → Expr
    binary_expr : Token → Kind → Expr → Expr → Expr
    unary_expr : Token → Kind → Expr → Expr
    err_check : Token → Expr → Expr
    if_expr : Token → Expr → Stmts → Stmts → Expr
    while_expr : Token → Expr → Stmts → Expr
    break_expr : Token → Expr
    continue_expr : Token → Expr
    background : Token → Expr → Bool → Expr
    -- the host's name, or the expression of the mount point
    at_host : Token → Runes → Expr → Stmts → Expr
    in_ns : Token → Stmts → Expr

  -- []Expr
  pub data Exprs : Type 0 where
    no_exprs : Exprs
    expr_cons : Expr → Exprs → Exprs

  -- []RecordField
  pub data RecordFields : Type 0 where
    no_fields : RecordFields
    field_cons : Runes → Expr → RecordFields → RecordFields

  -- []Param
  pub data Params : Type 0 where
    no_params : Params
    param_cons : Runes → Expr → Params → Params

  pub data Stmt : Type 0 where
    expr_stmt : Expr → Stmt
    define_stmt : Token → Token → Runes → Expr → Stmt
    assign_stmt : Token → Expr → Expr → Stmt
    -- source, destination, disposition, and whether it is read-only
    bind_stmt : Token → Expr → Expr → Runes → Bool → Stmt
    unbind_stmt : Token → Expr → Stmt

  -- []Stmt
  pub data Stmts : Type 0 where
    no_stmts : Stmts
    stmt_cons : Stmt → Stmts → Stmts

abbrev pub is_missing : Expr → Bool
is_missing Expr.missing = true
is_missing _ = false

-- `append(es, e)`
unfoldable pub snoc_expr : Exprs → Expr → Exprs
snoc_expr no_exprs e = expr_cons e no_exprs
snoc_expr (expr_cons x xs) e = expr_cons x (snoc_expr xs e)

unfoldable pub snoc_field : RecordFields → Runes → Expr → RecordFields
snoc_field no_fields k e = field_cons k e no_fields
snoc_field (field_cons n x fs) k e = field_cons n x (snoc_field fs k e)

unfoldable pub snoc_param : Params → Runes → Expr → Params
snoc_param no_params k e = param_cons k e no_params
snoc_param (param_cons n x ps) k e = param_cons n x (snoc_param ps k e)

unfoldable pub snoc_stmt : Stmts → Stmt → Stmts
snoc_stmt no_stmts s = stmt_cons s no_stmts
snoc_stmt (stmt_cons t ts) s = stmt_cons t (snoc_stmt ts s)
