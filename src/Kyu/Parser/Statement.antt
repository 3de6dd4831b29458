-- ===== src/Kyu/Parser/Statement.antt =====
-- The statements of kyu/parser/parser.go. A statement that is nil is `none`.
use sh.Prelude.{
  Bool, true, false, not, ◌&&◌, ◌||◌, Option, none, some, Runes, codes, same, if◌then◌else◌,
}
use sh.Kyu.Token.{Kind, Token}
use sh.Kyu.Lexer.{is_eof}
use sh.Kyu.Ast.{
  Expr, Stmt, Stmts, snoc_stmt, is_missing, expr_stmt, define_stmt, assign_stmt, bind_stmt,
  unbind_stmt,
}
use sh.Kyu.Parser.State.{
  invalid_target, two_dispositions, ro_twice, expected_disposition, Parse, pure, ◌>>=◌, ◌>>◌, state,
  consume, complain, is_comma, is_rbrace, is_identifier, is_assign, is_define, is_amp,
  expect_peek_or_cur,
}
use sh.Kyu.Parser.Rules.{Rules, Literals}
use sh.Kyu.Parser.Compound.{lowest, skip_terminators}
use sh.Kyu.Parser.Operand.{parse_expr}

-- `isAssignable`
abbrev pub is_assignable : Expr → Bool
is_assignable (Expr.ident tok name) = true
is_assignable (Expr.field_access tok recv name) = true
is_assignable _ = false

-- `isDispositionWord`
abbrev pub is_disposition_word : Runes → Bool
is_disposition_word s =
    same s (codes "before") || same s (codes "after") || same s (codes "replace")

abbrev pub is_bind : Kind → Bool
is_bind Kind.bind = true
is_bind _ = false

abbrev pub is_unbind : Kind → Bool
is_unbind Kind.unbind = true
is_unbind _ = false

abbrev bind_of : Token → Expr → Expr → Option (Runes × Bool) → Option Stmt
bind_of tok src dst none = none
bind_of tok src dst (some (disp, ro)) = some (bind_stmt tok src dst disp ro)

abbrev pub add_stmt : Stmts → Option Stmt → Stmts
add_stmt stmts none = stmts
add_stmt stmts (some s) = snoc_stmt stmts s

module _ (S : Literals) (R : Rules) where
  -- `parseValueExpr`
  unfoldable pub parse_value_expr : Parse Expr
  unfolding parse_expr
  parse_value_expr = do
    e ← parse_expr S R lowest
    p ← state
    if is_missing e || not (is_amp p.peek.kind) then pure e else (do
      consume
      q ← state
      if is_identifier q.peek.kind && same q.peek.literal (codes "pty")
          then (do consume; pure (Expr.background q.cur e true))
          else pure (Expr.background q.cur e false))

  -- `parseDefineStmt`
  unfoldable pub parse_define : Parse (Option Stmt)
  unfolding parse_value_expr
  parse_define = do
    p ← state
    consume
    q ← state
    consume
    v ← parse_value_expr
    pure (some (define_stmt p.cur q.cur p.cur.literal v))

  -- The loop of `parseBindStmt` over the words behind DST.
  unfoldable pub parse_words : Runes → Bool → Bool → Parse (Option (Runes × Bool))
  parse_words disp saw ro = do
    p ← state
    if not (is_comma p.peek.kind) then pure (some (disp, ro)) else (do
      consume
      consume
      q ← state
      if is_identifier q.cur.kind && is_disposition_word q.cur.literal
          then (if saw
              then (do complain (two_dispositions q.cur.literal disp); pure none)
              else R.words q.cur.literal true ro)
          else if is_identifier q.cur.kind && same q.cur.literal (codes "ro")
          then (if ro then (do complain ro_twice; pure none) else R.words disp saw true)
          else (do complain (expected_disposition q.cur.kind q.cur.literal); pure none))

  -- `parseBindStmt`
  unfoldable pub parse_bind : Parse (Option Stmt)
  unfolding parse_expr parse_words
  parse_bind = do
    p ← state
    consume
    src ← parse_expr S R lowest
    if is_missing src then pure none else (do
      ok ← expect_peek_or_cur Kind.comma is_comma
      if not ok then pure none else (do
        consume
        dst ← parse_expr S R lowest
        if is_missing dst then pure none else (do
          words ← parse_words (codes "replace") false false
          pure (bind_of p.cur src dst words))))

  -- `parseUnbindStmt`
  unfoldable pub parse_unbind : Parse (Option Stmt)
  unfolding parse_expr
  parse_unbind = do
    p ← state
    consume
    dst ← parse_expr S R lowest
    pure (if is_missing dst then none else some (unbind_stmt p.cur dst))

  -- `parseStmt` behind its first three tests
  unfoldable pub parse_simple : Parse (Option Stmt)
  unfolding parse_value_expr
  parse_simple = do
    e ← parse_value_expr
    p ← state
    if is_missing e
        then pure none
        else if not (is_assign p.peek.kind)
        then pure (some (expr_stmt e))
        else if not (is_assignable e)
        then (do complain invalid_target; pure none)
        else (do
          consume
          q ← state
          consume
          v ← parse_value_expr
          pure (some (assign_stmt q.cur e v)))

  -- `parseStmt`
  unfoldable pub parse_stmt : Parse (Option Stmt)
  unfolding parse_bind parse_unbind parse_define parse_simple
  parse_stmt = do
    p ← state
    if is_bind p.cur.kind
        then parse_bind
        else if is_unbind p.cur.kind
        then parse_unbind
        else if is_identifier p.cur.kind && is_define p.peek.kind
        then parse_define
        else parse_simple

  -- The loop of `parseBlock`, and of `ParseProgram`, which no brace ends.
  unfoldable pub parse_stmts : Bool → Stmts → Parse Stmts
  unfolding parse_stmt skip_terminators
  parse_stmts in_block stmts = do
    p ← state
    if in_block && is_rbrace p.cur.kind || is_eof p.cur.kind
        then pure stmts
        else (do s ← parse_stmt; consume; skip_terminators R; R.stmts in_block (add_stmt stmts s))
