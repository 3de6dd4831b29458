-- ===== src/Kyu/Parser/Compound.antt =====
-- The compound expressions of kyu/parser/parser.go that brackets close, and the rounds of their loops.
use sh.Prelude.{ℕ, Bool, true, false, not, ◌&&◌, ◌||◌, [], if◌then◌else◌}
use sh.Kyu.Token.{Kind}
use sh.Kyu.Lexer.{is_eof}
use sh.Kyu.Ast.{Expr, Exprs, no_exprs, expr_cons, snoc_expr, Stmts, no_stmts}
use sh.Kyu.Parser.State.{
  expected, Parse, pure, ◌>>=◌, ◌>>◌, state, consume, refuse, is_comma, is_rparen, is_rbracket,
  is_terminator,
}
use sh.Kyu.Parser.Rules.{Rules}

-- LOWEST, PIPE_ and POSTFIX_
abbrev pub lowest : ℕ
lowest = 0

abbrev pub pipe_level : ℕ
pipe_level = 1

abbrev pub postfix_level : ℕ
postfix_level = 8

module _ (R : Rules) where
  -- `skipTerminators`, by its first round
  unfoldable pub skip_terminators : Parse (Unit {0})
  skip_terminators = do
    p ← state
    if is_terminator p.cur.kind then (do consume; R.terminators) else pure tt

  -- `parseBlock`
  unfoldable pub parse_block : Parse Stmts
  unfolding skip_terminators
  parse_block = do skip_terminators; R.stmts true no_stmts

  -- `parseUnary`
  unfoldable pub parse_unary : Parse Expr
  parse_unary = do
    p ← state
    consume
    x ← R.expr postfix_level
    pure (Expr.unary_expr p.cur p.cur.kind x)

  -- `parseGroupedExpr`
  unfoldable pub parse_grouped : Parse Expr
  parse_grouped = do
    consume
    e ← R.expr lowest
    p ← state
    if not (is_rparen p.peek.kind)
        then refuse (expected Kind.rparen p.peek.kind p.peek.literal)
        else (do consume; pure e)

  -- The part of `parseCall` and `parseListOrTableLit` behind the first `skipTerminators` of a round.
  unfoldable pub elem_round : (Kind → Bool) → Exprs → Parse Exprs
  unfolding skip_terminators
  elem_round close es = do
    e ← R.expr lowest
    consume
    skip_terminators
    p ← state
    if is_comma p.cur.kind then (do consume; skip_terminators) else pure tt
    R.elems close (snoc_expr es e)

  -- The loop of `parseCall` and `parseListOrTableLit`.
  unfoldable pub parse_elems : (Kind → Bool) → Exprs → Parse Exprs
  unfolding skip_terminators elem_round
  parse_elems close es = do
    p ← state
    if close p.cur.kind || is_eof p.cur.kind then pure es else (do
      skip_terminators
      q ← state
      if close q.cur.kind then pure es else elem_round close es)

  abbrev all_records : Exprs → Bool
  all_records no_exprs = true
  all_records (expr_cons (Expr.record_lit t fs) es) = all_records es
  all_records (expr_cons e es) = false

  abbrev is_empty : Exprs → Bool
  is_empty no_exprs = true
  is_empty (expr_cons e es) = false

  -- `parseListOrTableLit`
  unfoldable pub parse_list_or_table : Parse Expr
  parse_list_or_table = do
    p ← state
    consume
    es ← R.elems is_rbracket no_exprs
    q ← state
    if not (is_rbracket q.cur.kind)
        then refuse (expected Kind.rbracket q.cur.kind [])
        else pure (
            if not (is_empty es) && all_records es
            then Expr.table_lit p.cur es
            else Expr.list_lit p.cur es)

  -- `parseCall`
  unfoldable pub parse_call : Expr → Parse Expr
  parse_call fn = do
    p ← state
    consume
    args ← R.elems is_rparen no_exprs
    q ← state
    if not (is_rparen q.cur.kind)
        then refuse (expected Kind.rparen q.cur.kind [])
        else pure (Expr.call p.cur fn args)
