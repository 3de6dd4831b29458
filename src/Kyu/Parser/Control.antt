-- ===== src/Kyu/Parser/Control.antt =====
-- External calls, conditionals, loops and the blocks behind `at` and `in ns` of kyu/parser/parser.go.
use sh.Prelude.{Bool, true, false, not, Option, none, some, [], Runes, if◌then◌else◌}
use sh.Kyu.Token.{Kind, Token}
use sh.Kyu.Ast.{Expr, Exprs, no_exprs, snoc_expr, Stmts, no_stmts, is_missing}
use sh.Kyu.Parser.State.{
  expected_command, expected_else_brace, expected_operand, Parse, pure, ◌>>=◌, ◌>>◌, state, consume,
  complain, refuse, is_rbrace, is_lbrace, is_lparen, is_identifier, is_else, expect_peek_or_cur,
}
use sh.Kyu.Parser.Rules.{Rules}
use sh.Kyu.Parser.Compound.{lowest, parse_block, parse_grouped}

-- `endsExternalCallArgs`
abbrev pub ends_external_call_args : Kind → Bool
ends_external_call_args Kind.newline = true
ends_external_call_args Kind.semi = true
ends_external_call_args Kind.eof = true
ends_external_call_args Kind.pipe = true
ends_external_call_args Kind.amp = true
ends_external_call_args Kind.rparen = true
ends_external_call_args Kind.rbrace = true
ends_external_call_args Kind.rbracket = true
ends_external_call_args Kind.comma = true
ends_external_call_args Kind.and = true
ends_external_call_args Kind.or = true
ends_external_call_args _ = false

module _ (R : Rules) where
  -- The loop of `parseExternalCallArgsFor`.
  unfoldable pub parse_args : Exprs → Parse (Option Exprs)
  parse_args args = do
    p ← state
    if ends_external_call_args p.peek.kind then pure (some args) else (do
      consume
      arg ← R.prefix
      if is_missing arg then pure none else R.args (snoc_expr args arg))

  abbrev external_of : Token → Runes → Expr → Option Exprs → Expr
  external_of tok name name_expr none = Expr.missing
  external_of tok name name_expr (some args) = Expr.external_call tok name name_expr args

  -- `parseExternalCallArgsFor`
  unfoldable pub parse_external_args : Token → Runes → Expr → Parse Expr
  unfolding parse_args
  parse_external_args tok name name_expr = do
    args ← parse_args no_exprs
    pure (external_of tok name name_expr args)

  -- `parseExternalCall`
  unfoldable pub parse_external_call : Parse Expr
  unfolding parse_grouped parse_external_args
  parse_external_call = do
    p ← state
    consume
    q ← state
    if is_lparen q.cur.kind
        then (do
          name ← parse_grouped R
          if is_missing name then pure Expr.missing else parse_external_args p.cur [] name)
        else if not (is_identifier q.cur.kind)
        then refuse (expected_command q.cur.kind)
        else parse_external_args p.cur q.cur.literal Expr.missing

  -- `{ … }` behind the token that wants it: the block, or `none` for an error and a return of nil.
  unfoldable pub parse_body : Parse (Option Stmts)
  unfolding parse_block
  parse_body = do
    open_ok ← expect_peek_or_cur Kind.lbrace is_lbrace
    if not open_ok then pure none else (do
      consume
      body ← parse_block R
      close_ok ← expect_peek_or_cur Kind.rbrace is_rbrace
      pure (if not close_ok then none else some body))

  abbrev else_of : Token → Expr → Stmts → Option Stmts → Expr
  else_of tok cond then_part none = Expr.missing
  else_of tok cond then_part (some body) = Expr.if_expr tok cond then_part body

  -- The `else` branch of `parseIfExpr`.
  unfoldable pub parse_else : Token → Expr → Stmts → Parse Expr
  unfolding parse_body
  parse_else tok cond then_part = do
    consume
    consume
    p ← state
    if not (is_lbrace p.cur.kind)
        then refuse (expected_else_brace p.cur.kind)
        else (do body ← parse_body; pure (else_of tok cond then_part body))

  abbrev pub then_of : Token → Expr → Option Stmts → Parse Expr
  then_of tok cond none = pure Expr.missing
  then_of tok cond (some body) = do
    p ← state
    if is_else p.peek.kind
        then parse_else tok cond body
        else pure (Expr.if_expr tok cond body no_stmts)

  -- `parseIfExpr`
  unfoldable pub parse_if : Parse Expr
  unfolding parse_body parse_else
  parse_if = do p ← state; consume; cond ← R.expr lowest; body ← parse_body; then_of p.cur cond body

  abbrev node_of : (Stmts → Expr) → Option Stmts → Expr
  node_of node none = Expr.missing
  node_of node (some body) = node body

  -- `parseWhileExpr`
  unfoldable pub parse_while : Parse Expr
  unfolding parse_body
  parse_while = do
    p ← state
    consume
    cond ← R.expr lowest
    body ← parse_body
    pure (node_of (Expr.while_expr p.cur cond) body)

  -- The operand of `parseAtHost`, with its first token as the current one: the name, or its expression;
  -- `none` is a return of nil.
  unfoldable pub host_of : Kind → Token → Parse (Option (Runes × Expr))
  host_of Kind.ident tok = pure (some (tok.literal, Expr.missing))
  host_of Kind.path tok = do
    target ← R.prefix
    pure (if is_missing target then none else some ([], target))
  host_of Kind.lparen tok = do
    target ← parse_grouped R
    pure (if is_missing target then none else some ([], target))
  host_of k tok = do complain (expected_operand k tok.literal); pure none

  abbrev pub at_of : Token → Option (Runes × Expr) → Parse Expr
  at_of tok none = pure Expr.missing
  at_of tok (some (host, target)) = do
    body ← parse_body
    pure (node_of (Expr.at_host tok host target) body)

  -- `parseAtHost`
  unfoldable pub parse_at_host : Parse Expr
  unfolding host_of parse_body
  parse_at_host = do
    p ← state
    consume
    q ← state
    operand ← host_of q.cur.kind q.cur
    at_of p.cur operand

  -- `parseInNS`
  unfoldable pub parse_in_ns : Parse Expr
  unfolding parse_body
  parse_in_ns = do p ← state; body ← parse_body; pure (node_of (Expr.in_ns p.cur) body)
