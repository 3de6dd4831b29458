-- ===== src/Kyu/Parser/Operand.antt =====
-- `parsePrefix`, `parseInfix` and the precedence climbing of kyu/parser/parser.go.
use sh.Prelude.{ℕ, Bool, true, false, not, ◌&&◌, Option, none, some, Runes, ltb, if◌then◌else◌}
use sh.Prelude.Int.{ℤ}
use sh.Std.Strings.{atoi}
use sh.Kyu.Token.{Kind, Token}
use sh.Kyu.Ast.{Expr, no_exprs, expr_cons, is_missing}
use sh.Kyu.Parser.State.{
  unexpected_token, invalid_int, invalid_float, invalid_duration, Parse, pure, ◌>>=◌, ◌>>◌, state,
  consume, refuse, is_lbrace, is_identifier, is_terminator, expect_peek_or_cur,
}
use sh.Kyu.Parser.Rules.{Rules, Literals}
use sh.Kyu.Parser.Compound.{pipe_level, parse_unary, parse_grouped, parse_list_or_table, parse_call}
use sh.Kyu.Parser.Braces.{parse_brace}
use sh.Kyu.Parser.Control.{
  parse_external_call, parse_external_args, parse_if, parse_while, parse_at_host, parse_in_ns,
}

-- `precedences`; LOWEST is 0
unfoldable pub precedence : Kind → ℕ
precedence Kind.pipe = 1
precedence Kind.or = 2
precedence Kind.and = 3
precedence Kind.eq = 4
precedence Kind.neq = 4
precedence Kind.lt = 5
precedence Kind.gt = 5
precedence Kind.le = 5
precedence Kind.ge = 5
precedence Kind.plus = 6
precedence Kind.minus = 6
precedence Kind.star = 7
precedence Kind.slash = 7
precedence Kind.modulo = 7
precedence Kind.lparen = 9
precedence Kind.dot = 9
precedence Kind.question = 9
precedence _ = 0

abbrev pub int_of : Token → Option ℤ → Parse Expr
int_of tok none = refuse (invalid_int tok.literal)
int_of tok (some n) = pure (Expr.int_lit tok n)

abbrev pub float_of : Token → Option ℕ → Parse Expr
float_of tok none = refuse (invalid_float tok.literal)
float_of tok (some x) = pure (Expr.float_lit tok x)

abbrev pub duration_of : Token → Option ℤ → Parse Expr
duration_of tok none = refuse (invalid_duration tok.literal)
duration_of tok (some d) = pure (Expr.duration_lit tok tok.literal d)

-- `p.isNativeProgram != nil && p.isNativeProgram(name)`
abbrev pub is_native : Option (Runes → Bool) → Runes → Bool
is_native none name = false
is_native (some lookup) name = lookup name

module _ (S : Literals) (R : Rules) where
  -- `parsePrefix` on the kind of the current token
  unfoldable pub prefix_of : Kind → Token → Option (Runes → Bool) → Parse Expr
  unfolding parse_unary parse_grouped parse_brace parse_list_or_table parse_external_call
      parse_external_args parse_if parse_while parse_at_host parse_in_ns
  prefix_of Kind.ident tok native =
      if is_native native tok.literal
      then parse_external_args R tok tok.literal Expr.missing
      else pure (Expr.ident tok tok.literal)
  prefix_of Kind.int tok native = int_of tok (atoi tok.literal)
  prefix_of Kind.float tok native = float_of tok (S.parse_float tok.literal)
  prefix_of Kind.string tok native = pure (Expr.string_lit tok tok.literal)
  prefix_of Kind.duration tok native = duration_of tok (S.parse_duration tok.literal)
  prefix_of Kind.path tok native = pure (Expr.path_lit tok tok.literal)
  prefix_of Kind.true_word tok native = pure (Expr.bool_lit tok true)
  prefix_of Kind.false_word tok native = pure (Expr.bool_lit tok false)
  prefix_of Kind.null tok native = pure (Expr.null_lit tok)
  prefix_of Kind.not tok native = parse_unary R
  prefix_of Kind.minus tok native = parse_unary R
  prefix_of Kind.lparen tok native = parse_grouped R
  prefix_of Kind.lbrace tok native = parse_brace R
  prefix_of Kind.lbracket tok native = parse_list_or_table R
  prefix_of Kind.percent tok native = parse_external_call R
  prefix_of Kind.if_word tok native = parse_if R
  prefix_of Kind.while tok native = parse_while R
  prefix_of Kind.break tok native = pure (Expr.break_expr tok)
  prefix_of Kind.continue tok native = pure (Expr.continue_expr tok)
  prefix_of Kind.at tok native = parse_at_host R
  prefix_of Kind.in_ns tok native = parse_in_ns R
  prefix_of k tok native = refuse (unexpected_token k tok.literal)

  -- `parsePrefix`
  unfoldable pub parse_prefix : Parse Expr
  unfolding prefix_of
  parse_prefix = do p ← state; prefix_of p.cur.kind p.cur p.is_native_program

  -- `parseFieldAccess`
  unfoldable pub parse_field_access : Expr → Parse Expr
  parse_field_access left = do
    p ← state
    ok ← expect_peek_or_cur Kind.ident is_identifier
    q ← state
    pure (if not ok then Expr.missing else Expr.field_access p.cur left q.cur.literal)

  -- `parseBinary`
  unfoldable pub parse_binary : Expr → Parse Expr
  unfolding precedence
  parse_binary left = do
    p ← state
    consume
    right ← R.expr (precedence p.cur.kind)
    pure (Expr.binary_expr p.cur p.cur.kind left right)

  -- `parsePipeRHS`
  unfoldable pub parse_pipe_rhs : Parse Expr
  unfolding parse_brace
  parse_pipe_rhs = do
    p ← state
    if is_identifier p.cur.kind && is_lbrace p.peek.kind
        then (do
          consume
          arg ← parse_brace R
          pure (Expr.call p.cur (Expr.ident p.cur p.cur.literal) (expr_cons arg no_exprs)))
        else R.expr pipe_level

  -- `parsePipe`
  unfoldable pub parse_pipe : Expr → Parse Expr
  unfolding parse_pipe_rhs
  parse_pipe left = do
    p ← state
    consume
    right ← parse_pipe_rhs
    pure (Expr.pipe_expr p.cur left right)

  -- `parseInfix` on the kind of the current token
  unfoldable pub infix_of : Kind → Token → Expr → Parse Expr
  unfolding parse_field_access parse_call parse_pipe parse_binary
  infix_of Kind.dot tok left = parse_field_access left
  infix_of Kind.lparen tok left = parse_call R left
  infix_of Kind.question tok left = pure (Expr.err_check tok left)
  infix_of Kind.pipe tok left = parse_pipe left
  infix_of k tok left = parse_binary left

  unfoldable pub parse_infix : Expr → Parse Expr
  unfolding infix_of
  parse_infix left = do p ← state; infix_of p.cur.kind p.cur left

  -- The loop of `parseExpr`, by its first round.
  unfoldable pub parse_operators : ℕ → Expr → Parse Expr
  unfolding parse_infix precedence
  parse_operators prec left = do
    p ← state
    if not (is_terminator p.peek.kind) && ltb prec (precedence p.peek.kind)
        then (do
          consume
          more ← parse_infix left
          if is_missing more then pure Expr.missing else R.expr_loop prec more)
        else pure left

  -- `parseExpr`
  unfoldable pub parse_expr : ℕ → Parse Expr
  unfolding parse_prefix parse_operators
  parse_expr prec = do
    left ← parse_prefix
    if is_missing left then pure Expr.missing else parse_operators prec left
