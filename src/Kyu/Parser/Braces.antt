-- ===== src/Kyu/Parser/Braces.antt =====
-- `{ … }` in kyu/parser/parser.go: records and closures.
use sh.Prelude.{Bool, true, false, not, Option, none, some, if◌then◌else◌}
use sh.Kyu.Token.{Kind, Token}
use sh.Kyu.Ast.{
  Expr, RecordFields, no_fields, snoc_field, Params, no_params, snoc_param, is_missing,
}
use sh.Kyu.Parser.State.{
  expected_closing_bar, no_default, Parse, pure, ◌>>=◌, ◌>>◌, state, consume, complain, refuse,
  is_comma, is_rbrace, is_colon, is_identifier, is_assign, is_pipe, expect_peek_or_cur,
}
use sh.Kyu.Parser.Rules.{Rules}
use sh.Kyu.Parser.Compound.{lowest, pipe_level, parse_block}

module _ (R : Rules) where
  -- The loop of `parseRecordLitFrom`, behind the two `next`s of a round.
  unfoldable pub field_round : RecordFields → Parse (Option RecordFields)
  field_round fs = do
    p ← state
    if is_rbrace p.cur.kind then pure (some fs) else (do
      ok ← expect_peek_or_cur Kind.colon is_colon
      if not ok
          then pure none
          else (do consume; v ← R.expr lowest; R.fields (snoc_field fs p.cur.literal v)))

  -- The loop of `parseRecordLitFrom`.
  unfoldable pub parse_fields : RecordFields → Parse (Option RecordFields)
  unfolding field_round
  parse_fields fs = do
    p ← state
    if not (is_comma p.peek.kind) then pure (some fs) else (do consume; consume; field_round fs)

  abbrev pub close_record : Token → Option RecordFields → Parse Expr
  close_record tok none = pure Expr.missing
  close_record tok (some fs) = do
    ok ← expect_peek_or_cur Kind.rbrace is_rbrace
    pure (if not ok then Expr.missing else Expr.record_lit tok fs)

  -- `parseRecordLitFrom`
  unfoldable pub parse_record : Token → Token → Parse Expr
  parse_record tok name = do
    consume
    consume
    v ← R.expr lowest
    fs ← R.fields (snoc_field no_fields name.literal v)
    close_record tok fs

  -- `parseClosureBodyFromCur`
  unfoldable pub parse_closure_body : Token → Params → Parse Expr
  unfolding parse_block
  parse_closure_body tok params = do
    body ← parse_block R
    ok ← expect_peek_or_cur Kind.rbrace is_rbrace
    pure (if not ok then Expr.missing else Expr.closure tok params body)

  -- The end of a round of the parameters' loop.
  unfoldable pub param_end : Bool → Params → Parse (Option Params)
  param_end saw params = do
    consume
    p ← state
    if is_comma p.cur.kind then consume else pure tt
    R.params saw params

  -- The loop of `parseClosure` over the parameters.
  unfoldable pub parse_params : Bool → Params → Parse (Option Params)
  unfolding param_end
  parse_params saw params = do
    p ← state
    if not (is_identifier p.cur.kind)
        then pure (some params)
        else if is_assign p.peek.kind
        then (do
          consume
          consume
          def ← R.expr pipe_level
          if is_missing def
              then pure none
              else param_end true (snoc_param params p.cur.literal def))
        else if saw
        then (do complain (no_default p.cur.literal); pure none)
        else param_end saw (snoc_param params p.cur.literal Expr.missing)

  abbrev pub close_params : Token → Option Params → Parse Expr
  close_params tok none = pure Expr.missing
  close_params tok (some params) = do
    p ← state
    if not (is_pipe p.cur.kind)
        then refuse (expected_closing_bar p.cur.kind)
        else (do consume; parse_closure_body tok params)

  -- `parseClosure`
  unfoldable pub parse_closure : Token → Parse Expr
  unfolding parse_closure_body
  parse_closure tok = do
    consume
    consume
    params ← R.params false no_params
    close_params tok params

  -- `parseRecordOrBareClosure`
  unfoldable pub parse_record_or_closure : Token → Parse Expr
  unfolding parse_record parse_closure_body
  parse_record_or_closure tok = do
    consume
    p ← state
    if is_colon p.peek.kind then parse_record tok p.cur else parse_closure_body tok no_params

  -- `parseBraceExpr`
  unfoldable pub parse_brace : Parse Expr
  unfolding parse_closure parse_closure_body parse_record_or_closure
  parse_brace = do
    p ← state
    if is_rbrace p.peek.kind
        then (do consume; pure (Expr.record_lit p.cur no_fields))
        else if is_pipe p.peek.kind
        then parse_closure p.cur
        else if is_identifier p.peek.kind
        then parse_record_or_closure p.cur
        else (do consume; parse_closure_body p.cur no_params)
