-- ===== src/Kyu/Parser/Whole.antt =====
-- The parser of kyu/parser/parser.go as a whole: the methods call each other, on fuel.
use sh.Prelude.{ℕ, zero, suc, ◌+◌, ◌*◌, Bool, false, Option, none, Runes, length}
use sh.Kyu.Ast.{Stmts, no_stmts}
use sh.Kyu.Parser.State.{Parser, new_parser, Parse, ◌>>◌}
use sh.Kyu.Parser.Rules.{Rules, Literals}
use sh.Kyu.Parser.Compound.{skip_terminators, parse_elems}
use sh.Kyu.Parser.Braces.{parse_fields, parse_params}
use sh.Kyu.Parser.Control.{parse_args}
use sh.Kyu.Parser.Operand.{parse_expr, parse_operators, parse_prefix}
use sh.Kyu.Parser.Statement.{parse_words, parse_stmts}

abbrev pub no_rules : Rules
no_rules = record {
  expr = λ prec p. none;
  expr_loop = λ prec left p. none;
  prefix = λ p. none;
  terminators = λ p. none;
  stmts = λ in_block stmts p. none;
  elems = λ close es p. none;
  fields = λ fs p. none;
  params = λ saw params p. none;
  args = λ args p. none;
  words = λ disp saw ro p. none;
}

abbrev pub step_rules : Literals → Rules → Rules
step_rules S R = record {
  expr = parse_expr S R;
  expr_loop = parse_operators S R;
  prefix = parse_prefix S R;
  terminators = skip_terminators R;
  stmts = parse_stmts S R;
  elems = parse_elems R;
  fields = parse_fields R;
  params = parse_params R;
  args = parse_args R;
  words = parse_words S R;
}

unfoldable pub rules : Literals → ℕ → Rules
rules S zero = no_rules
rules S (suc fuel) = step_rules S (rules S fuel)

-- `ParseProgram`
unfoldable pub parse_program : Literals → ℕ → Parse Stmts
unfolding rules skip_terminators
parse_program S fuel = do skip_terminators (rules S fuel); (rules S fuel).stmts false no_stmts

-- `New` and `ParseProgram` on a text, with fuel for every text; `none` would mean that it ran out.
unfoldable pub parse_text : Literals → Runes → Option (Runes → Bool) → Option (Stmts × Parser)
unfolding parse_program new_parser
parse_text S src native = parse_program S (4 * length src + 1) (new_parser src native)
