-- ===== src/Kyu/Parser/Rules.antt =====
-- What a method of kyu/parser/parser.go calls: the recursive methods, and the loops from their next round
-- on.
use sh.Prelude.{ℕ, Bool, Option, Runes}
use sh.Prelude.Int.{ℤ}
use sh.Kyu.Token.{Kind}
use sh.Kyu.Ast.{Expr, Exprs, RecordFields, Params, Stmts}
use sh.Kyu.Parser.State.{Parse}

-- strconv.ParseFloat, to the bits of the float64, and time.ParseDuration, in nanoseconds; an error is
-- `none`.
pub record Literals : Type 0 where
  pub parse_float : Runes → Option ℕ
  pub parse_duration : Runes → Option ℤ

pub record Rules : Type 0 where
  -- `parseExpr`, and its loop
  pub expr : ℕ → Parse Expr
  pub expr_loop : ℕ → Expr → Parse Expr
  -- `parsePrefix`
  pub prefix : Parse Expr
  -- `skipTerminators`
  pub terminators : Parse (Unit {0})
  -- the loops of `parseBlock` and, if the flag is false, of `ParseProgram`
  pub stmts : Bool → Stmts → Parse Stmts
  -- the loops of `parseCall` and `parseListOrTableLit`, by the token that ends them
  pub elems : (Kind → Bool) → Exprs → Parse Exprs
  -- those of `parseRecordLitFrom`, `parseClosure` and `parseExternalCallArgsFor`; `none` is its return
  -- of nil
  pub fields : RecordFields → Parse (Option RecordFields)
  pub params : Bool → Params → Parse (Option Params)
  pub args : Exprs → Parse (Option Exprs)
  -- the words behind `bind SRC, DST`: the disposition, whether one was given, and `ro`
  pub words : Runes → Bool → Bool → Parse (Option (Runes × Bool))
