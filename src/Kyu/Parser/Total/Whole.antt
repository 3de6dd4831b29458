-- ===== src/Kyu/Parser/Total/Whole.antt =====
-- Termination of `ParseProgram` of kyu/parser/parser.go, for whole texts.
use sh.Prelude.{
  ℕ, zero, suc, ◌+◌, ◌*◌, ◌≡◌, Bool-cases, inl, inr, Bool, true, false, Option, none, some, Runes,
  length, arith,
}
use sh.Kyu.Lexer.{is_eof}
use sh.Kyu.Ast.{Stmt, Stmts, no_stmts}
use sh.Kyu.Parser.State.{Parser, next_token, new_parser, Parse, and_then}
use sh.Kyu.Parser.Compound.{skip_terminators}
use sh.Kyu.Parser.Rules.{Literals}
use sh.Kyu.Parser.Statement.{parse_stmt, parse_stmts, add_stmt}
use sh.Kyu.Parser.Whole.{rules, parse_program, parse_text}
use sh.Kyu.Parser.Total.Runs.{new_parser-IsOk, new_parser-left}
use sh.Kyu.Parser.Total.Compound.{IsTotal, skip_terminators-Returns, parse_elems-Returns}
use sh.Kyu.Parser.Total.Braces.{parse_fields-Returns, parse_params-Returns}
use sh.Kyu.Parser.Total.Control.{parse_args-Returns}
use sh.Kyu.Parser.Total.Operand.{parse_expr-Returns, parse_operators-Returns, parse_prefix-Returns}
use sh.Kyu.Parser.Total.Statement.{parse_words-Returns, parse_stmts-Returns}

rules-IsTotal : (S : Literals) (f : ℕ) → IsTotal f (rules S f)
unfolding rules
rules-IsTotal S zero = record {
  expr = λ prec p ok h. absurd (omega (arith, h));
  expr_loop = λ prec e p ok h. absurd (omega (arith, h));
  prefix = λ p ok h. absurd (omega (arith, h));
  terminators = λ p ok h. absurd (omega (arith, h));
  stmts = λ in_block ss p ok h. absurd (omega (arith, h));
  elems = λ close es p ok h. absurd (omega (arith, h));
  fields = λ fs p ok h. absurd (omega (arith, h));
  params = λ saw ps p ok h. absurd (omega (arith, h));
  args = λ es p ok h. absurd (omega (arith, h));
  words = λ disp saw ro p ok h. absurd (omega (arith, h));
}
rules-IsTotal S (suc f) =
    let R = rules S f in
    let total = rules-IsTotal S f in
    record {
      expr = parse_expr-Returns S f R total;
      expr_loop = parse_operators-Returns S f R total;
      prefix = parse_prefix-Returns S f R total;
      terminators = skip_terminators-Returns f R total;
      stmts = parse_stmts-Returns S f R total;
      elems = parse_elems-Returns f R total;
      fields = parse_fields-Returns f R total;
      params = parse_params-Returns f R total;
      args = parse_args-Returns f R total;
      words = parse_words-Returns S f R total;
    }

and_then-some :
    {A B : Type 0} (k : A → Parse B) (m : Option (A × Parser)) (r : B × Parser)
    → and_then k m ≡ some r
    → (a : A) × (q : Parser) × (k a q ≡ some r)
and_then-some k none r h = cc
and_then-some k (some (a, q)) r h = (a, q, h)

-- The loop of `ParseProgram` ends at EOF only.
stmts-eof :
    (S : Literals) (f : ℕ) (ss rs : Stmts) (p q : Parser)
    → (rules S f).stmts false ss p ≡ some (rs, q)
    → is_eof q.cur.kind ≡ true
unfolding rules parse_stmts
stmts-eof S zero ss rs p q h = cc
stmts-eof S (suc f) ss rs p q h = elim (Bool-cases (is_eof p.cur.kind)) [
  | inl e ↦ let same_state : some (ss, p) ≡ some (rs, q) = rw e at h in cc (same_state, e)
  | inr e ↦
      let R = rules S f in
      let behind : Option Stmt → Parse Stmts =
        λ s q. and_then (λ _. R.stmts false (add_stmt ss s)) (skip_terminators R (next_token q)) in
      let rest : and_then behind (parse_stmt S R p) ≡ some (rs, q) = rw e at h in
      let (s, p₁, h₁) = and_then-some behind _ _ rest in
      let (_, p₂, h₂) = and_then-some (λ _. R.stmts false (add_stmt ss s)) _ _ h₁ in
      stmts-eof S f (add_stmt ss s) rs p₂ q h₂
]

-- For every text, every lookup of native programs and every reading of float and duration literals,
-- `ParseProgram` on a parser made by `New` returns, with 4n + 1 units of fuel where the text has n runes,
-- and its current token is then EOF: it has read the whole text, whatever the errors.
pub parse_text_total :
    (S : Literals) (src : Runes) (native : Option (Runes → Bool))
    → (ss : Stmts) × (p : Parser) × (parse_text S src native ≡ some (ss, p))
      × (is_eof p.cur.kind ≡ true)
unfolding parse_text parse_program
parse_text_total S src native =
    let fuel = 4 * length src + 1 in
    let ok = new_parser-IsOk src native in
    let few = new_parser-left src native in
    let total = rules-IsTotal S fuel in
    let (_, p, e, okp, le) =
      skip_terminators-Returns fuel (rules S fuel) total (new_parser src native) ok
        (omega (arith, few)) in
    let (ss, q, e₁, _, _) = total.stmts false no_stmts p okp (omega (arith, few, le)) in
    (ss, q, rw e e₁, stmts-eof S fuel no_stmts ss p q e₁)
