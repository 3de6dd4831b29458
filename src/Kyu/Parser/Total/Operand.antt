-- ===== src/Kyu/Parser/Total/Operand.antt =====
-- Termination of the operands and operators of kyu/parser/parser.go.
use sh.Prelude.{
  ℕ, suc, ◌*◌, ◌≤◌, ◌<◌, ◌≡◌, refl, Bool, true, false, not, ◌&&◌, Option, none, some, Runes, ltb,
  arith,
}
use sh.Prelude.Int.{ℤ}
use sh.Kyu.Token.{Kind, Token}
use sh.Kyu.Lexer.{is_eof}
use sh.Kyu.Ast.{Expr, is_missing}
use sh.Kyu.Parser.State.{Parser, next_token, is_lbrace, is_identifier, is_terminator}
use sh.Kyu.Parser.Rules.{Rules, Literals}
use sh.Kyu.Parser.Compound.{pipe_level}
use sh.Kyu.Parser.Operand.{
  precedence, int_of, float_of, duration_of, is_native, prefix_of, parse_prefix, parse_field_access,
  parse_binary, parse_pipe_rhs, parse_pipe, infix_of, parse_infix, parse_operators, parse_expr,
}
use sh.Kyu.Parser.Total.Runs.{
  left, IsOk, next_token-IsOk, next_token-left, cur_left, peek_left, errs-left, errs-IsOk, Returns,
  expect-Returns, then-Returns, if-Returns, weaken,
}
use sh.Kyu.Parser.Total.Compound.{
  IsTotal, parse_unary-Returns, parse_grouped-Returns, parse_list_or_table-Returns,
  parse_call-Returns,
}
use sh.Kyu.Parser.Total.Braces.{parse_brace-Returns}
use sh.Kyu.Parser.Total.Control.{
  parse_external_args-Returns, parse_external_call-Returns, parse_if-Returns, parse_while-Returns,
  parse_at_host-Returns, parse_in_ns-Returns,
}

int_of-Returns :
    (tok : Token) (n : Option ℤ) (p : Parser) → IsOk p → Returns (left p) (int_of tok n p)
int_of-Returns tok none p ok = (_, _, refl, errs-IsOk p _ ok, omega (arith, errs-left p _))
int_of-Returns tok (some n) p ok = (_, p, refl, ok, omega arith)

float_of-Returns :
    (tok : Token) (x : Option ℕ) (p : Parser) → IsOk p → Returns (left p) (float_of tok x p)
float_of-Returns tok none p ok = (_, _, refl, errs-IsOk p _ ok, omega (arith, errs-left p _))
float_of-Returns tok (some x) p ok = (_, p, refl, ok, omega arith)

duration_of-Returns :
    (tok : Token) (d : Option ℤ) (p : Parser) → IsOk p → Returns (left p) (duration_of tok d p)
duration_of-Returns tok none p ok = (_, _, refl, errs-IsOk p _ ok, omega (arith, errs-left p _))
duration_of-Returns tok (some d) p ok = (_, p, refl, ok, omega arith)

brace_eof : (k : Kind) (b : Bool) → (b && is_lbrace k) ≡ true → is_eof k ≡ false
brace_eof k b h = ground arith

operator_eof :
    (k : Kind) (b : Bool) (prec : ℕ) → (b && ltb prec (precedence k)) ≡ true → is_eof k ≡ false
unfolding precedence
operator_eof k b prec h = ground arith

module _ (S : Literals) (f : ℕ) (R : Rules) (total : IsTotal f R) where
  prefix_of-Returns :
      (k : Kind) (tok : Token) (native : Option (Runes → Bool)) (p : Parser)
      → IsOk p
      → (is_eof k ≡ false → 1 ≤ left p)
      → 2 * left p < suc f
      → Returns (left p) (prefix_of S R k tok native p)
  unfolding prefix_of
  prefix_of-Returns Kind.ident tok native p ok pos h =
      if-Returns _ _ (is_native native tok.literal)
        (λ _. parse_external_args-Returns f R total tok tok.literal Expr.missing p ok h)
        (λ _. (_, p, refl, ok, omega arith))
  prefix_of-Returns Kind.int tok native p ok pos h = int_of-Returns tok _ p ok
  prefix_of-Returns Kind.float tok native p ok pos h = float_of-Returns tok _ p ok
  prefix_of-Returns Kind.string tok native p ok pos h = (_, p, refl, ok, omega arith)
  prefix_of-Returns Kind.duration tok native p ok pos h = duration_of-Returns tok _ p ok
  prefix_of-Returns Kind.path tok native p ok pos h = (_, p, refl, ok, omega arith)
  prefix_of-Returns Kind.true_word tok native p ok pos h = (_, p, refl, ok, omega arith)
  prefix_of-Returns Kind.false_word tok native p ok pos h = (_, p, refl, ok, omega arith)
  prefix_of-Returns Kind.null tok native p ok pos h = (_, p, refl, ok, omega arith)
  prefix_of-Returns Kind.not tok native p ok pos h = parse_unary-Returns f R total p ok (pos refl) h
  prefix_of-Returns Kind.minus tok native p ok pos h =
      parse_unary-Returns f R total p ok (pos refl) h
  prefix_of-Returns Kind.lparen tok native p ok pos h =
      parse_grouped-Returns f R total p ok (pos refl) h
  prefix_of-Returns Kind.lbrace tok native p ok pos h =
      parse_brace-Returns f R total p ok (pos refl) h
  prefix_of-Returns Kind.lbracket tok native p ok pos h =
      parse_list_or_table-Returns f R total p ok (pos refl) h
  prefix_of-Returns Kind.percent tok native p ok pos h =
      parse_external_call-Returns f R total p ok (pos refl) h
  prefix_of-Returns Kind.if_word tok native p ok pos h =
      parse_if-Returns f R total p ok (pos refl) h
  prefix_of-Returns Kind.while tok native p ok pos h =
      parse_while-Returns f R total p ok (pos refl) h
  prefix_of-Returns Kind.break tok native p ok pos h = (_, p, refl, ok, omega arith)
  prefix_of-Returns Kind.continue tok native p ok pos h = (_, p, refl, ok, omega arith)
  prefix_of-Returns Kind.at tok native p ok pos h =
      parse_at_host-Returns f R total p ok (pos refl) h
  prefix_of-Returns Kind.in_ns tok native p ok pos h =
      parse_in_ns-Returns f R total p ok (pos refl) h
  prefix_of-Returns k tok native p ok pos h =
      (_, _, refl, errs-IsOk p _ ok, omega (arith, errs-left p _))

  pub parse_prefix-Returns :
      (p : Parser) → IsOk p → 2 * left p < suc f → Returns (left p) (parse_prefix S R p)
  unfolding parse_prefix
  parse_prefix-Returns p ok h =
      prefix_of-Returns p.cur.kind p.cur p.is_native_program p ok (cur_left p) h

  parse_field_access-Returns :
      (e : Expr) (p : Parser) → IsOk p → Returns (left p) (parse_field_access S R e p)
  unfolding parse_field_access
  parse_field_access-Returns e p ok =
      then-Returns (expect-Returns Kind.ident is_identifier p ok)
        λ found q okq le. (_, q, refl, okq, le)

  parse_binary-Returns :
      (e : Expr) (p : Parser)
      → IsOk p
      → 1 ≤ left p
      → 2 * left p < suc f
      → Returns (left p) (parse_binary S R e p)
  unfolding parse_binary
  parse_binary-Returns e p ok pos h =
      let few = next_token-left p ok in
      then-Returns
        (total.expr (precedence p.cur.kind) (next_token p) (next_token-IsOk p ok)
          (omega (arith, h, few, pos)))
        λ x q okq le. (_, q, refl, okq, omega (arith, few, le))

  parse_pipe_rhs-Returns :
      (p : Parser) → IsOk p → 2 * left p < f → Returns (left p) (parse_pipe_rhs S R p)
  unfolding parse_pipe_rhs next_token
  parse_pipe_rhs-Returns p ok h =
      let few = next_token-left p ok in
      let p₁ = next_token p in
      let ok₁ = next_token-IsOk p ok in
      if-Returns _ _ (is_identifier p.cur.kind && is_lbrace p.peek.kind)
        (λ e.
          let pos = cur_left p₁ (brace_eof p₁.cur.kind (is_identifier p.cur.kind) e) in
          then-Returns (parse_brace-Returns f R total p₁ ok₁ pos (omega (arith, h, few)))
            λ arg q okq le. (_, q, refl, okq, omega (arith, few, le)))
        (λ _. total.expr pipe_level p ok h)

  infix_of-Returns :
      (k : Kind) (tok : Token) (e : Expr) (p : Parser)
      → IsOk p
      → 1 ≤ left p
      → 2 * left p < suc f
      → Returns (left p) (infix_of S R k tok e p)
  unfolding infix_of parse_pipe
  infix_of-Returns Kind.dot tok e p ok pos h = parse_field_access-Returns e p ok
  infix_of-Returns Kind.lparen tok e p ok pos h = parse_call-Returns f R total e p ok pos h
  infix_of-Returns Kind.question tok e p ok pos h = (_, p, refl, ok, omega arith)
  infix_of-Returns Kind.pipe tok e p ok pos h =
      let few = next_token-left p ok in
      then-Returns
        (parse_pipe_rhs-Returns (next_token p) (next_token-IsOk p ok) (omega (arith, h, few, pos)))
        λ x q okq le. (_, q, refl, okq, omega (arith, few, le))
  infix_of-Returns k tok e p ok pos h = parse_binary-Returns e p ok pos h

  pub parse_operators-Returns :
      (prec : ℕ) (e : Expr) (p : Parser)
      → IsOk p
      → 2 * left p < suc f
      → Returns (left p) (parse_operators S R prec e p)
  unfolding parse_operators parse_infix next_token
  parse_operators-Returns prec e p ok h =
      let few = next_token-left p ok in
      let p₁ = next_token p in
      if-Returns _ _ (not (is_terminator p.peek.kind) && ltb prec (precedence p.peek.kind))
        (λ on.
          let eof = operator_eof p.peek.kind (not (is_terminator p.peek.kind)) prec on in
          let pos = peek_left p eof in
          let pos₁ = cur_left p₁ eof in
          then-Returns
            (infix_of-Returns p₁.cur.kind p₁.cur e p₁ (next_token-IsOk p ok) pos₁
              (omega (arith, h, few)))
            λ more q okq le.
              if-Returns _ _ (is_missing more) (λ _. (_, q, refl, okq, omega (arith, few, le)))
                λ _.
                  weaken (total.expr_loop prec more q okq (omega (arith, h, few, pos, le)))
                    (omega (arith, few, le)))
        (λ _. (e, p, refl, ok, omega arith))

  pub parse_expr-Returns :
      (prec : ℕ) (p : Parser)
      → IsOk p
      → 2 * left p < suc f
      → Returns (left p) (parse_expr S R prec p)
  unfolding parse_expr
  parse_expr-Returns prec p ok h = then-Returns (parse_prefix-Returns p ok h) λ e q okq le.
      if-Returns _ _ (is_missing e) (λ _. (_, q, refl, okq, le))
        λ _. weaken (parse_operators-Returns prec e q okq (omega (arith, h, le))) le
