-- ===== src/Kyu/Parser/Total/Control.antt =====
-- Termination of the external calls, conditionals, loops and blocks of kyu/parser/parser.go.
use sh.Prelude.{
  ℕ, suc, ◌*◌, ◌≤◌, ◌<◌, ◌≡◌, refl, true, false, not, Option, none, some, Runes, [], arith,
}
use sh.Kyu.Token.{Kind, Token}
use sh.Kyu.Lexer.{is_eof}
use sh.Kyu.Ast.{Expr, Exprs, no_exprs, snoc_expr, Stmts, is_missing}
use sh.Kyu.Parser.State.{
  Parser, next_token, is_rbrace, is_lbrace, is_lparen, is_identifier, is_else,
}
use sh.Kyu.Parser.Rules.{Rules}
use sh.Kyu.Parser.Compound.{lowest}
use sh.Kyu.Parser.Control.{
  ends_external_call_args, parse_args, parse_external_args, parse_external_call, parse_body,
  parse_else, then_of, parse_if, parse_while, host_of, at_of, parse_at_host, parse_in_ns,
}
use sh.Kyu.Parser.Total.Runs.{
  left, IsOk, next_token-IsOk, next_token-left, cur_left, peek_left, errs-left, errs-IsOk, Returns,
  expect-Returns, then-Returns, if-Returns, weaken,
}
use sh.Kyu.Parser.Total.Compound.{IsTotal, parse_block-Returns, parse_grouped-Returns}

argument_eof : (k : Kind) → ends_external_call_args k ≡ false → is_eof k ≡ false
argument_eof k h = ground arith

lparen_eof : (k : Kind) → is_lparen k ≡ true → is_eof k ≡ false
lparen_eof k h = ground arith

module _ (f : ℕ) (R : Rules) (total : IsTotal f R) where
  pub parse_args-Returns :
      (es : Exprs) (p : Parser) → IsOk p → 2 * left p < suc f → Returns (left p) (parse_args R es p)
  unfolding parse_args
  parse_args-Returns es p ok h =
      let few = next_token-left p ok in
      if-Returns _ _ (ends_external_call_args p.peek.kind)
        (λ _. (some es, p, refl, ok, omega arith))
        λ e.
          let pos = peek_left p (argument_eof p.peek.kind e) in
          then-Returns
            (total.prefix (next_token p) (next_token-IsOk p ok) (omega (arith, h, few, pos)))
            λ arg q okq le.
              if-Returns _ _ (is_missing arg) (λ _. (none, q, refl, okq, omega (arith, few, le)))
                λ _.
                  weaken (total.args (snoc_expr es arg) q okq (omega (arith, h, few, pos, le)))
                    (omega (arith, few, le))

  pub parse_external_args-Returns :
      (tok : Token) (name : Runes) (name_expr : Expr) (p : Parser)
      → IsOk p
      → 2 * left p < suc f
      → Returns (left p) (parse_external_args R tok name name_expr p)
  unfolding parse_external_args
  parse_external_args-Returns tok name name_expr p ok h =
      then-Returns (parse_args-Returns no_exprs p ok h) λ args q okq le. (_, q, refl, okq, le)

  pub parse_external_call-Returns :
      (p : Parser)
      → IsOk p
      → 1 ≤ left p
      → 2 * left p < suc f
      → Returns (left p) (parse_external_call R p)
  unfolding parse_external_call
  parse_external_call-Returns p ok pos h =
      let p₁ = next_token p in
      let ok₁ = next_token-IsOk p ok in
      let few = next_token-left p ok in
      if-Returns _ _ (is_lparen p₁.cur.kind)
        (λ e.
          let pos₁ = cur_left p₁ (lparen_eof p₁.cur.kind e) in
          then-Returns (parse_grouped-Returns f R total p₁ ok₁ pos₁ (omega (arith, h, few)))
            λ name q okq le.
              if-Returns _ _ (is_missing name) (λ _. (_, q, refl, okq, omega (arith, few, le)))
                λ _.
                  weaken
                    (parse_external_args-Returns p.cur [] name q okq (omega (arith, h, few, le)))
                    (omega (arith, few, le)))
        (λ _.
          if-Returns _ _ (not (is_identifier p₁.cur.kind))
            (λ _. (_, _, refl, errs-IsOk p₁ _ ok₁, omega (arith, few, errs-left p₁ _)))
            (λ _.
              weaken
                (parse_external_args-Returns p.cur p₁.cur.literal Expr.missing p₁ ok₁
                  (omega (arith, h, few)))
                (omega (arith, few))))

  pub parse_body-Returns :
      (p : Parser) → IsOk p → 2 * left p < suc f → 1 ≤ f → Returns (left p) (parse_body R p)
  unfolding parse_body
  parse_body-Returns p ok h some_fuel =
      then-Returns (expect-Returns Kind.lbrace is_lbrace p ok) λ found q okq le.
        let few = next_token-left q okq in
        if-Returns _ _ (not found) (λ _. (none, q, refl, okq, le))
          λ _.
            then-Returns
              (parse_block-Returns f R total (next_token q) (next_token-IsOk q okq)
                (omega (arith, h, le, few, some_fuel)))
              λ body r okr le₁.
                then-Returns (expect-Returns Kind.rbrace is_rbrace r okr)
                  λ closed t okt le₂. (_, t, refl, okt, omega (arith, le, few, le₁, le₂))

  parse_else-Returns :
      (tok : Token) (cond : Expr) (body : Stmts) (p : Parser)
      → IsOk p
      → 2 * left p < suc f
      → 1 ≤ f
      → Returns (left p) (parse_else R tok cond body p)
  unfolding parse_else
  parse_else-Returns tok cond body p ok h some_fuel =
      let p₁ = next_token p in
      let ok₁ = next_token-IsOk p ok in
      let p₂ = next_token p₁ in
      let ok₂ = next_token-IsOk p₁ ok₁ in
      let few = next_token-left p ok in
      let few₁ = next_token-left p₁ ok₁ in
      if-Returns _ _ (not (is_lbrace p₂.cur.kind))
        (λ _. (_, _, refl, errs-IsOk p₂ _ ok₂, omega (arith, few, few₁, errs-left p₂ _)))
        (λ _.
          then-Returns (parse_body-Returns p₂ ok₂ (omega (arith, h, few, few₁)) some_fuel)
            λ other q okq le. (_, q, refl, okq, omega (arith, few, few₁, le)))

  then_of-Returns :
      (tok : Token) (cond : Expr) (body : Option Stmts) (p : Parser)
      → IsOk p
      → 2 * left p < suc f
      → 1 ≤ f
      → Returns (left p) (then_of R tok cond body p)
  then_of-Returns tok cond none p ok h some_fuel = (_, p, refl, ok, omega arith)
  then_of-Returns tok cond (some body) p ok h some_fuel =
      if-Returns _ _ (is_else p.peek.kind) (λ _. parse_else-Returns tok cond body p ok h some_fuel)
        (λ _. (_, p, refl, ok, omega arith))

  pub parse_if-Returns :
      (p : Parser) → IsOk p → 1 ≤ left p → 2 * left p < suc f → Returns (left p) (parse_if R p)
  unfolding parse_if
  parse_if-Returns p ok pos h =
      let few = next_token-left p ok in
      then-Returns
        (total.expr lowest (next_token p) (next_token-IsOk p ok) (omega (arith, h, few, pos)))
        λ cond q okq le.
          then-Returns
            (parse_body-Returns q okq (omega (arith, h, few, le)) (omega (arith, h, pos)))
            λ body r okr le₁.
              weaken
                (then_of-Returns p.cur cond body r okr (omega (arith, h, few, le, le₁))
                  (omega (arith, h, pos)))
                (omega (arith, few, le, le₁))

  pub parse_while-Returns :
      (p : Parser) → IsOk p → 1 ≤ left p → 2 * left p < suc f → Returns (left p) (parse_while R p)
  unfolding parse_while
  parse_while-Returns p ok pos h =
      let few = next_token-left p ok in
      then-Returns
        (total.expr lowest (next_token p) (next_token-IsOk p ok) (omega (arith, h, few, pos)))
        λ cond q okq le.
          then-Returns
            (parse_body-Returns q okq (omega (arith, h, few, le)) (omega (arith, h, pos)))
            λ body r okr le₁. (_, r, refl, okr, omega (arith, few, le, le₁))

  host_of-Returns :
      (k : Kind) (tok : Token) (p : Parser)
      → IsOk p
      → (is_eof k ≡ false → 1 ≤ left p)
      → 2 * left p < f
      → Returns (left p) (host_of R k tok p)
  unfolding host_of
  host_of-Returns Kind.ident tok p ok pos h = (_, p, refl, ok, omega arith)
  host_of-Returns Kind.path tok p ok pos h =
      then-Returns (total.prefix p ok h) λ target q okq le. (_, q, refl, okq, le)
  host_of-Returns Kind.lparen tok p ok pos h =
      then-Returns (parse_grouped-Returns f R total p ok (pos refl) (omega (arith, h)))
        λ target q okq le. (_, q, refl, okq, le)
  host_of-Returns k tok p ok pos h = (none, _, refl, errs-IsOk p _ ok, omega (arith, errs-left p _))

  at_of-Returns :
      (tok : Token) (operand : Option (Runes × Expr)) (p : Parser)
      → IsOk p
      → 2 * left p < suc f
      → 1 ≤ f
      → Returns (left p) (at_of R tok operand p)
  at_of-Returns tok none p ok h some_fuel = (_, p, refl, ok, omega arith)
  at_of-Returns tok (some (host, target)) p ok h some_fuel =
      then-Returns (parse_body-Returns p ok h some_fuel) λ body q okq le. (_, q, refl, okq, le)

  pub parse_at_host-Returns :
      (p : Parser) → IsOk p → 1 ≤ left p → 2 * left p < suc f → Returns (left p) (parse_at_host R p)
  unfolding parse_at_host
  parse_at_host-Returns p ok pos h =
      let p₁ = next_token p in
      let few = next_token-left p ok in
      then-Returns
        (host_of-Returns p₁.cur.kind p₁.cur p₁ (next_token-IsOk p ok) (cur_left p₁)
          (omega (arith, h, few, pos)))
        λ operand q okq le.
          weaken
            (at_of-Returns p.cur operand q okq (omega (arith, h, few, le)) (omega (arith, h, pos)))
            (omega (arith, few, le))

  pub parse_in_ns-Returns :
      (p : Parser) → IsOk p → 1 ≤ left p → 2 * left p < suc f → Returns (left p) (parse_in_ns R p)
  unfolding parse_in_ns
  parse_in_ns-Returns p ok pos h =
      then-Returns (parse_body-Returns p ok h (omega (arith, h, pos)))
        λ body q okq le. (_, q, refl, okq, le)
