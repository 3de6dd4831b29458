-- ===== src/Kyu/Parser/Total/Statement.antt =====
-- Termination of the statements of kyu/parser/parser.go.
use sh.Prelude.{
  ℕ, suc, ◌*◌, ◌<◌, ◌≡◌, refl, Bool, true, false, not, ◌&&◌, ◌||◌, none, Runes, codes, same, arith,
}
use sh.Kyu.Token.{Kind}
use sh.Kyu.Lexer.{is_eof}
use sh.Kyu.Ast.{Stmts, is_missing}
use sh.Kyu.Parser.State.{
  Parser, next_token, is_comma, is_rbrace, is_identifier, is_assign, is_define, is_amp,
}
use sh.Kyu.Parser.Rules.{Rules, Literals}
use sh.Kyu.Parser.Compound.{lowest}
use sh.Kyu.Parser.Statement.{
  is_assignable, is_disposition_word, is_bind, is_unbind, add_stmt, parse_value_expr, parse_define,
  parse_words, parse_bind, parse_unbind, parse_simple, parse_stmt, parse_stmts,
}
use sh.Kyu.Parser.Total.Runs.{
  or_right, left, IsOk, next_token-IsOk, next_token-left, cur_left, peek_left, errs-left, errs-IsOk,
  Returns, expect-Returns, then-Returns, if-Returns, weaken,
}
use sh.Kyu.Parser.Total.Compound.{IsTotal, skip_terminators-Returns}
use sh.Kyu.Parser.Total.Operand.{parse_expr-Returns}

comma_eof : (k : Kind) → not (is_comma k) ≡ false → is_eof k ≡ false
comma_eof k h = ground arith

module _ (S : Literals) (f : ℕ) (R : Rules) (total : IsTotal f R) where
  parse_value_expr-Returns :
      (p : Parser) → IsOk p → 2 * left p < suc f → Returns (left p) (parse_value_expr S R p)
  unfolding parse_value_expr
  parse_value_expr-Returns p ok h =
      then-Returns (parse_expr-Returns S f R total lowest p ok h) λ e q okq le.
        let q₁ = next_token q in
        let ok₁ = next_token-IsOk q okq in
        let few = next_token-left q okq in
        if-Returns _ _ (is_missing e || not (is_amp q.peek.kind)) (λ _. (e, q, refl, okq, le))
          λ _.
            if-Returns _ _ (is_identifier q₁.peek.kind && same q₁.peek.literal (codes "pty"))
              (λ _. (
                _,
                next_token q₁,
                refl,
                next_token-IsOk q₁ ok₁,
                omega (arith, few, le, next_token-left q₁ ok₁),
              ))
              (λ _. (_, q₁, refl, ok₁, omega (arith, few, le)))

  parse_define-Returns :
      (p : Parser) → IsOk p → 2 * left p < suc f → Returns (left p) (parse_define S R p)
  unfolding parse_define
  parse_define-Returns p ok h =
      let p₁ = next_token p in
      let ok₁ = next_token-IsOk p ok in
      let few = next_token-left p ok in
      let few₁ = next_token-left p₁ ok₁ in
      then-Returns
        (parse_value_expr-Returns (next_token p₁) (next_token-IsOk p₁ ok₁)
          (omega (arith, h, few, few₁)))
        λ v q okq le. (_, q, refl, okq, omega (arith, few, few₁, le))

  pub parse_words-Returns :
      (disp : Runes) (saw ro : Bool) (p : Parser)
      → IsOk p
      → 2 * left p < suc f
      → Returns (left p) (parse_words S R disp saw ro p)
  unfolding parse_words
  parse_words-Returns disp saw ro p ok h =
      let p₁ = next_token p in
      let ok₁ = next_token-IsOk p ok in
      let q = next_token p₁ in
      let okq = next_token-IsOk p₁ ok₁ in
      let few = next_token-left p ok in
      let few₁ = next_token-left p₁ ok₁ in
      if-Returns _ _ (not (is_comma p.peek.kind)) (λ _. (_, p, refl, ok, omega arith))
        λ e.
          let pos = peek_left p (comma_eof p.peek.kind e) in
          let fuel : 2 * left q < f = omega (arith, h, few, few₁, pos) in
          weaken {b = left q}
            (if-Returns _ _ (is_identifier q.cur.kind && is_disposition_word q.cur.literal)
              (λ _.
                if-Returns _ _ saw
                  (λ _. (none, _, refl, errs-IsOk q _ okq, omega (arith, errs-left q _)))
                  (λ _. total.words q.cur.literal true ro q okq fuel))
              (λ _.
                if-Returns _ _ (is_identifier q.cur.kind && same q.cur.literal (codes "ro"))
                  (λ _.
                    if-Returns _ _ ro
                      (λ _. (none, _, refl, errs-IsOk q _ okq, omega (arith, errs-left q _)))
                      (λ _. total.words disp saw true q okq fuel))
                  (λ _. (none, _, refl, errs-IsOk q _ okq, omega (arith, errs-left q _)))))
            (omega (arith, few, few₁))

  parse_bind-Returns :
      (p : Parser) → IsOk p → 2 * left p < suc f → Returns (left p) (parse_bind S R p)
  unfolding parse_bind
  parse_bind-Returns p ok h =
      let few = next_token-left p ok in
      then-Returns
        (parse_expr-Returns S f R total lowest (next_token p) (next_token-IsOk p ok)
          (omega (arith, h, few)))
        λ src q okq le.
          if-Returns _ _ (is_missing src) (λ _. (none, q, refl, okq, omega (arith, few, le)))
            λ _. then-Returns (expect-Returns Kind.comma is_comma q okq) λ found r okr le₁.
              let few₁ = next_token-left r okr in
              if-Returns _ _ (not found) (λ _. (none, r, refl, okr, omega (arith, few, le, le₁)))
                λ _.
                  then-Returns
                    (parse_expr-Returns S f R total lowest (next_token r) (next_token-IsOk r okr)
                      (omega (arith, h, few, le, le₁, few₁)))
                    λ dst t okt le₂.
                      if-Returns _ _ (is_missing dst)
                        (λ _. (none, t, refl, okt, omega (arith, few, le, le₁, few₁, le₂)))
                        (λ _.
                          then-Returns
                            (parse_words-Returns (codes "replace") false false t okt
                              (omega (arith, h, few, le, le₁, few₁, le₂)))
                            λ words u oku le₃.
                              (_, u, refl, oku, omega (arith, few, le, le₁, few₁, le₂, le₃)))

  parse_unbind-Returns :
      (p : Parser) → IsOk p → 2 * left p < suc f → Returns (left p) (parse_unbind S R p)
  unfolding parse_unbind
  parse_unbind-Returns p ok h =
      let few = next_token-left p ok in
      then-Returns
        (parse_expr-Returns S f R total lowest (next_token p) (next_token-IsOk p ok)
          (omega (arith, h, few)))
        λ dst q okq le. (_, q, refl, okq, omega (arith, few, le))

  parse_simple-Returns :
      (p : Parser) → IsOk p → 2 * left p < suc f → Returns (left p) (parse_simple S R p)
  unfolding parse_simple
  parse_simple-Returns p ok h = then-Returns (parse_value_expr-Returns p ok h) λ e q okq le.
      let q₁ = next_token q in
      let ok₁ = next_token-IsOk q okq in
      let few = next_token-left q okq in
      let few₁ = next_token-left q₁ ok₁ in
      if-Returns _ _ (is_missing e) (λ _. (none, q, refl, okq, le))
        λ _.
          if-Returns _ _ (not (is_assign q.peek.kind)) (λ _. (_, q, refl, okq, le))
            λ _.
              if-Returns _ _ (not (is_assignable e))
                (λ _. (none, _, refl, errs-IsOk q _ okq, omega (arith, le, errs-left q _)))
                (λ _.
                  then-Returns
                    (parse_value_expr-Returns (next_token q₁) (next_token-IsOk q₁ ok₁)
                      (omega (arith, h, le, few, few₁)))
                    λ v r okr le₁. (_, r, refl, okr, omega (arith, le, few, few₁, le₁)))

  parse_stmt-Returns :
      (p : Parser) → IsOk p → 2 * left p < suc f → Returns (left p) (parse_stmt S R p)
  unfolding parse_stmt
  parse_stmt-Returns p ok h =
      if-Returns _ _ (is_bind p.cur.kind) (λ _. parse_bind-Returns p ok h)
        λ _.
          if-Returns _ _ (is_unbind p.cur.kind) (λ _. parse_unbind-Returns p ok h)
            λ _.
              if-Returns _ _ (is_identifier p.cur.kind && is_define p.peek.kind)
                (λ _. parse_define-Returns p ok h) (λ _. parse_simple-Returns p ok h)

  pub parse_stmts-Returns :
      (in_block : Bool) (ss : Stmts) (p : Parser)
      → IsOk p
      → 2 * left p < suc f
      → Returns (left p) (parse_stmts S R in_block ss p)
  unfolding parse_stmts
  parse_stmts-Returns in_block ss p ok h =
      if-Returns _ _ (in_block && is_rbrace p.cur.kind || is_eof p.cur.kind)
        (λ _. (ss, p, refl, ok, omega arith))
        (λ e.
          let pos = cur_left p (or_right (in_block && is_rbrace p.cur.kind) e) in
          then-Returns (parse_stmt-Returns p ok h) λ s q okq le.
            let few = next_token-left q okq in
            then-Returns
              (skip_terminators-Returns f R total (next_token q) (next_token-IsOk q okq)
                (omega (arith, h, le, few)))
              λ _ r okr le₁.
                weaken
                  (total.stmts in_block (add_stmt ss s) r okr (omega (arith, h, pos, le, few, le₁)))
                  (omega (arith, le, few, le₁)))
