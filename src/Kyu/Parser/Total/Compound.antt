-- ===== src/Kyu/Parser/Total/Compound.antt =====
-- Termination of the bracketed expressions of kyu/parser/parser.go.
use sh.Prelude.{
  ℕ, suc, ◌+◌, ◌*◌, ◌≤◌, ◌<◌, ◌≡◌, refl, Bool, true, false, not, ◌||◌, Runes, if◌then◌else◌, arith,
}
use sh.Kyu.Token.{Kind}
use sh.Kyu.Lexer.{is_eof}
use sh.Kyu.Ast.{Expr, Exprs, RecordFields, Params, Stmts, no_exprs, snoc_expr}
use sh.Kyu.Parser.State.{
  Parser, next_token, pure, ◌>>◌, consume, is_terminator, is_comma, is_rparen, is_rbracket,
}
use sh.Kyu.Parser.Rules.{Rules}
use sh.Kyu.Parser.Compound.{
  lowest, postfix_level, skip_terminators, parse_block, parse_unary, parse_grouped, elem_round,
  parse_elems, parse_list_or_table, parse_call,
}
use sh.Kyu.Parser.Total.Runs.{
  or_right, left, IsOk, next_token-IsOk, next_token-left, cur_left, errs-left, errs-IsOk, Returns,
  then-Returns, if-Returns, weaken,
}

-- The rules return on every state that has few enough tokens left: twice as many are less than `f`.
pub record IsTotal (f : ℕ) (R : Rules) : Type 0 where
  pub expr : (prec : ℕ) (p : Parser) → IsOk p → 2 * left p < f → Returns (left p) (R.expr prec p)
  pub expr_loop :
      (prec : ℕ) (e : Expr) (p : Parser)
      → IsOk p
      → 2 * left p < f
      → Returns (left p) (R.expr_loop prec e p)
  pub prefix : (p : Parser) → IsOk p → 2 * left p < f → Returns (left p) (R.prefix p)
  pub terminators : (p : Parser) → IsOk p → 2 * left p < f → Returns (left p) (R.terminators p)
  pub stmts :
      (in_block : Bool) (ss : Stmts) (p : Parser)
      → IsOk p
      → 2 * left p < f
      → Returns (left p) (R.stmts in_block ss p)
  pub elems :
      (close : Kind → Bool) (es : Exprs) (p : Parser)
      → IsOk p
      → 2 * left p + 1 < f
      → Returns (left p) (R.elems close es p)
  pub fields :
      (fs : RecordFields) (p : Parser) → IsOk p → 2 * left p < f → Returns (left p) (R.fields fs p)
  pub params :
      (saw : Bool) (ps : Params) (p : Parser)
      → IsOk p
      → 2 * left p < f
      → Returns (left p) (R.params saw ps p)
  pub args : (es : Exprs) (p : Parser) → IsOk p → 2 * left p < f → Returns (left p) (R.args es p)
  pub words :
      (disp : Runes) (saw ro : Bool) (p : Parser)
      → IsOk p
      → 2 * left p < f
      → Returns (left p) (R.words disp saw ro p)

terminator_eof : (k : Kind) → is_terminator k ≡ true → is_eof k ≡ false
terminator_eof k h = ground arith

module _ (f : ℕ) (R : Rules) (total : IsTotal f R) where
  pub skip_terminators-Returns :
      (p : Parser) → IsOk p → 2 * left p < suc f → Returns (left p) (skip_terminators R p)
  unfolding skip_terminators
  skip_terminators-Returns p ok h =
      let few = next_token-left p ok in
      if-Returns _ _ (is_terminator p.cur.kind)
        (λ e.
          let pos = cur_left p (terminator_eof p.cur.kind e) in
          weaken
            (total.terminators (next_token p) (next_token-IsOk p ok) (omega (arith, h, few, pos)))
            (omega (arith, few)))
        (λ e. (tt, p, refl, ok, omega arith))

  -- Behind a token that has been read.
  pub parse_block-Returns :
      (p : Parser) → IsOk p → 2 * left p < f → Returns (left p) (parse_block R p)
  unfolding parse_block
  parse_block-Returns p ok h =
      then-Returns (skip_terminators-Returns p ok (omega (arith, h)))
        λ _ q okq le. weaken (total.stmts true Stmts.no_stmts q okq (omega (arith, h, le))) le

  pub parse_unary-Returns :
      (p : Parser) → IsOk p → 1 ≤ left p → 2 * left p < suc f → Returns (left p) (parse_unary R p)
  unfolding parse_unary
  parse_unary-Returns p ok pos h =
      let few = next_token-left p ok in
      then-Returns
        (total.expr postfix_level (next_token p) (next_token-IsOk p ok)
          (omega (arith, h, few, pos)))
        λ x q okq le. (_, q, refl, okq, omega (arith, few, le))

  pub parse_grouped-Returns :
      (p : Parser) → IsOk p → 1 ≤ left p → 2 * left p < suc f → Returns (left p) (parse_grouped R p)
  unfolding parse_grouped
  parse_grouped-Returns p ok pos h =
      let few = next_token-left p ok in
      then-Returns
        (total.expr lowest (next_token p) (next_token-IsOk p ok) (omega (arith, h, few, pos)))
        λ x q okq le.
          if-Returns _ _ (not (is_rparen q.peek.kind))
            (λ _. (_, _, refl, errs-IsOk q _ okq, omega (arith, few, le, errs-left q _)))
            (λ _. (
              _,
              next_token q,
              refl,
              next_token-IsOk q okq,
              omega (arith, few, le, next_token-left q okq),
            ))

  -- An optional comma.
  skip_comma-Returns :
      (p : Parser)
      → IsOk p
      → 2 * left p < suc f
      → Returns
          (left p)
          ((if is_comma p.cur.kind then (consume >> skip_terminators R) else pure tt) p)
  skip_comma-Returns p ok h =
      let few = next_token-left p ok in
      if-Returns _ _ (is_comma p.cur.kind)
        (λ _.
          weaken
            (skip_terminators-Returns (next_token p) (next_token-IsOk p ok) (omega (arith, h, few)))
            (omega (arith, few)))
        (λ _. (tt, p, refl, ok, omega arith))

  -- Behind the first terminators of a round, there may be nothing left.
  elem_round-Returns :
      (close : Kind → Bool) (es : Exprs) (p : Parser)
      → IsOk p
      → 2 * left p < f
      → 1 < f
      → Returns (left p) (elem_round R close es p)
  unfolding elem_round
  elem_round-Returns close es p ok h more = then-Returns (total.expr lowest p ok h) λ e q okq le.
      let few = next_token-left q okq in
      then-Returns
        (skip_terminators-Returns (next_token q) (next_token-IsOk q okq)
          (omega (arith, h, le, few)))
        λ _ r okr le₁.
          then-Returns (skip_comma-Returns r okr (omega (arith, h, le, few, le₁))) λ _ t okt le₂.
            weaken
              (total.elems close (snoc_expr es e) t okt (omega (arith, h, more, le, few, le₁, le₂)))
              (omega (arith, le, few, le₁, le₂))

  pub parse_elems-Returns :
      (close : Kind → Bool) (es : Exprs) (p : Parser)
      → IsOk p
      → 2 * left p + 1 < suc f
      → Returns (left p) (parse_elems R close es p)
  unfolding parse_elems
  parse_elems-Returns close es p ok h =
      if-Returns _ _ (close p.cur.kind || is_eof p.cur.kind) (λ _. (es, p, refl, ok, omega arith))
        λ e.
          let pos = cur_left p (or_right (close p.cur.kind) e) in
          then-Returns (skip_terminators-Returns p ok (omega (arith, h))) λ _ q okq le.
            if-Returns _ _ (close q.cur.kind) (λ _. (es, q, refl, okq, le))
              λ _.
                weaken
                  (elem_round-Returns close es q okq (omega (arith, h, le)) (omega (arith, h, pos)))
                  le

  pub parse_list_or_table-Returns :
      (p : Parser)
      → IsOk p
      → 1 ≤ left p
      → 2 * left p < suc f
      → Returns (left p) (parse_list_or_table R p)
  unfolding parse_list_or_table
  parse_list_or_table-Returns p ok pos h =
      let few = next_token-left p ok in
      then-Returns
        (total.elems is_rbracket no_exprs (next_token p) (next_token-IsOk p ok)
          (omega (arith, h, few, pos)))
        λ es q okq le.
          if-Returns _ _ (not (is_rbracket q.cur.kind))
            (λ _. (_, _, refl, errs-IsOk q _ okq, omega (arith, few, le, errs-left q _)))
            (λ _. (_, q, refl, okq, omega (arith, few, le)))

  pub parse_call-Returns :
      (fn : Expr) (p : Parser)
      → IsOk p
      → 1 ≤ left p
      → 2 * left p < suc f
      → Returns (left p) (parse_call R fn p)
  unfolding parse_call
  parse_call-Returns fn p ok pos h =
      let few = next_token-left p ok in
      then-Returns
        (total.elems is_rparen no_exprs (next_token p) (next_token-IsOk p ok)
          (omega (arith, h, few, pos)))
        λ es q okq le.
          if-Returns _ _ (not (is_rparen q.cur.kind))
            (λ _. (_, _, refl, errs-IsOk q _ okq, omega (arith, few, le, errs-left q _)))
            (λ _. (_, q, refl, okq, omega (arith, few, le)))
