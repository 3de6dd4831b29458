-- ===== src/Kyu/Parser/Total/Braces.antt =====
-- Termination of the records and closures of kyu/parser/parser.go.
use sh.Prelude.{
  ℕ, suc, ◌-◌, ◌*◌, ◌≤◌, ◌<◌, ◌≡◌, refl, Bool, true, false, not, Option, none, some, if◌then◌else◌,
  arith,
}
use sh.Kyu.Token.{Kind, Token}
use sh.Kyu.Lexer.{is_eof}
use sh.Kyu.Ast.{RecordFields, Params, no_params, no_fields, snoc_field, snoc_param, is_missing}
use sh.Kyu.Parser.State.{
  Parser, next_token, pure, ◌>>=◌, consume, is_comma, is_rbrace, is_colon, is_identifier, is_assign,
  is_pipe,
}
use sh.Kyu.Parser.Rules.{Rules}
use sh.Kyu.Parser.Compound.{lowest, pipe_level}
use sh.Kyu.Parser.Braces.{
  field_round, parse_fields, close_record, parse_record, parse_closure_body, param_end,
  parse_params, close_params, parse_closure, parse_record_or_closure, parse_brace,
}
use sh.Kyu.Parser.Total.Runs.{
  left, IsOk, next_token-IsOk, next_token-left, cur_left, peek_left, errs-left, errs-IsOk, Returns,
  expect-Returns, then-Returns, if-Returns, weaken,
}
use sh.Kyu.Parser.Total.Compound.{IsTotal, parse_block-Returns}

comma_eof : (k : Kind) → is_comma k ≡ true → is_eof k ≡ false
comma_eof k h = ground arith

identifier_eof : (k : Kind) → is_identifier k ≡ true → is_eof k ≡ false
identifier_eof k h = ground arith

not_false : (b : Bool) → not b ≡ false → b ≡ true
not_false true h = refl
not_false false h = cc

module _ (f : ℕ) (R : Rules) (total : IsTotal f R) where
  field_round-Returns :
      (fs : RecordFields) (p : Parser)
      → IsOk p
      → 2 * left p < f
      → Returns (left p) (field_round R fs p)
  unfolding field_round
  field_round-Returns fs p ok h =
      if-Returns _ _ (is_rbrace p.cur.kind) (λ _. (some fs, p, refl, ok, omega arith))
        λ _. then-Returns (expect-Returns Kind.colon is_colon p ok) λ found q okq le.
          let few = next_token-left q okq in
          if-Returns _ _ (not found) (λ _. (none, q, refl, okq, le))
            λ _.
              then-Returns
                (total.expr lowest (next_token q) (next_token-IsOk q okq)
                  (omega (arith, h, le, few)))
                λ v r okr le₁.
                  weaken
                    (total.fields (snoc_field fs p.cur.literal v) r okr
                      (omega (arith, h, le, few, le₁)))
                    (omega (arith, le, few, le₁))

  pub parse_fields-Returns :
      (fs : RecordFields) (p : Parser)
      → IsOk p
      → 2 * left p < suc f
      → Returns (left p) (parse_fields R fs p)
  unfolding parse_fields
  parse_fields-Returns fs p ok h =
      let p₁ = next_token p in
      let ok₁ = next_token-IsOk p ok in
      let few = next_token-left p ok in
      let few₁ = next_token-left p₁ ok₁ in
      if-Returns _ _ (not (is_comma p.peek.kind)) (λ _. (some fs, p, refl, ok, omega arith))
        λ e.
          let pos = peek_left p (comma_eof p.peek.kind (not_false _ e)) in
          weaken
            (field_round-Returns fs (next_token p₁) (next_token-IsOk p₁ ok₁)
              (omega (arith, h, few, few₁, pos)))
            (omega (arith, few, few₁))

  close_record-Returns :
      (tok : Token) (fs : Option RecordFields) (p : Parser)
      → IsOk p
      → Returns (left p) (close_record R tok fs p)
  close_record-Returns tok none p ok = (_, p, refl, ok, omega arith)
  close_record-Returns tok (some fs) p ok =
      then-Returns (expect-Returns Kind.rbrace is_rbrace p ok)
        λ found q okq le. (_, q, refl, okq, le)

  -- Behind the brace.
  parse_record-Returns :
      (tok name : Token) (p : Parser)
      → IsOk p
      → 2 * left p < f
      → Returns (left p) (parse_record R tok name p)
  unfolding parse_record
  parse_record-Returns tok name p ok h =
      let p₁ = next_token p in
      let ok₁ = next_token-IsOk p ok in
      let few = next_token-left p ok in
      let few₁ = next_token-left p₁ ok₁ in
      then-Returns
        (total.expr lowest (next_token p₁) (next_token-IsOk p₁ ok₁) (omega (arith, h, few, few₁)))
        λ v q okq le.
          then-Returns
            (total.fields (snoc_field no_fields name.literal v) q okq
              (omega (arith, h, few, few₁, le)))
            λ fs r okr le₁.
              weaken (close_record-Returns tok fs r okr) (omega (arith, few, few₁, le, le₁))

  parse_closure_body-Returns :
      (tok : Token) (ps : Params) (p : Parser)
      → IsOk p
      → 2 * left p < f
      → Returns (left p) (parse_closure_body R tok ps p)
  unfolding parse_closure_body
  parse_closure_body-Returns tok ps p ok h =
      then-Returns (parse_block-Returns f R total p ok h) λ body q okq le.
        then-Returns (expect-Returns Kind.rbrace is_rbrace q okq)
          λ found r okr le₁. (_, r, refl, okr, omega (arith, le, le₁))

  skip_comma-Returns :
      (p : Parser)
      → IsOk p
      → Returns (left p) ((if is_comma p.cur.kind then consume else pure tt) p)
  skip_comma-Returns p ok =
      if-Returns _ _ (is_comma p.cur.kind)
        (λ _. (tt, next_token p, refl, next_token-IsOk p ok, omega (arith, next_token-left p ok)))
        (λ _. (tt, p, refl, ok, omega arith))

  param_end-Returns :
      (saw : Bool) (ps : Params) (p : Parser)
      → IsOk p
      → 2 * (left p - 1) < f
      → Returns (left p) (param_end R saw ps p)
  unfolding param_end
  param_end-Returns saw ps p ok h =
      let few = next_token-left p ok in
      then-Returns (skip_comma-Returns (next_token p) (next_token-IsOk p ok)) λ _ q okq le.
        weaken (total.params saw ps q okq (omega (arith, h, few, le))) (omega (arith, few, le))

  default-Returns :
      (ps : Params) (tok : Token) (p : Parser)
      → IsOk p
      → 2 * left p < f
      → Returns (left p) (
          (R.expr pipe_level >>= λ def.
          if is_missing def then pure none else param_end R true (snoc_param ps tok.literal def))
            p)
  default-Returns ps tok p ok h = then-Returns (total.expr pipe_level p ok h) λ def q okq le.
      if-Returns _ _ (is_missing def) (λ _. (none, q, refl, okq, le))
        λ _.
          weaken
            (param_end-Returns true (snoc_param ps tok.literal def) q okq (omega (arith, h, le))) le

  pub parse_params-Returns :
      (saw : Bool) (ps : Params) (p : Parser)
      → IsOk p
      → 2 * left p < suc f
      → Returns (left p) (parse_params R saw ps p)
  unfolding parse_params
  parse_params-Returns saw ps p ok h =
      let p₁ = next_token p in
      let ok₁ = next_token-IsOk p ok in
      let few = next_token-left p ok in
      let few₁ = next_token-left p₁ ok₁ in
      if-Returns _ _ (not (is_identifier p.cur.kind)) (λ _. (some ps, p, refl, ok, omega arith))
        λ e.
          let pos = cur_left p (identifier_eof p.cur.kind (not_false _ e)) in
          if-Returns _ _ (is_assign p.peek.kind)
            (λ _.
              weaken
                (default-Returns ps p.cur (next_token p₁) (next_token-IsOk p₁ ok₁)
                  (omega (arith, h, few, few₁, pos)))
                (omega (arith, few, few₁)))
            (λ _.
              if-Returns _ _ saw
                (λ _. (none, _, refl, errs-IsOk p _ ok, omega (arith, errs-left p _)))
                (λ _. param_end-Returns saw _ p ok (omega (arith, h, pos))))

  close_params-Returns :
      (tok : Token) (ps : Option Params) (p : Parser)
      → IsOk p
      → 2 * left p < f
      → Returns (left p) (close_params R tok ps p)
  close_params-Returns tok none p ok h = (_, p, refl, ok, omega arith)
  close_params-Returns tok (some ps) p ok h =
      let few = next_token-left p ok in
      if-Returns _ _ (not (is_pipe p.cur.kind))
        (λ _. (_, _, refl, errs-IsOk p _ ok, omega (arith, errs-left p _)))
        (λ _.
          weaken
            (parse_closure_body-Returns tok ps (next_token p) (next_token-IsOk p ok)
              (omega (arith, h, few)))
            (omega (arith, few)))

  parse_closure-Returns :
      (tok : Token) (p : Parser)
      → IsOk p
      → 1 ≤ left p
      → 2 * left p < suc f
      → Returns (left p) (parse_closure R tok p)
  unfolding parse_closure
  parse_closure-Returns tok p ok pos h =
      let p₁ = next_token p in
      let ok₁ = next_token-IsOk p ok in
      let few = next_token-left p ok in
      let few₁ = next_token-left p₁ ok₁ in
      then-Returns
        (total.params false no_params (next_token p₁) (next_token-IsOk p₁ ok₁)
          (omega (arith, h, few, few₁, pos)))
        λ ps q okq le.
          weaken (close_params-Returns tok ps q okq (omega (arith, h, few, few₁, pos, le)))
            (omega (arith, few, few₁, le))

  parse_record_or_closure-Returns :
      (tok : Token) (p : Parser)
      → IsOk p
      → 1 ≤ left p
      → 2 * left p < suc f
      → Returns (left p) (parse_record_or_closure R tok p)
  unfolding parse_record_or_closure
  parse_record_or_closure-Returns tok p ok pos h =
      let p₁ = next_token p in
      let ok₁ = next_token-IsOk p ok in
      let few = next_token-left p ok in
      let fuel : 2 * left p₁ < f = omega (arith, h, few, pos) in
      weaken
        (if-Returns _ _ (is_colon p₁.peek.kind) (λ _. parse_record-Returns tok p₁.cur p₁ ok₁ fuel)
          (λ _. parse_closure_body-Returns tok no_params p₁ ok₁ fuel))
        (omega (arith, few))

  pub parse_brace-Returns :
      (p : Parser) → IsOk p → 1 ≤ left p → 2 * left p < suc f → Returns (left p) (parse_brace R p)
  unfolding parse_brace
  parse_brace-Returns p ok pos h =
      let p₁ = next_token p in
      let ok₁ = next_token-IsOk p ok in
      let few = next_token-left p ok in
      if-Returns _ _ (is_rbrace p.peek.kind) (λ _. (_, p₁, refl, ok₁, omega (arith, few)))
        λ _.
          if-Returns _ _ (is_pipe p.peek.kind) (λ _. parse_closure-Returns p.cur p ok pos h)
            λ _.
              if-Returns _ _ (is_identifier p.peek.kind)
                (λ _. parse_record_or_closure-Returns p.cur p ok pos h)
                (λ _.
                  weaken
                    (parse_closure_body-Returns p.cur no_params p₁ ok₁ (omega (arith, h, few, pos)))
                    (omega (arith, few)))
