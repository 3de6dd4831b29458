-- ===== src/Kyu/Lexer/Emits.antt =====
-- What one call of `Next` in kyu/lexer/lexer.go reads and returns, branch by branch.
mod Words
pub use Words.*
use sh.Prelude.{
  ℕ, ◌+◌, ◌≤◌, ◌<◌, ◌≡◌, ◌≢◌, refl, ap, ◌∙◌, ◌⊎◌, inl, inr, Bool, true, false, not, ◌&&◌, [], ◌∷◌,
  ◌++◌, length, length-append, Runes, ◌==◌, if◌then◌else◌, arith, Bool-cases, Option-cases,
  and_left, or_right, ==_iff,
}
use sh.Kyu.Token.{Kind, Token}
use sh.Kyu.Token.Keywords.{lookup_ident-ne}
use sh.Kyu.Lexer.{
  is_percent, is_native_number, Cursor, Lexer, ends_value, is_path, is_word, peek, peek_at_one,
  advance, skip_while, run_while, between, emit_at, mark_external, match_duration_unit,
  duration_units, number_end, lex_number, is_name_char, lex_external_name, lex_ident, lex_string,
  lex_slash_or_path, Op, one, two, operator, emit_op, lex_operator, lex_token, is_digit, is_letter,
  is_path_char, line_after, col_after,
}
use sh.Kyu.Lexer.Moves.{
  Moves, Moves-trans, advance-Moves, run_while-Moves, match_unit-Moves, between-Moves,
  string_end-Moves, number_end-Moves, number_end-behind,
}

-- The second rune of a token is the one that `operator` was shown.
abbrev OpFits : Op → ℕ → ℕ → Type 0
OpFits (one k lit) r next = (lit ≡ r ∷ []) × (k ≢ Kind.eof) × (k ≢ Kind.newline)
OpFits (two k lit) r next = (lit ≡ r ∷ next ∷ []) × (next ≢ 0) × (k ≢ Kind.eof) × (k ≢ Kind.newline)

operator-OpFits : (last : Kind) (r next : ℕ) → OpFits (operator last r next) r next
unfolding operator
operator-OpFits last r next = ground arith

-- The second rune is there, since it is not the 0 that `peek` gives at the end.
op_two-Reads :
    (l : Lexer) (c : Cursor) (k : Kind) (r : ℕ) (rs : Runes)
    → c.rest ≡ r ∷ rs
    → peek rs ≢ 0
    → k ≢ Kind.eof
    → k ≢ Kind.newline
    → Reads c (emit_at l (advance (advance c)) k (r ∷ peek rs ∷ []) c.line c.col)
op_two-Reads l c k r [] e z p q = absurd (z refl)
op_two-Reads l c k r (r' ∷ rs) e z p q = record {
  moves = unfold emit_at in Moves-trans (advance-Moves c) (advance-Moves (advance c));
  last_is = unfold emit_at in refl;
  line_is = unfold emit_at in refl;
  col_is = unfold emit_at in refl;
  spelled = λ _. unfold emit_at advance in rw (e, advance);
  shorter = unfold emit_at advance in rw (e, advance) (omega arith);
  ne_eof = unfold emit_at in p;
  ne_newline = unfold emit_at in q;
}

emit_op-Reads :
    (l : Lexer) (c : Cursor) (op : Op) (r : ℕ) (rs : Runes)
    → c.rest ≡ r ∷ rs
    → OpFits op r (peek rs)
    → Reads c (emit_op l c op c.line c.col)
unfolding emit_op
emit_op-Reads l c (one k lit) r rs e (s, p, q) = rw s (op-Reads l c k r rs e p q)
emit_op-Reads l c (two k lit) r rs e (s, z, p, q) = rw s (op_two-Reads l c k r rs e z p q)

lex_operator-Reads :
    (l : Lexer) (c : Cursor) (r : ℕ) (rs : Runes)
    → c.rest ≡ r ∷ rs
    → Reads c (lex_operator l c c.line c.col)
lex_operator-Reads l c r rs e =
    elim (Bool-cases
      (peek c.rest == b'.' && not (ends_value l.last_kind) && is_digit (peek_at_one c.rest))) [
        | inl fraction ↦
            let first : peek c.rest ≡ r = rw e in
            let second : peek_at_one c.rest ≡ peek rs = rw e in
            unfold lex_operator in
            rw fraction
              (lex_number-Reads l c (digits-shorter c r rs e (inr (ground arith, ground arith))))
        | inr plain ↦
            let fits : OpFits (operator l.last_kind (peek c.rest) (peek_at_one c.rest)) r
                (peek rs) =
              rw e (operator-OpFits l.last_kind r (peek rs)) in
            unfold lex_operator in rw plain (emit_op-Reads l c _ r rs e fits)
      ]

Reads-if :
    (b : Bool) {p q : Token × Lexer} {c : Cursor}
    → (b ≡ true → Reads c p)
    → (b ≡ false → Reads c q)
    → Reads c (if b then p else q)
Reads-if true m n = m refl
Reads-if false m n = n refl

-- Every branch of the `switch` reads a token, behind at least one rune.
pub lex_token-Reads :
    (l : Lexer) (c : Cursor) (r : ℕ) (rs : Runes)
    → c.rest ≡ r ∷ rs
    → Reads c (lex_token l c (r ∷ rs))
unfolding lex_token
lex_token-Reads l c r rs e =
    Reads-if (is_word r && is_percent l.last_kind)
      (λ h. lex_external_name-Reads l c r rs e (and_left (is_word r) (is_percent l.last_kind) h))
      λ _.
        Reads-if (is_digit r && is_native_number l.native_program_lookup c.rest)
          (λ h. lex_external_name-Reads l c r rs e (
            or_right (is_letter r) (is_digit r)
              (and_left (is_digit r) (is_native_number l.native_program_lookup c.rest) h)))
          λ _.
            Reads-if (is_digit r) (λ h. lex_number-Reads l c (digits-shorter c r rs e (inl h)))
              λ _.
                Reads-if (is_letter r) (λ h. lex_ident-Reads l c r rs e h)
                  λ _.
                    Reads-if (r == 34) (λ _. lex_string-Reads l c r rs e)
                      λ _.
                        Reads-if (r == b'/')
                          (λ h.
                            lex_slash_or_path-Reads l c rs
                              (e ∙ ap (λ (x : ℕ). x ∷ rs) ((==_iff r b'/').0 h)))
                          λ _. lex_operator-Reads l c r rs e
