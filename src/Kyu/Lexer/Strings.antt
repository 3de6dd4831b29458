-- ===== src/Kyu/Lexer/Strings.antt =====
-- String literals (`lexString` of kyu/lexer/lexer.go) against a printer of such literals.
use sh.Prelude.{
  ℕ, ◌+◌, ◌≡◌, refl, ap, inl, inr, false, ◌||◌, [], ◌∷◌, ◌++◌, Runes, ◌==◌, if◌then◌else◌, arith,
  Bool-cases, or_false,
}
use sh.Kyu.Token.{Kind}
use sh.Kyu.Lexer.{
  Lexer, advance, emit_at, unescape, string_body, lex_string, lex_token, next, skip_space,
  is_letter, is_digit, line_after, col_after,
}

-- `"` and `\\` want a backslash; every other rune may stand as it is.
abbrev pub quoted : Runes → Runes
quoted [] = []
quoted (r ∷ rs) = if r == 34 || r == b'\\' then b'\\' ∷ r ∷ quoted rs else r ∷ quoted rs

string_body-quoted :
    (s rest : Runes) (line col : ℕ)
    → ((string_body false (quoted s ++ 34 ∷ rest) line col).0 ≡ s)
      × ((string_body false (quoted s ++ 34 ∷ rest) line col).1.rest ≡ rest)
unfolding string_body
string_body-quoted [] rest line col = (refl, refl)
string_body-quoted (r ∷ rs) rest line col = elim (Bool-cases (r == 34 || r == b'\\')) [
  | inl special ↦
      let ih = string_body-quoted rs rest (line_after r line) (col_after r (col + 1)) in
      let itself : unescape r ≡ r = unfold unescape in ground arith in
      rw special (rw (itself, ih.0), ih.1)
  | inr plain ↦
      let ih = string_body-quoted rs rest (line_after r line) (col_after r col) in
      let (not_quote, not_backslash) = or_false (r == 34) (r == b'\\') plain in
      rw plain (rw (not_quote, not_backslash) (ap (◌∷◌ r) ih.0, ih.1))
]

-- Reading back a quoted text: wherever the next token starts with a quote, a backslash before
-- each `"` and each `\\` of any text and a closing quote give the STRING token of that text,
-- and the lexer stands right behind the closing quote.
pub next-quoted :
    (l : Lexer) (s rest : Runes)
    → l.cursor.rest ≡ 34 ∷ (quoted s ++ 34 ∷ rest)
    → ((next l).0
        ≡ record { kind = Kind.string; literal = s; line = l.cursor.line; col = l.cursor.col })
      × ((next l).1.cursor.rest ≡ rest)
unfolding next lex_token lex_string emit_at skip_space advance is_letter is_digit
next-quoted l s rest e =
    let body = string_body-quoted s rest l.cursor.line (l.cursor.col + 1) in
    rw e (rw body.0, body.1)
