-- ===== src/Kyu/Lexer/Stream.antt =====
-- `Next` of kyu/lexer/lexer.go as a stream: where each token stands, when a newline becomes a
-- token, and that the stream ends.
use sh.Prelude.{
  ℕ, ◌≤◌, ◌<◌, ◌≡◌, ◌≢◌, ◌↔◌, refl, ◌⊎◌, inl, inr, Bool, true, false, not, ◌&&◌, ◌||◌, [], ◌∷◌,
  ◌++◌, length, Runes, ltb, ◌==◌, arith, Bool-cases,
}
use sh.Kyu.Token.{Kind, Token}
use sh.Kyu.Lexer.{
  Cursor, Lexer, ends_value, skip_space, skip_space_and_comments, lex_token, emit_at, next,
  line_after, col_after,
}
use sh.Kyu.Lexer.Moves.{Moves, Moves-refl, skip_space_and_comments-Moves, line_over}
use sh.Kyu.Lexer.Emits.{length-Moves, lex_token-Reads}

line_over-le : (rs : Runes) (n : ℕ) → n ≤ line_over rs n
line_over-le [] n = omega arith
line_over-le (r ∷ rs) n = ground (arith, line_over-le rs (line_after r n))

skip_space-line :
    (in_comment seen : Bool) (rs : Runes) (line col : ℕ)
    → line ≤ (skip_space in_comment seen rs line col).1.line
unfolding skip_space
skip_space-line in_comment seen [] line col = omega arith
skip_space-line in_comment seen (r ∷ rs) line col = ground (
  arith,
  skip_space-line (not (r == b'\n') && (in_comment || r == b'#')) (seen || r == b'\n') rs
      (line_after r line) (col_after r col),
)

-- A newline was seen exactly if the line number grew.
skip_space-seen :
    (in_comment seen : Bool) (rs : Runes) (line col : ℕ)
    → (skip_space in_comment seen rs line col).0
      ≡ (seen || ltb line (skip_space in_comment seen rs line col).1.line)
unfolding skip_space
skip_space-seen in_comment seen [] line col = ground arith
skip_space-seen in_comment seen (r ∷ rs) line col = ground (
  arith,
  skip_space-line (not (r == b'\n') && (in_comment || r == b'#')) (seen || r == b'\n') rs
      (line_after r line) (col_after r col),
  skip_space-seen (not (r == b'\n') && (in_comment || r == b'#')) (seen || r == b'\n') rs
      (line_after r line) (col_after r col),
)

-- What the call `next l ≡ out` did.
pub record Emits (l : Lexer) (out : Token × Lexer) : Type 0 where
  pub start : Cursor
  pub skipped : Moves l.cursor start
  pub read : Moves start out.1.cursor
  pub last_is : out.1.last_kind ≡ out.0.kind
  pub line_is : out.0.line ≡ start.line
  pub col_is : out.0.col ≡ start.col
  pub spelled :
      out.0.kind ≢ Kind.string
      → out.0.kind ≢ Kind.newline
      → start.rest ≡ out.0.literal ++ out.1.cursor.rest
  -- a NEWLINE exactly where a line ended behind a token that ends a value
  pub asi :
      (out.0.kind ≡ Kind.newline) ↔ ((ends_value l.last_kind ≡ true) × (l.cursor.line < start.line))
  pub progress :
      (out.0.kind ≡ Kind.eof)
      ⊎ (out.0.kind ≡ Kind.newline)
      ⊎ (length out.1.cursor.rest < length l.cursor.rest)

Emits-token :
    (l : Lexer) (c : Cursor) (rs : Runes)
    → c.rest ≡ rs
    → Moves l.cursor c
    → ¬ ((ends_value l.last_kind ≡ true) × (l.cursor.line < c.line))
    → Emits l (lex_token l c rs)
unfolding lex_token emit_at
Emits-token l c [] e m h = record {
  start = c;
  skipped = m;
  read = Moves-refl c;
  last_is = refl;
  line_is = refl;
  col_is = refl;
  spelled = λ _ _. refl;
  asi = (λ p. cc, λ p. absurd (h p));
  progress = inl refl;
}
Emits-token l c (r ∷ rs) e m h =
    let o = lex_token-Reads l c r rs e in
    record {
      start = c;
      skipped = m;
      read = o.moves;
      last_is = o.last_is;
      line_is = o.line_is;
      col_is = o.col_is;
      spelled = λ p _. o.spelled p;
      asi = (λ p. absurd (o.ne_newline p), λ p. absurd (h p));
      progress = inr (inr (omega (arith, o.shorter, length-Moves m)));
    }

-- One call of `Next`.
pub next-Emits : (l : Lexer) → Emits l (next l)
next-Emits l =
    let skipped = skip_space_and_comments l.cursor in
    let m = skip_space_and_comments-Moves l.cursor in
    let seen = skip_space-seen false false l.cursor.rest l.cursor.line l.cursor.col in
    elim (Bool-cases (skipped.0 && ends_value l.last_kind)) [
      | inl newline ↦
          unfold next emit_at in
          rw newline (record {
            start = skipped.1;
            skipped = m;
            read = Moves-refl skipped.1;
            last_is = refl;
            line_is = refl;
            col_is = refl;
            spelled = λ _ p. absurd (p refl);
            asi = (λ _. (ground arith, ground arith), λ _. refl);
            progress = inr (inl refl);
          })
      | inr other ↦
          unfold next in
          rw other (Emits-token l skipped.1 skipped.1.rest refl m (λ p. ground arith))
    ]
