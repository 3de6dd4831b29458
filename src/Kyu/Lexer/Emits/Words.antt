-- ===== src/Kyu/Lexer/Emits/Words.antt =====
-- What the methods of kyu/lexer/lexer.go that read a word, a number, a string or a path return.
use sh.Prelude.{
  ℕ, ◌+◌, ◌≤◌, ◌<◌, ◌≡◌, ◌≢◌, refl, ap, ◌⊎◌, inl, inr, Bool, true, false, not, ◌&&◌, [], ◌∷◌, ◌++◌,
  length, length-append, Runes, if◌then◌else◌, arith, Bool-cases, Option-cases,
}
use sh.Kyu.Token.{Kind, Token}
use sh.Kyu.Token.Keywords.{lookup_ident-ne}
use sh.Kyu.Lexer.{
  Cursor, Lexer, ends_value, is_path, is_word, peek, advance, skip_while, run_while, between,
  emit_at, mark_external, match_duration_unit, duration_units, number_end, lex_number, is_name_char,
  lex_external_name, lex_ident, lex_string, lex_slash_or_path, is_digit, is_letter, is_path_char,
  line_after, col_after,
}
use sh.Kyu.Lexer.Moves.{
  Moves, Moves-trans, advance-Moves, run_while-Moves, match_unit-Moves, between-Moves,
  string_end-Moves, number_end-Moves, number_end-behind,
}

-- `out` is a token read at the cursor `c`, with the lexer behind it.
pub record Reads (c : Cursor) (out : Token × Lexer) : Type 0 where
  pub moves : Moves c out.1.cursor
  pub last_is : out.1.last_kind ≡ out.0.kind
  pub line_is : out.0.line ≡ c.line
  pub col_is : out.0.col ≡ c.col
  pub spelled : out.0.kind ≢ Kind.string → c.rest ≡ out.0.literal ++ out.1.cursor.rest
  pub shorter : length out.1.cursor.rest < length c.rest
  pub ne_eof : out.0.kind ≢ Kind.eof
  pub ne_newline : out.0.kind ≢ Kind.newline

pub length-Moves : {c d : Cursor} → Moves c d → length d.rest ≤ length c.rest
length-Moves {c} {d} m = omega (arith, ap length m.splits, length-append m.read d.rest)

-- A word, a number or a path: the literal is src[start:pos].
pub slice-Reads :
    (l : Lexer) (c e : Cursor) (k : Kind)
    → Moves c e
    → length e.rest < length c.rest
    → k ≢ Kind.eof
    → k ≢ Kind.newline
    → Reads c (emit_at l e k (between c.rest e.rest) c.line c.col)
unfolding emit_at
slice-Reads l c e k m h p q = record {
  moves = m;
  last_is = refl;
  line_is = refl;
  col_is = refl;
  spelled = λ _. between-Moves m;
  shorter = h;
  ne_eof = p;
  ne_newline = q;
}

pub mark_external-Reads :
    (named : Bool) {c : Cursor} {out : Token × Lexer}
    → Reads c out
    → Reads c (mark_external named out)
mark_external-Reads named o = record {
  moves = o.moves;
  last_is = o.last_is;
  line_is = o.line_is;
  col_is = o.col_is;
  spelled = o.spelled;
  shorter = o.shorter;
  ne_eof = o.ne_eof;
  ne_newline = o.ne_newline;
}

-- A scan whose test takes the first rune reads at least that.
pub run_while-shorter :
    (test : ℕ → Bool) (c : Cursor) (r : ℕ) (rs : Runes)
    → c.rest ≡ r ∷ rs
    → test r ≡ true
    → length (run_while test c).rest < length c.rest
run_while-shorter test c r rs e h =
    let later =
      run_while-Moves test
        (record { rest = rs; line = line_after r c.line; col = col_after r c.col }) in
    rw e (unfold skip_while in rw h (omega (arith, length-Moves later)))

pub advance-shorter :
    (c : Cursor) (r : ℕ) (rs : Runes) → c.rest ≡ r ∷ rs → length (advance c).rest < length c.rest
unfolding advance
advance-shorter c r rs e = rw e (omega arith)

pub lex_external_name-Reads :
    (l : Lexer) (c : Cursor) (r : ℕ) (rs : Runes)
    → c.rest ≡ r ∷ rs
    → is_word r ≡ true
    → Reads c (lex_external_name l c c.line c.col)
unfolding lex_external_name
lex_external_name-Reads l c r rs e h = mark_external-Reads true (
    slice-Reads l c _ Kind.ident (run_while-Moves is_name_char c)
      (run_while-shorter is_name_char c r rs e (ground arith)) (λ p. cc) (λ p. cc))

pub lex_ident-Reads :
    (l : Lexer) (c : Cursor) (r : ℕ) (rs : Runes)
    → c.rest ≡ r ∷ rs
    → is_letter r ≡ true
    → Reads c (lex_ident l c c.line c.col)
unfolding lex_ident
lex_ident-Reads l c r rs e h = mark_external-Reads _ (
    slice-Reads l c _ _ (run_while-Moves is_word c)
      (run_while-shorter is_word c r rs e (ground arith)) (lookup_ident-ne _).0
      (lookup_ident-ne _).1)

pub lex_string-Reads :
    (l : Lexer) (c : Cursor) (r : ℕ) (rs : Runes)
    → c.rest ≡ r ∷ rs
    → Reads c (lex_string l c c.line c.col)
unfolding lex_string emit_at
lex_string-Reads l c r rs e = record {
  moves = Moves-trans (advance-Moves c) (string_end-Moves (advance c));
  last_is = refl;
  line_is = refl;
  col_is = refl;
  spelled = λ p. absurd (p refl);
  shorter = omega (arith, advance-shorter c r rs e, length-Moves (string_end-Moves (advance c)));
  ne_eof = λ p. cc;
  ne_newline = λ p. cc;
}

abbrev number_kind : Bool → Kind
number_kind is_float = if is_float then Kind.float else Kind.int

pub number_kind-ne : (f : Bool) → (number_kind f ≢ Kind.eof) × (number_kind f ≢ Kind.newline)
number_kind-ne true = (λ p. cc, λ p. cc)
number_kind-ne false = (λ p. cc, λ p. cc)

pub lex_number-Reads :
    (l : Lexer) (c : Cursor)
    → length (number_end c).1.rest < length c.rest
    → Reads c (lex_number l c c.line c.col)
lex_number-Reads l c h = elim (Option-cases (match_duration_unit (number_end c).1)) [
  | inl plain ↦
      unfold lex_number in
      rw (plain, lex_number)
        (slice-Reads l c (number_end c).1 _ (number_end-Moves c) h
          (number_kind-ne (number_end c).0).0 (number_kind-ne (number_end c).0).1)
  | inr (u, e) ↦
      let unit = match_unit-Moves duration_units (number_end c).1 e in
      unfold lex_number in
      rw (e, lex_number)
        (slice-Reads l c u Kind.duration (Moves-trans (number_end-Moves c) unit)
          (omega (arith, h, length-Moves unit)) (λ p. cc) (λ p. cc))
]

-- The digits at the cursor, or the fraction of ".5".
pub digits-shorter :
    (c : Cursor) (r : ℕ) (rs : Runes)
    → c.rest ≡ r ∷ rs
    → (is_digit r ≡ true) ⊎ ((r ≡ b'.') × (is_digit (peek rs) ≡ true))
    → length (number_end c).1.rest < length c.rest
digits-shorter c r rs e (inl h) =
    omega (arith, run_while-shorter is_digit c r rs e h, length-Moves (number_end-behind c))
digits-shorter c r rs e (inr (dot, h)) =
    let fraction =
      run_while-Moves is_digit (record { rest = rs; line = c.line; col = c.col + 1 }) in
    rw e (
      unfold number_end skip_while advance is_digit in
      rw (dot, h) (omega (arith, length-Moves fraction)))

-- A token of one rune.
pub op-Reads :
    (l : Lexer) (c : Cursor) (k : Kind) (r : ℕ) (rs : Runes)
    → c.rest ≡ r ∷ rs
    → k ≢ Kind.eof
    → k ≢ Kind.newline
    → Reads c (emit_at l (advance c) k (r ∷ []) c.line c.col)
unfolding emit_at advance
op-Reads l c k r rs e p q = record {
  moves = unfold advance in advance-Moves c;
  last_is = refl;
  line_is = refl;
  col_is = refl;
  spelled = λ _. rw (e, advance);
  shorter = unfold advance in advance-shorter c r rs e;
  ne_eof = p;
  ne_newline = q;
}

pub lex_slash_or_path-Reads :
    (l : Lexer) (c : Cursor) (rs : Runes)
    → c.rest ≡ b'/' ∷ rs
    → Reads c (lex_slash_or_path l c c.line c.col)
lex_slash_or_path-Reads l c rs e =
    elim (Bool-cases
      (ends_value l.last_kind && not (is_path l.last_kind) && not l.last_was_external_name)) [
        | inl slash ↦
            unfold lex_slash_or_path in
            rw slash (op-Reads l c Kind.slash b'/' rs e (λ p. cc) (λ p. cc))
        | inr bare ↦
            unfold lex_slash_or_path in
            rw bare (
              slice-Reads l c _ Kind.path (run_while-Moves is_path_char c)
                (run_while-shorter is_path_char c b'/' rs e
                  (unfold is_path_char is_letter is_digit in refl))
                (λ p. cc) (λ p. cc))
      ]
