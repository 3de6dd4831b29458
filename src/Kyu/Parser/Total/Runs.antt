-- ===== src/Kyu/Parser/Total/Runs.antt =====
-- How far the parser of kyu/parser/parser.go is from the end of its text, and calls that return.
use sh.Prelude.{
  ℕ, ◌+◌, ◌-◌, ◌*◌, ◌≤◌, ◌≡◌, refl, ◌∙◌, inl, inr, Bool, true, false, ◌&&◌, ◌||◌, Option, some,
  List, [], ◌∷◌, length, Runes, if◌then◌else◌, arith, Bool-cases,
}
use sh.Kyu.Token.{Kind, Token}
use sh.Kyu.Lexer.{
  Cursor, Lexer, next, ends_value, is_eof, lex_token, emit_at, skip_space_and_comments,
}
use sh.Kyu.Lexer.Emits.{lex_token-Reads}
use sh.Kyu.Lexer.Stream.{next-Emits}
use sh.Kyu.Lexer.Whole.{calls_left, calls_left-next, is_eof-eq}
use sh.Kyu.Parser.State.{
  Parser, ParseError, next_token, unread_parser, new_parser, expect_peek_or_cur, Parse, and_then,
}

lex_token-eof :
    (l : Lexer) (c : Cursor) (rs : Runes)
    → c.rest ≡ rs
    → is_eof (lex_token l c rs).0.kind ≡ true
    → (lex_token l c rs).1.cursor.rest ≡ []
lex_token-eof l c [] e h = unfold lex_token emit_at in e
lex_token-eof l c (r ∷ rs) e h = absurd ((lex_token-Reads l c r rs e).ne_eof (is_eof-eq _ h))

next-eof : (l : Lexer) → is_eof (next l).0.kind ≡ true → (next l).1.cursor.rest ≡ []
unfolding next emit_at
next-eof l =
    let skipped = skip_space_and_comments l.cursor in
    elim (Bool-cases (skipped.0 && ends_value l.last_kind)) [
      | inl newline ↦ rw newline (λ h. cc)
      | inr other ↦ rw other (λ h. lex_token-eof l skipped.1 skipped.1.rest refl h)
    ]

calls_left-eof : (l : Lexer) → is_eof (next l).0.kind ≡ true → calls_left (next l).1 ≡ 0
calls_left-eof l h =
    let kind = (next-Emits l).last_is ∙ is_eof-eq _ h in
    let ended : ends_value (next l).1.last_kind ≡ false = rw kind (unfold ends_value in refl) in
    rw (next-eof l h, ended) refl

abbrev alive : Token → ℕ
alive t = if is_eof t.kind then 0 else 1

-- The tokens from the current one on, at most.
unfoldable pub left : Parser → ℕ
left p = calls_left p.lexer + alive p.peek + alive p.cur

-- Behind EOF there is only EOF.
unfoldable pub IsOk : Parser → Type 0
IsOk p =
    (is_eof p.cur.kind ≡ true → is_eof p.peek.kind ≡ true)
    × (is_eof p.peek.kind ≡ true → calls_left p.lexer ≡ 0)

pub next_token-IsOk : (p : Parser) → IsOk p → IsOk (next_token p)
unfolding next_token IsOk
next_token-IsOk p (ends, drained) = (
  λ e. elim (Bool-cases (is_eof (next p.lexer).0.kind)) [
    | inl f ↦ f
    | inr f ↦ absurd (omega (arith, calls_left-next p.lexer f, drained e))
  ],
  λ e. calls_left-eof p.lexer e,
)

next_calls : (l : Lexer) → calls_left (next l).1 + alive (next l).0 ≤ calls_left l
next_calls l = elim (Bool-cases (is_eof (next l).0.kind)) [
  | inl e ↦ rw e (omega (arith, calls_left-eof l e))
  | inr e ↦ rw e (omega (arith, calls_left-next l e))
]

pub or_right : (b : Bool) {c : Bool} → (b || c) ≡ false → c ≡ false
or_right true h = cc
or_right false h = h

-- A step forward leaves fewer tokens.
pub next_token-left : (p : Parser) → IsOk p → left (next_token p) ≤ left p - 1
unfolding next_token left IsOk
next_token-left p (ends, drained) = elim (Bool-cases (is_eof p.cur.kind)) [
  | inl e ↦ rw (e, ends e) (omega (arith, next_calls p.lexer, drained (ends e)))
  | inr e ↦ rw e (omega (arith, next_calls p.lexer))
]

pub cur_left : (p : Parser) → is_eof p.cur.kind ≡ false → 1 ≤ left p
unfolding left
cur_left p e = rw e (omega arith)

pub peek_left : (p : Parser) → is_eof p.peek.kind ≡ false → 1 ≤ left p
unfolding left
peek_left p e = rw e (omega arith)

-- An error changes no token.
pub errs-left : (p : Parser) (errs : List ParseError) → left (record p { errs = errs }) ≡ left p
unfolding left
errs-left p errs = refl

pub errs-IsOk : (p : Parser) (errs : List ParseError) → IsOk p → IsOk (record p { errs = errs })
unfolding IsOk
errs-IsOk p errs h = h

-- The call returns, with at most `b` tokens left.
abbrev pub Returns : {A : Type 0} → ℕ → Option (A × Parser) → Type 0
Returns {A} b r = (a : A) × (q : Parser) × (r ≡ some (a, q)) × IsOk q × (left q ≤ b)

-- One call behind another.
pub then-Returns :
    {A B : Type 0} {f : A → Parse B} {m : Option (A × Parser)} {b c : ℕ}
    → Returns b m
    → ((a : A) (q : Parser) → IsOk q → left q ≤ b → Returns c (f a q))
    → Returns c (and_then f m)
then-Returns (a, q, e, ok, le) k = rw e (k a q ok le)

-- A test, for both of its results.
pub if-Returns :
    {A : Type 0} {p : Parser} {c : ℕ} (x y : Parse A) (b : Bool)
    → (b ≡ true → Returns c (x p))
    → (b ≡ false → Returns c (y p))
    → Returns c ((if b then x else y) p)
if-Returns x y true on_true on_false = on_true refl
if-Returns x y false on_true on_false = on_false refl

pub weaken : {A : Type 0} {r : Option (A × Parser)} {b c : ℕ} → Returns b r → b ≤ c → Returns c r
weaken (a, q, e, ok, le) h = (a, q, e, ok, omega (arith, le, h))

pub expect-Returns :
    (k : Kind) (is : Kind → Bool) (p : Parser)
    → IsOk p
    → Returns (left p) (expect_peek_or_cur k is p)
expect-Returns k is p ok = elim (Bool-cases (is p.cur.kind)) [
  | inl e ↦ rw e (true, p, refl, ok, omega arith)
  | inr e ↦ elim (Bool-cases (is p.peek.kind)) [
    | inl f ↦
        rw (e, f)
          (true, next_token p, refl, next_token-IsOk p ok, omega (arith, next_token-left p ok))
    | inr f ↦ rw (e, f) (false, _, refl, errs-IsOk p _ ok, omega (arith, errs-left p _))
  ]
]

unread-IsOk : (src : Runes) (native : Option (Runes → Bool)) → IsOk (unread_parser src native)
unfolding IsOk
unread-IsOk src native = (λ e. cc, λ e. cc)

unread-next :
    (src : Runes) (native : Option (Runes → Bool)) → IsOk (next_token (unread_parser src native))
unread-next src native = next_token-IsOk (unread_parser src native) (unread-IsOk src native)

pub new_parser-IsOk : (src : Runes) (native : Option (Runes → Bool)) → IsOk (new_parser src native)
unfolding new_parser
new_parser-IsOk src native =
    next_token-IsOk (next_token (unread_parser src native)) (unread-next src native)

pub new_parser-left :
    (src : Runes) (native : Option (Runes → Bool)) → left (new_parser src native) ≤ 2 * length src
unfolding new_parser
new_parser-left src native =
    let p = unread_parser src native in
    let start : left p ≡ 2 * length src + 2 = unfold left ends_value in omega arith in
    omega (
      arith,
      start,
      next_token-left p (unread-IsOk src native),
      next_token-left (next_token p) (unread-next src native),
    )
