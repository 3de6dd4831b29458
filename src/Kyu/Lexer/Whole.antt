-- ===== src/Kyu/Lexer/Whole.antt =====
-- The whole token stream of a text (kyu/lexer/lexer.go): it ends, its tokens stand where they say,
-- and its NEWLINE tokens stand behind values.
use sh.Prelude.{
  ℕ, zero, suc, ◌+◌, ◌*◌, ◌<◌, ◌≡◌, ◌≢◌, refl, ap, ◌∙◌, subst, ◌⊎◌, inl, inr, Bool, true, false,
  Option, some, List, [], ◌∷◌, ◌++◌, length, Runes, if◌then◌else◌, arith, Bool-cases, Option-cases,
}
use sh.Kyu.Token.{Kind, Token}
use sh.Kyu.Lexer.{Lexer, new, ends_value, next, is_eof, tokens}
use sh.Kyu.Lexer.Moves.{Moves, Moves-refl, Moves-trans, line_over, col_over}
use sh.Kyu.Lexer.Emits.{length-Moves}
use sh.Kyu.Lexer.Stream.{next-Emits}

pub is_eof-eq : (k : Kind) → is_eof k ≡ true → k ≡ Kind.eof
is_eof-eq Kind.eof h = refl
is_eof-eq _ h = cc

pub is_eof-ne : (k : Kind) → is_eof k ≡ false → k ≢ Kind.eof
is_eof-ne k h e = cc (ap is_eof e)

pub is_eof-false : (k : Kind) → k ≢ Kind.eof → is_eof k ≡ false
is_eof-false k h = elim (Bool-cases (is_eof k)) [ inl e ↦ absurd (h (is_eof-eq k e)) | inr e ↦ e ]

-- How many calls of `Next` are left, at most.
abbrev pub calls_left : Lexer → ℕ
calls_left l = 2 * length l.cursor.rest + (if ends_value l.last_kind then 1 else 0)

pub calls_left-next :
    (l : Lexer) → is_eof (next l).0.kind ≡ false → calls_left (next l).1 < calls_left l
calls_left-next l h =
    let e = next-Emits l in
    elim e.progress [
      | inl last ↦ absurd (is_eof-ne _ h last)
      | inr (inl newline) ↦
          let before : ends_value l.last_kind ≡ true = (e.asi.0 newline).0 in
          let after : ends_value (next l).1.last_kind ≡ false =
            rw (e.last_is ∙ newline) (unfold ends_value in refl) in
          rw (before, after) (omega (arith, length-Moves e.skipped, length-Moves e.read))
      | inr (inr shorter) ↦ ground arith
    ]

tokens_of_calls_left :
    (fuel : ℕ) (l : Lexer) → calls_left l < fuel → (ts : List Token) × (tokens fuel l ≡ some ts)
unfolding tokens
tokens_of_calls_left zero l h = absurd (omega arith)
tokens_of_calls_left (suc fuel) l h = elim (Bool-cases (is_eof (next l).0.kind)) [
  | inl last ↦ ((next l).0 ∷ [], rw (last, tokens))
  | inr more ↦
      let (ts, e) = tokens_of_calls_left fuel (next l).1 (omega (arith, calls_left-next l more)) in
      ((next l).0 ∷ ts, rw (more, tokens) (rw e))
]

-- The stream of every text ends: 2n + 1 calls of `Next` reach EOF in a text of n runes.
pub tokens_total :
    (src : Runes) (native : Option (Runes → Bool))
    → (ts : List Token) × (tokens (2 * length src + 1) (new src native) ≡ some ts)
tokens_total src native =
    tokens_of_calls_left (2 * length src + 1) (new src native) (unfold ends_value in omega arith)

-- One step of the stream.
pub tokens-cases :
    (fuel : ℕ) (l : Lexer) (ts : List Token)
    → tokens (suc fuel) l ≡ some ts
    → ((ts ≡ (next l).0 ∷ []) × ((next l).0.kind ≡ Kind.eof))
      ⊎ ((rest : List Token) × (ts ≡ (next l).0 ∷ rest)
          × ((next l).0.kind ≢ Kind.eof)
          × (tokens fuel (next l).1 ≡ some rest))
unfolding tokens
tokens-cases fuel l ts h = elim (Bool-cases (is_eof (next l).0.kind)) [
  | inl last ↦ inl (ground arith, is_eof-eq _ last)
  | inr more ↦ elim (Option-cases (tokens fuel (next l).1)) [
    | inl e ↦ absurd (ground arith)
    | inr (rest, e) ↦ inr (rest, ground arith, is_eof-ne _ more, e)
  ]
]

-- The token `t` stands in `src` where its line and column say, and is spelled there.
pub record Located (src : Runes) (t : Token) : Type 0 where
  pub before : Runes
  pub after : Runes
  pub splits : src ≡ before ++ after
  pub line_is : t.line ≡ line_over before 1
  pub col_is : t.col ≡ col_over before 1
  pub spelled :
      t.kind ≢ Kind.string → t.kind ≢ Kind.newline → (rest : Runes) × (after ≡ t.literal ++ rest)

abbrev pub All {ℓ} : {A : Type ℓ} → (A → Type 0) → List A → Type 0
All P [] = Unit
All P (x ∷ xs) = P x × All P xs

next-Located :
    (src : Runes) (native : Option (Runes → Bool)) (l : Lexer)
    → Moves (new src native).cursor l.cursor
    → Located src (next l).0
next-Located src native l m =
    let e = next-Emits l in
    let at_start = Moves-trans m e.skipped in
    record {
      before = at_start.read;
      after = e.start.rest;
      splits = at_start.splits;
      line_is = e.line_is ∙ at_start.line_is;
      col_is = e.col_is ∙ at_start.col_is;
      spelled = λ p q. ((next l).1.cursor.rest, e.spelled p q);
    }

tokens-Located_from :
    (src : Runes) (native : Option (Runes → Bool)) (fuel : ℕ) (l : Lexer) (ts : List Token)
    → Moves (new src native).cursor l.cursor
    → tokens fuel l ≡ some ts
    → All (Located src) ts
tokens-Located_from src native zero l ts m h = unfold tokens in cc
tokens-Located_from src native (suc fuel) l ts m h = elim (tokens-cases fuel l ts h) [
  | inl (e, _) ↦ rw e (next-Located src native l m, tt)
  | inr (rest, e, _, later) ↦
      let t = next-Emits l in
      rw e (
        next-Located src native l m,
        tokens-Located_from src native fuel (next l).1 rest
            (Moves-trans m (Moves-trans t.skipped t.read)) later,
      )
]

-- Every token of the stream has the line and the column of the place where it starts, counted
-- from 1 over the runes before it, and the text at that place begins with the token's literal,
-- unless the token is a STRING, whose escapes are resolved, or a NEWLINE.
pub tokens-Located :
    (src : Runes) (native : Option (Runes → Bool)) (fuel : ℕ) (ts : List Token)
    → tokens fuel (new src native) ≡ some ts
    → All (Located src) ts
tokens-Located src native fuel ts h =
    tokens-Located_from src native fuel (new src native) ts (Moves-refl _) h

-- NEWLINE only behind a value, `prev` being the kind before; EOF exactly at the end.
abbrev pub IsStream : Kind → List Token → Type 0
IsStream prev [] = ⊥
IsStream prev (t ∷ []) = t.kind ≡ Kind.eof
IsStream prev (t ∷ u ∷ ts) =
    (t.kind ≢ Kind.eof)
    × (t.kind ≡ Kind.newline → ends_value prev ≡ true)
    × IsStream t.kind (u ∷ ts)

IsStream-cons :
    (prev : Kind) (t : Token) (ts : List Token)
    → t.kind ≢ Kind.eof
    → (t.kind ≡ Kind.newline → ends_value prev ≡ true)
    → IsStream t.kind ts
    → IsStream prev (t ∷ ts)
IsStream-cons prev t [] p q h = absurd h
IsStream-cons prev t (u ∷ ts) p q h = (p, q, h)

tokens-IsStream_from :
    (fuel : ℕ) (l : Lexer) (ts : List Token) → tokens fuel l ≡ some ts → IsStream l.last_kind ts
tokens-IsStream_from zero l ts h = unfold tokens in cc
tokens-IsStream_from (suc fuel) l ts h = elim (tokens-cases fuel l ts h) [
  | inl (e, last) ↦ rw e last
  | inr (rest, e, more, later) ↦
      let t = next-Emits l in
      rw e (
        IsStream-cons l.last_kind (next l).0 rest more (λ p. (t.asi.0 p).0)
          (subst (λ k. IsStream k rest) t.last_is
            (tokens-IsStream_from fuel (next l).1 rest later)))
]

-- The stream of a text is not empty, ends with its only EOF, and every NEWLINE in it directly
-- follows a token that ends a value; so no two NEWLINEs are adjacent, and none comes first.
pub tokens-IsStream :
    (src : Runes) (native : Option (Runes → Bool)) (fuel : ℕ) (ts : List Token)
    → tokens fuel (new src native) ≡ some ts
    → IsStream Kind.illegal ts
tokens-IsStream src native fuel ts h = tokens-IsStream_from fuel (new src native) ts h
