-- ===== src/Kyu/Brackets.antt =====
-- `BracketDepth` of kyu/parser/parser.go: whether a text is complete enough to be parsed. A nil
-- NativeProgramLookup, as `lexer.New` leaves it.
use native.Mathlib.Nat.{add-zero, zero-add, add_assoc}
use sh.Prelude.{
  ℕ, zero, suc, ◌+◌, ◌*◌, ◌≡◌, ◌≢◌, ◌∙◌, refl, ap, inl, inr, Bool, true, false, Option, none, some,
  List, [], ◌∷◌, length, Runes, if◌then◌else◌, arith,
}
use sh.Prelude.Int.{ℤ, pos, negsuc, ◌+ℤ◌, sub_ℕ}
use sh.Kyu.Token.{Kind, Token}
use sh.Kyu.Lexer.{Lexer, new, next, is_eof, tokens}
use sh.Kyu.Lexer.Whole.{tokens_total, tokens-cases, is_eof-false}

abbrev pub is_open : Kind → Bool
is_open Kind.lparen = true
is_open Kind.lbrace = true
is_open Kind.lbracket = true
is_open _ = false

abbrev pub is_close : Kind → Bool
is_close Kind.rparen = true
is_close Kind.rbrace = true
is_close Kind.rbracket = true
is_close _ = false

-- `depth++` and `depth--`
unfoldable pub depth_after : Kind → ℤ → ℤ
unfolding ◌+ℤ◌
depth_after k depth =
    if is_open k then depth +ℤ pos 1 else if is_close k then depth +ℤ negsuc 0 else depth

-- The loop, on fuel; `none` means that the fuel ran out.
depth_loop : ℕ → Lexer → ℤ → Option ℤ
unfolding depth_after
depth_loop zero l depth = none
depth_loop (suc fuel) l depth =
    let (tok, l') = next l in
    let more = depth_loop fuel l' (depth_after tok.kind depth) in
    if is_eof tok.kind then some depth else more

unfoldable pub bracket_depth : ℕ → Runes → Option ℤ
unfolding depth_loop
bracket_depth fuel src = depth_loop fuel (new src none) (pos 0)

-- How many tokens of a stream pass a test.
abbrev pub count_kinds : (Kind → Bool) → List Token → ℕ
count_kinds test [] = 0
count_kinds test (t ∷ ts) = (if test t.kind then 1 else 0) + count_kinds test ts

depth_step :
    (k : Kind) (o c : ℕ)
    → depth_after k (sub_ℕ o c)
      ≡ sub_ℕ (o + (if is_open k then 1 else 0)) (c + (if is_close k then 1 else 0))
unfolding depth_after
depth_step k o c = ground arith

-- One round of the loop, on a token that is not EOF.
depth_loop-suc :
    (fuel : ℕ) (l : Lexer) (o c : ℕ)
    → (next l).0.kind ≢ Kind.eof
    → depth_loop (suc fuel) l (sub_ℕ o c)
      ≡ depth_loop fuel (next l).1 (
          sub_ℕ
            (o + (if is_open (next l).0.kind then 1 else 0))
            (c + (if is_close (next l).0.kind then 1 else 0)))
unfolding depth_loop
depth_loop-suc fuel l o c more = rw (is_eof-false (next l).0.kind more, depth_loop) (rw depth_step)

depth_loop-tokens :
    (fuel : ℕ) (l : Lexer) (o c : ℕ) (ts : List Token)
    → tokens fuel l ≡ some ts
    → depth_loop fuel l (sub_ℕ o c)
      ≡ some (sub_ℕ (o + count_kinds is_open ts) (c + count_kinds is_close ts))
depth_loop-tokens zero l o c ts h = unfold tokens in cc
depth_loop-tokens (suc fuel) l o c ts h = elim (tokens-cases fuel l ts h) [
  | inl (e, last) ↦ unfold depth_loop in rw (e, last, depth_loop) (simp add-zero)
  | inr (rest, e, more, later) ↦
      let ih =
        depth_loop-tokens fuel (next l).1 (o + (if is_open (next l).0.kind then 1 else 0))
          (c + (if is_close (next l).0.kind then 1 else 0)) rest later in
      rw e (depth_loop-suc fuel l o c more ∙ ih ∙ simp add_assoc)
]

abbrev pub is_lparen : Kind → Bool
is_lparen Kind.lparen = true
is_lparen _ = false

abbrev pub is_lbrace : Kind → Bool
is_lbrace Kind.lbrace = true
is_lbrace _ = false

abbrev pub is_lbracket : Kind → Bool
is_lbracket Kind.lbracket = true
is_lbracket _ = false

abbrev pub is_rparen : Kind → Bool
is_rparen Kind.rparen = true
is_rparen _ = false

abbrev pub is_rbrace : Kind → Bool
is_rbrace Kind.rbrace = true
is_rbrace _ = false

abbrev pub is_rbracket : Kind → Bool
is_rbracket Kind.rbracket = true
is_rbracket _ = false

-- The three opening brackets of a stream, and the three closing ones.
abbrev pub opened : List Token → ℕ
opened ts = count_kinds is_lparen ts + count_kinds is_lbrace ts + count_kinds is_lbracket ts

abbrev pub closed : List Token → ℕ
closed ts = count_kinds is_rparen ts + count_kinds is_rbrace ts + count_kinds is_rbracket ts

abbrev worth : Bool → ℕ
worth b = if b then 1 else 0

open_kinds :
    (k : Kind)
    → worth (is_open k) ≡ worth (is_lparen k) + worth (is_lbrace k) + worth (is_lbracket k)
open_kinds Kind.lparen = refl
open_kinds _ = refl

close_kinds :
    (k : Kind)
    → worth (is_close k) ≡ worth (is_rparen k) + worth (is_rbrace k) + worth (is_rbracket k)
close_kinds Kind.rparen = refl
close_kinds _ = refl

count_kinds-opened : (ts : List Token) → count_kinds is_open ts ≡ opened ts
count_kinds-opened [] = refl
count_kinds-opened (t ∷ ts) = omega (arith, open_kinds t.kind, count_kinds-opened ts)

count_kinds-closed : (ts : List Token) → count_kinds is_close ts ≡ closed ts
count_kinds-closed [] = refl
count_kinds-closed (t ∷ ts) = omega (arith, close_kinds t.kind, count_kinds-closed ts)

-- `BracketDepth` returns on every text, with 2n + 1 calls of `Next` for a text of n runes, and its
-- result is the number of the tokens (, { and [ of the text's stream less that of the tokens ), } and ].
pub bracket_depth-tokens :
    (src : Runes)
    → (ts : List Token) × (tokens (2 * length src + 1) (new src none) ≡ some ts)
      × (bracket_depth (2 * length src + 1) src ≡ some (sub_ℕ (opened ts) (closed ts)))
unfolding bracket_depth
bracket_depth-tokens src =
    let (ts, e) = tokens_total src none in
    let counted = depth_loop-tokens (2 * length src + 1) (new src none) 0 0 ts e ∙ simp zero-add in
    let more = ap (λ o. some (sub_ℕ o (count_kinds is_close ts))) (count_kinds-opened ts) in
    let less = ap (λ c. some (sub_ℕ (opened ts) c)) (count_kinds-closed ts) in
    (ts, e, counted ∙ more ∙ less)
