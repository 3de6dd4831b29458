-- ===== src/Kyu/Lexer/Moves.antt =====
-- How the cursor of kyu/lexer/lexer.go moves: over the runes that are read, counting lines and columns.
use sh.Prelude.{
  ℕ, zero, suc, ◌-◌, ◌≡◌, refl, sym, ap, ◌∙◌, inl, inr, Bool, true, false, not, ◌&&◌, ◌||◌, some,
  List, [], ◌∷◌, ◌++◌, append_assoc, length, length-append, take-length_append, Runes, ◌==◌,
  if◌then◌else◌, arith, Bool-cases, Option-cases, subst,
}
use sh.Kyu.Lexer.{
  Cursor, line_after, col_after, advance, advance_by, skip_while, run_while, between, skip_space,
  skip_space_and_comments, match_unit, number_end, string_body, strip_prefix, peek, is_digit,
  is_letter,
}

-- The line and the column behind a text.
abbrev pub line_over : Runes → ℕ → ℕ
line_over [] line = line
line_over (r ∷ rs) line = line_over rs (line_after r line)

abbrev pub col_over : Runes → ℕ → ℕ
col_over [] col = col
col_over (r ∷ rs) col = col_over rs (col_after r col)

-- `d` is the cursor `c` after the runes `read`.
pub record Moves (c d : Cursor) : Type 0 where
  pub read : Runes
  pub splits : c.rest ≡ read ++ d.rest
  pub line_is : d.line ≡ line_over read c.line
  pub col_is : d.col ≡ col_over read c.col

line_over-append : (xs ys : Runes) (n : ℕ) → line_over (xs ++ ys) n ≡ line_over ys (line_over xs n)
line_over-append [] ys n = refl
line_over-append (x ∷ xs) ys n = line_over-append xs ys (line_after x n)

col_over-append : (xs ys : Runes) (n : ℕ) → col_over (xs ++ ys) n ≡ col_over ys (col_over xs n)
col_over-append [] ys n = refl
col_over-append (x ∷ xs) ys n = col_over-append xs ys (col_after x n)

pub Moves-refl : (c : Cursor) → Moves c c
Moves-refl c = record { read = []; splits = refl; line_is = refl; col_is = refl }

pub Moves-trans : {c d e : Cursor} → Moves c d → Moves d e → Moves c e
Moves-trans {c} {d} {e} m n = record {
  read = m.read ++ n.read;
  splits =
      m.splits ∙ ap (λ (t : Runes). m.read ++ t) n.splits ∙ sym (append_assoc m.read n.read e.rest);
  line_is =
      n.line_is ∙ ap (line_over n.read) m.line_is ∙ sym (line_over-append m.read n.read c.line);
  col_is = n.col_is ∙ ap (col_over n.read) m.col_is ∙ sym (col_over-append m.read n.read c.col);
}

-- One more rune in front.
Moves-cons :
    (r : ℕ) (rs : Runes) (line col : ℕ) {d : Cursor}
    → Moves (record { rest = rs; line = line_after r line; col = col_after r col }) d
    → Moves (record { rest = r ∷ rs; line = line; col = col }) d
Moves-cons r rs line col m = record {
  read = r ∷ m.read;
  splits = ap (◌∷◌ r) m.splits;
  line_is = m.line_is;
  col_is = m.col_is;
}

advance_cons :
    (rs : Runes) (line col : ℕ)
    → Moves
        (record { rest = rs; line = line; col = col })
        (advance (record { rest = rs; line = line; col = col }))
unfolding advance
advance_cons [] line col = Moves-refl _
advance_cons (r ∷ rs) line col = Moves-cons r rs line col (Moves-refl _)

pub advance-Moves : (c : Cursor) → Moves c (advance c)
advance-Moves c = advance_cons c.rest c.line c.col

pub advance_by-Moves : (n : ℕ) (c : Cursor) → Moves c (advance_by n c)
advance_by-Moves zero c = Moves-refl c
advance_by-Moves (suc n) c = Moves-trans (advance-Moves c) (advance_by-Moves n (advance c))

skip_while-Moves :
    (test : ℕ → Bool) (rs : Runes) (line col : ℕ)
    → Moves (record { rest = rs; line = line; col = col }) (skip_while test rs line col)
unfolding skip_while
skip_while-Moves test [] line col = Moves-refl _
skip_while-Moves test (r ∷ rs) line col = elim (Bool-cases (test r)) [
  | inl more ↦
      rw more
        (Moves-cons r rs line col (skip_while-Moves test rs (line_after r line) (col_after r col)))
  | inr stop ↦ rw stop (Moves-refl _)
]

pub run_while-Moves : (test : ℕ → Bool) (c : Cursor) → Moves c (run_while test c)
run_while-Moves test c = skip_while-Moves test c.rest c.line c.col

if-Moves {ℓ} :
    {A : Type ℓ} (b : Bool) (p q : A × Cursor) {c : Cursor}
    → Moves c p.1
    → Moves c q.1
    → Moves c (if b then p else q).1
if-Moves true p q m n = m
if-Moves false p q m n = n

skip_space-Moves :
    (in_comment seen : Bool) (rs : Runes) (line col : ℕ)
    → Moves
        (record { rest = rs; line = line; col = col })
        (skip_space in_comment seen rs line col).1
unfolding skip_space
skip_space-Moves in_comment seen [] line col = Moves-refl _
skip_space-Moves in_comment seen (r ∷ rs) line col =
    if-Moves _ _ _
      (Moves-cons r rs line col (
        skip_space-Moves (not (r == b'\n') && (in_comment || r == b'#')) (seen || r == b'\n') rs
          (line_after r line) (col_after r col)))
      (Moves-refl _)

pub skip_space_and_comments-Moves : (c : Cursor) → Moves c (skip_space_and_comments c).1
skip_space_and_comments-Moves c = skip_space-Moves false false c.rest c.line c.col

pub match_unit-Moves :
    (units : List Runes) (c : Cursor) {d : Cursor} → match_unit units c ≡ some d → Moves c d
unfolding match_unit
match_unit-Moves [] c h = cc
match_unit-Moves (u ∷ units) c {d} h = elim (Option-cases (strip_prefix u c.rest)) [
  | inl e ↦ match_unit-Moves units c (rw (e, match_unit) at h)
  | inr (after, e) ↦ elim (Bool-cases (is_letter (peek after))) [
    | inl longer ↦ match_unit-Moves units c (ground arith)
    | inr whole ↦
        let at_end : advance_by (length u) c ≡ d = ground arith in
        subst (Moves c) at_end (advance_by-Moves (length u) c)
  ]
]

pub between-append : (read rest : Runes) → between (read ++ rest) rest ≡ read
unfolding between
between-append read rest =
    let measured : length (read ++ rest) - length rest ≡ length read =
      omega (arith, length-append read rest) in
    rw measured (take-length_append read rest)

-- Where the cursor moves from `c` to `d`, src[start:pos] is what was read.
pub between-Moves : {c d : Cursor} → (m : Moves c d) → c.rest ≡ between c.rest d.rest ++ d.rest
between-Moves {c} {d} m =
    m.splits
    ∙ ap (λ (t : Runes). t ++ d.rest) (sym (between-append m.read d.rest))
    ∙ ap (λ (t : Runes). between t d.rest ++ d.rest) (sym m.splits)

string_body-Moves :
    (escaped : Bool) (rs : Runes) (line col : ℕ)
    → Moves (record { rest = rs; line = line; col = col }) (string_body escaped rs line col).1
unfolding string_body
string_body-Moves escaped [] line col = Moves-refl _
string_body-Moves escaped (r ∷ rs) line col =
    let later =
      Moves-cons r rs line col
        (string_body-Moves (not escaped && r == b'\\') rs (line_after r line) (col_after r col)) in
    if-Moves escaped _ _ later (
      if-Moves (r == 34) _ _ (Moves-cons r rs line col (Moves-refl _))
        (if-Moves (not escaped && r == b'\\') _ _ later later))

pub string_end-Moves : (c : Cursor) → Moves c (string_body false c.rest c.line c.col).1
string_end-Moves c = string_body-Moves false c.rest c.line c.col

pub number_end-behind : (c : Cursor) → Moves (run_while is_digit c) (number_end c).1
unfolding number_end
number_end-behind c =
    if-Moves _ _ _ (Moves-trans (advance-Moves _) (run_while-Moves is_digit _)) (Moves-refl _)

pub number_end-Moves : (c : Cursor) → Moves c (number_end c).1
number_end-Moves c = Moves-trans (run_while-Moves is_digit c) (number_end-behind c)
