-- ===== src/Kyu/Lexer/Scan.antt =====
-- The cursor of kyu/lexer/lexer.go and what is read with it alone: runes, spaces and comments, numbers,
-- names and the text of a string. `rest` is src[pos:]; `pos` itself, and with it every slice
-- src[start:pos], is recovered from the unread suffix (`between`).
use sh.Prelude.{
  ℕ, zero, suc, ◌+◌, ◌-◌, Bool, true, false, not, ◌&&◌, ◌||◌, Option, none, some, List, [], ◌∷◌,
  length, take, Runes, codes, leb, ◌==◌, if◌then◌else◌,
}

pub record Cursor : Type 0 where
  pub rest : Runes
  pub line : ℕ
  pub col : ℕ

-- `peek` on src[pos:]; 0 at the end
abbrev pub peek : Runes → ℕ
peek [] = 0
peek (r ∷ rs) = r

-- `peekAt(1)`
abbrev pub peek_at_one : Runes → ℕ
peek_at_one [] = 0
peek_at_one (r ∷ rs) = peek rs

-- The line and the column behind the rune `r`.
abbrev pub line_after : ℕ → ℕ → ℕ
line_after r line = if r == b'\n' then line + 1 else line

abbrev pub col_after : ℕ → ℕ → ℕ
col_after r col = if r == b'\n' then 1 else col + 1

-- `advance`, for its effect. Go panics at the end of the source, where no caller calls it.
unfoldable pub advance : Cursor → Cursor
advance c = elim c.rest [
  | [] ↦ c
  | r ∷ rs ↦ record { rest = rs; line = line_after r c.line; col = col_after r c.col }
]

abbrev pub advance_by : ℕ → Cursor → Cursor
advance_by zero c = c
advance_by (suc n) c = advance_by n (advance c)

unfoldable pub is_digit : ℕ → Bool
is_digit r = leb b'0' r && leb r b'9'

unfoldable pub is_letter : ℕ → Bool
is_letter r = r == b'_' || (leb b'a' r && leb r b'z') || (leb b'A' r && leb r b'Z')

abbrev pub is_word : ℕ → Bool
is_word r = is_letter r || is_digit r

unfoldable pub is_path_char : ℕ → Bool
is_path_char r = is_letter r || is_digit r || r == b'/' || r == b'.' || r == b'-' || r == b'_'

-- `for test(l.peek()) { l.advance() }`, for a test that fails on 0; the runes are those of src[pos:].
unfoldable pub skip_while : (ℕ → Bool) → Runes → ℕ → ℕ → Cursor
skip_while test [] line col = record { rest = []; line = line; col = col }
skip_while test (r ∷ rs) line col =
    let more = skip_while test rs (line_after r line) (col_after r col) in
    if test r then more else record { rest = r ∷ rs; line = line; col = col }

abbrev pub run_while : (ℕ → Bool) → Cursor → Cursor
run_while test c = skip_while test c.rest c.line c.col

-- `src[start:pos]`, for the suffixes that are unread at `start` and at `pos`
unfoldable pub between : Runes → Runes → Runes
between start rest = take (length start - length rest) start

-- The scan of `skipSpaceAndComments`; `in_comment` is its inner loop, up to the newline.
unfoldable pub skip_space : Bool → Bool → Runes → ℕ → ℕ → Bool × Cursor
skip_space in_comment seen [] line col = (seen, record { rest = []; line = line; col = col })
skip_space in_comment seen (r ∷ rs) line col =
    let at_newline = r == b'\n' in
    let more =
      skip_space (not at_newline && (in_comment || r == b'#')) (seen || at_newline) rs
        (line_after r line) (col_after r col) in
    if in_comment || at_newline || r == b' ' || r == b'\t' || r == b'\r' || r == b'#'
    then more
    else (seen, record { rest = r ∷ rs; line = line; col = col })

abbrev pub skip_space_and_comments : Cursor → Bool × Cursor
skip_space_and_comments c = skip_space false false c.rest c.line c.col

-- What is left of a text behind a prefix.
unfoldable pub strip_prefix : Runes → Runes → Option Runes
strip_prefix [] rs = some rs
strip_prefix (u ∷ us) [] = none
strip_prefix (u ∷ us) (r ∷ rs) = if u == r then strip_prefix us rs else none

-- "µs" is spelled with U+00B5.
abbrev pub duration_units : List Runes
duration_units =
    codes "ns"
    ∷ codes "us"
    ∷ (181 ∷ codes "s")
    ∷ codes "ms"
    ∷ codes "s"
    ∷ codes "m"
    ∷ codes "h"
    ∷ []

-- The loop of `matchDurationUnit`: the cursor behind the unit.
unfoldable pub match_unit : List Runes → Cursor → Option Cursor
unfolding strip_prefix
match_unit [] c = none
match_unit (unit ∷ units) c = elim (strip_prefix unit c.rest) [
  | none ↦ match_unit units c
  | some after ↦
      let others = match_unit units c in
      if is_letter (peek after) then others else some (advance_by (length unit) c)
]

abbrev pub match_duration_unit : Cursor → Option Cursor
match_duration_unit = match_unit duration_units

-- The cursor behind the digits of a number, and whether it has a fraction.
unfoldable pub number_end : Cursor → Bool × Cursor
number_end c =
    let d = run_while is_digit c in
    if peek d.rest == b'.' && is_digit (peek_at_one d.rest)
    then (true, run_while is_digit (advance d))
    else (false, d)

abbrev pub is_name_char : ℕ → Bool
is_name_char r = is_letter r || is_digit r || r == b'-'

-- The scan of `matchesDigitLeadingNativeName`: the name, and whether it has a letter.
unfoldable pub native_name : Runes → Runes × Bool
native_name [] = ([], false)
native_name (r ∷ rs) =
    let (name, letter) = native_name rs in
    if is_word r then (r ∷ name, is_letter r || letter) else ([], false)

unfoldable pub matches_digit_leading_native_name : (Runes → Bool) → Runes → Bool
unfolding native_name
matches_digit_leading_native_name native rs =
    let (name, letter) = native_name rs in letter && native name

-- the rune that an escape stands for
unfoldable pub unescape : ℕ → ℕ
unescape esc =
    if esc == b'n' then b'\n' else if esc == b't' then b'\t' else if esc == b'r' then b'\r' else esc

-- The loop of `lexString`, and its closing quote. `escaped` says that a backslash was just read.
unfoldable pub string_body : Bool → Runes → ℕ → ℕ → Runes × Cursor
unfolding unescape
string_body escaped [] line col =
    (if escaped then b'\\' ∷ [] else [], record { rest = []; line = line; col = col })
string_body escaped (r ∷ rs) line col =
    let backslash = not escaped && r == b'\\' in
    let (text, e) = string_body backslash rs (line_after r line) (col_after r col) in
    if escaped
    then (unescape r ∷ text, e)
    else if r == 34
    then ([], record { rest = rs; line = line_after r line; col = col_after r col })
    else if backslash
    then (text, e)
    else (r ∷ text, e)
