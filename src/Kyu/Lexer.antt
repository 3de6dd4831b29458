-- ===== src/Kyu/Lexer.antt =====
-- kyu/lexer/lexer.go: the state of the lexer and `Next`, with the methods that it calls.
mod Scan
pub mod Moves
pub mod Emits
pub mod Stream
pub mod Whole
pub mod Strings
use mathlib.Core.Option
unfoldable pub use Scan.*
use sh.Prelude.{
  ℕ, zero, suc, ◌+◌, ◌-◌, Bool, true, false, not, ◌&&◌, ◌||◌, Option, none, some, List, [], ◌∷◌,
  length, take, Runes, codes, leb, ◌==◌, if◌then◌else◌,
}
use sh.Kyu.Token.{Kind, Token, lookup_ident}

pub record Lexer : Type 0 where
  pub cursor : Cursor
  pub last_kind : Kind
  pub last_was_external_name : Bool
  -- `nil` is `none`
  pub native_program_lookup : Option (Runes → Bool)

abbrev pub new : Runes → Option (Runes → Bool) → Lexer
new src native = record {
  cursor = record { rest = src; line = 1; col = 1 };
  last_kind = Kind.illegal;
  last_was_external_name = false;
  native_program_lookup = native;
}

unfoldable pub ends_value : Kind → Bool
ends_value Kind.ident = true
ends_value Kind.int = true
ends_value Kind.float = true
ends_value Kind.string = true
ends_value Kind.duration = true
ends_value Kind.path = true
ends_value Kind.true_word = true
ends_value Kind.false_word = true
ends_value Kind.null = true
ends_value Kind.rparen = true
ends_value Kind.rbrace = true
ends_value Kind.rbracket = true
ends_value _ = false

abbrev pub is_percent : Kind → Bool
is_percent Kind.percent = true
is_percent _ = false

abbrev pub is_path : Kind → Bool
is_path Kind.path = true
is_path _ = false

-- `emitAt`, once the cursor has moved to `c`
unfoldable pub emit_at : Lexer → Cursor → Kind → Runes → ℕ → ℕ → Token × Lexer
emit_at l c k lit line col = (
  record { kind = k; literal = lit; line = line; col = col },
  record l { cursor = c; last_kind = k; last_was_external_name = false },
)

-- `emit`
abbrev pub emit : Lexer → Cursor → Kind → Runes → Token × Lexer
emit l c k lit = emit_at l c k lit c.line c.col

-- `l.lastWasExternalName = true` behind an emit
abbrev pub mark_external : Bool → Token × Lexer → Token × Lexer
mark_external named (tok, l) =
    (tok, record l { last_was_external_name = named || l.last_was_external_name })

unfoldable pub lex_number : Lexer → Cursor → ℕ → ℕ → Token × Lexer
unfolding number_end
lex_number l c line col =
    let (is_float, e) = number_end c in
    elim (match_duration_unit e) [
      | some u ↦ emit_at l u Kind.duration (between c.rest u.rest) line col
      | none ↦
          emit_at l e (if is_float then Kind.float else Kind.int) (between c.rest e.rest) line col
    ]

unfoldable pub lex_external_name : Lexer → Cursor → ℕ → ℕ → Token × Lexer
lex_external_name l c line col =
    let e = run_while is_name_char c in
    mark_external true (emit_at l e Kind.ident (between c.rest e.rest) line col)

abbrev pub asks : Option (Runes → Bool) → Runes → Bool
asks none name = false
asks (some native) name = native name

abbrev pub is_ident : Kind → Bool
is_ident Kind.ident = true
is_ident _ = false

unfoldable pub lex_ident : Lexer → Cursor → ℕ → ℕ → Token × Lexer
lex_ident l c line col =
    let e = run_while is_word c in
    let lit = between c.rest e.rest in
    let kind = lookup_ident lit in
    mark_external (is_ident kind && asks l.native_program_lookup lit)
      (emit_at l e kind lit line col)

unfoldable pub lex_string : Lexer → Cursor → ℕ → ℕ → Token × Lexer
lex_string l c line col =
    let opened = advance c in
    let (text, e) = string_body false opened.rest opened.line opened.col in
    emit_at l e Kind.string text line col

unfoldable pub lex_slash_or_path : Lexer → Cursor → ℕ → ℕ → Token × Lexer
lex_slash_or_path l c line col =
    if ends_value l.last_kind && not (is_path l.last_kind) && not l.last_was_external_name
    then emit_at l (advance c) Kind.slash (codes "/") line col
    else let e = run_while is_path_char c in emit_at l e Kind.path (between c.rest e.rest) line col

-- A token of one rune, or of two where the second one is `next`.
pub data Op : Type 0 where
  one : Kind → Runes → Op
  two : Kind → Runes → Op

-- The last `switch` of `Next`, on the rune `r` that was read and the one behind it.
unfoldable pub operator : Kind → ℕ → ℕ → Op
operator last r next =
    if r == b'='
    then (if next == b'=' then two Kind.eq (codes "==") else one Kind.assign (codes "="))
    else if r == b':'
    then (if next == b'=' then two Kind.define (codes ":=") else one Kind.colon (codes ":"))
    else if r == b'|'
    then (if next == b'|' then two Kind.or (codes "||") else one Kind.pipe (codes "|"))
    else if r == b'%'
    then (if not (ends_value last) && (is_letter next || is_digit next || next == b'(')
        then one Kind.percent (codes "%")
        else one Kind.modulo (codes "%"))
    else if r == b'+'
    then one Kind.plus (codes "+")
    else if r == b'-'
    then one Kind.minus (codes "-")
    else if r == b'*'
    then one Kind.star (codes "*")
    else if r == b'!'
    then (if next == b'=' then two Kind.neq (codes "!=") else one Kind.not (codes "!"))
    else if r == b'<'
    then (if next == b'=' then two Kind.le (codes "<=") else one Kind.lt (codes "<"))
    else if r == b'>'
    then (if next == b'=' then two Kind.ge (codes ">=") else one Kind.gt (codes ">"))
    else if r == b'&'
    then (if next == b'&' then two Kind.and (codes "&&") else one Kind.amp (codes "&"))
    else if r == b'@'
    then one Kind.at (codes "@")
    else if r == b'?'
    then one Kind.question (codes "?")
    else if r == b'.'
    then one Kind.dot (codes ".")
    else if r == b','
    then one Kind.comma (codes ",")
    else if r == b';'
    then one Kind.semi (codes ";")
    else if r == b'('
    then one Kind.lparen (codes "(")
    else if r == b')'
    then one Kind.rparen (codes ")")
    else if r == b'{'
    then one Kind.lbrace (codes "{")
    else if r == b'}'
    then one Kind.rbrace (codes "}")
    else if r == b'['
    then one Kind.lbracket (codes "[")
    else if r == b']'
    then one Kind.rbracket (codes "]")
    else one Kind.illegal (r ∷ [])

unfoldable pub emit_op : Lexer → Cursor → Op → ℕ → ℕ → Token × Lexer
emit_op l c (one k lit) line col = emit_at l (advance c) k lit line col
emit_op l c (two k lit) line col = emit_at l (advance (advance c)) k lit line col

-- ".5": the code reads the '.', and steps back over it.
unfoldable pub lex_operator : Lexer → Cursor → ℕ → ℕ → Token × Lexer
unfolding operator emit_op
lex_operator l c line col =
    let r = peek c.rest in
    let after = peek_at_one c.rest in
    if r == b'.' && not (ends_value l.last_kind) && is_digit after
    then lex_number l c line col
    else emit_op l c (operator l.last_kind r after) line col

abbrev pub is_native_number : Option (Runes → Bool) → Runes → Bool
is_native_number none rs = false
is_native_number (some native) rs = matches_digit_leading_native_name native rs

-- `Next` behind the spaces, at the cursor `c`
unfoldable pub lex_token : Lexer → Cursor → Runes → Token × Lexer
lex_token l c [] = emit l c Kind.eof []
lex_token l c (r ∷ rs) =
    if is_word r && is_percent l.last_kind
    then lex_external_name l c c.line c.col
    else if is_digit r && is_native_number l.native_program_lookup c.rest
    then lex_external_name l c c.line c.col
    else if is_digit r
    then lex_number l c c.line c.col
    else if is_letter r
    then lex_ident l c c.line c.col
    else if r == 34
    then lex_string l c c.line c.col
    else if r == b'/'
    then lex_slash_or_path l c c.line c.col
    else lex_operator l c c.line c.col

-- `Next`
unfoldable pub next : Lexer → Token × Lexer
next l =
    let (newline_seen, c) = skip_space_and_comments l.cursor in
    if newline_seen && ends_value l.last_kind
    then emit l c Kind.newline (codes "\n")
    else lex_token l c c.rest

abbrev pub is_eof : Kind → Bool
is_eof Kind.eof = true
is_eof _ = false

-- The tokens of a text up to EOF, on fuel; `none` means that the fuel ran out.
unfoldable pub tokens : ℕ → Lexer → Option (List Token)
tokens zero l = none
tokens (suc fuel) l =
    let (tok, l') = next l in
    let rest = tokens fuel l' in
    if is_eof tok.kind then some (tok ∷ []) else Option.map (◌∷◌ tok) rest
