-- ===== src/Kyu/Tests.antt =====
-- The lexer on concrete texts.
use sh.Prelude.{
  ℕ, ◌+◌, ◌*◌, ◌≡◌, refl, String, Option, none, some, List, [], ◌∷◌, map, length, Runes, codes,
}
use sh.Prelude.Int.{sub_ℕ}
use sh.Kyu.Token.{Kind, Token, lookup_ident}
use sh.Kyu.Lexer.{
  Lexer, new, advance, is_digit, is_letter, is_path_char, skip_while, between, emit_at, skip_space,
  match_unit, lex_number, lex_external_name, lex_ident, lex_string, string_body, lex_slash_or_path,
  lex_operator, lex_token, next, tokens, ends_value,
}
use sh.Kyu.Lexer.Whole.{All, tokens_total, Located, tokens-Located, IsStream, tokens-IsStream}
use sh.Kyu.Lexer.Strings.{next-quoted}
use sh.Kyu.Brackets.{opened, closed, bracket_depth, bracket_depth-tokens}

abbrev kinds : Option (List Token) → List (Kind × Runes)
kinds none = []
kinds (some ts) = map (λ t. (t.kind, t.literal)) ts

-- A name, a declaration, and a string on the next line.
abbrev sample : Runes
sample = codes "a := 1\n\"b\""

abbrev token : Kind → Runes → ℕ → ℕ → Token
token k lit line col = record { kind = k; literal = lit; line = line; col = col }

abbrev sample_tokens : List Token
sample_tokens =
    token Kind.ident (codes "a") 1 1
    ∷ token Kind.define (codes ":=") 1 3
    ∷ token Kind.int (codes "1") 1 6
    ∷ token Kind.newline (codes "\n") 2 1
    ∷ token Kind.string (codes "b") 2 1
    ∷ token Kind.eof [] 2 4
    ∷ []

sample_lexed : tokens 20 (new sample none) ≡ some sample_tokens
unfolding tokens next lex_token lex_operator lex_number lex_external_name lex_ident lex_string
    string_body lex_slash_or_path match_unit between emit_at skip_space skip_while advance is_digit
    is_letter is_path_char ends_value lookup_ident
sample_lexed = refl

tokens_total_example :
    (ts : List Token) × (tokens (2 * length sample + 1) (new sample none) ≡ some ts)
tokens_total_example = tokens_total sample none

tokens-Located_example : All (Located sample) sample_tokens
tokens-Located_example = tokens-Located sample none 20 sample_tokens sample_lexed

tokens-IsStream_example : IsStream Kind.illegal sample_tokens
tokens-IsStream_example = tokens-IsStream sample none 20 sample_tokens sample_lexed

-- the literal `"a\"b"` and a closing bracket
abbrev quote_lexer : Lexer
quote_lexer = new (codes "\"a\\\"b\")") none

next-quoted_example :
    ((next quote_lexer).0 ≡ token Kind.string (codes "a\"b") 1 1)
    × ((next quote_lexer).1.cursor.rest ≡ codes ")")
next-quoted_example = next-quoted quote_lexer (codes "a\"b") (codes ")") refl

-- a text that is not complete
abbrev unfinished : Runes
unfinished = codes "f([1, {a: 2}"

bracket_depth-tokens_example :
    (ts : List Token) × (tokens (2 * length unfinished + 1) (new unfinished none) ≡ some ts)
    × (bracket_depth (2 * length unfinished + 1) unfinished ≡ some (sub_ℕ (opened ts) (closed ts)))
bracket_depth-tokens_example = bracket_depth-tokens unfinished

abbrev of : String → List (Kind × Runes)
of src = kinds (tokens 20 (new (codes src) none))

define_of :
    of "x := .5 % 5ms # c\n/a-b"
    ≡ (Kind.ident, codes "x")
      ∷ (Kind.define, codes ":=")
      ∷ (Kind.float, codes ".5")
      ∷ (Kind.modulo, codes "%")
      ∷ (Kind.duration, codes "5ms")
      ∷ (Kind.newline, codes "\n")
      ∷ (Kind.path, codes "/a-b")
      ∷ (Kind.eof, [])
      ∷ []
unfolding tokens next lex_token lex_operator lex_number lex_external_name lex_ident lex_string
    string_body lex_slash_or_path match_unit between emit_at skip_space skip_while advance is_digit
    is_letter is_path_char ends_value lookup_ident
define_of = refl
