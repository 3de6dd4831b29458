-- ===== src/Kyu/Token.antt =====
-- kyu/token/token.go: the kinds of tokens, the keyword table, and the printing of kinds.
pub mod Keywords
use sh.Prelude.{
  ℕ, zero, suc, ◌≡◌, refl, Bool, true, List, [], ◌∷◌, Runes, codes, same, ◌==◌, if◌then◌else◌,
}

pub data Kind : Type 0 where
  illegal eof : Kind
  ident int float string duration path : Kind
  assign define pipe percent plus minus star slash modulo : Kind
  eq neq lt gt le ge and or not question amp at dot comma colon semi newline : Kind
  lparen rparen lbrace rbrace lbracket rbracket : Kind
  true_word false_word null if_word else_word bind while break continue unbind in_ns : Kind

pub record Token : Type 0 where
  pub kind : Kind
  pub literal : Runes
  pub line : ℕ
  pub col : ℕ

-- `keywords`, a map; its keys differ, so the order of the entries does not matter.
abbrev pub keywords : List (Runes × Kind)
keywords =
    (codes "true", true_word)
    ∷ (codes "false", false_word)
    ∷ (codes "null", null)
    ∷ (codes "if", if_word)
    ∷ (codes "else", else_word)
    ∷ (codes "bind", bind)
    ∷ (codes "unbind", unbind)
    ∷ (codes "in_ns", in_ns)
    ∷ (codes "while", while)
    ∷ (codes "break", break)
    ∷ (codes "continue", continue)
    ∷ []

find_kind : List (Runes × Kind) → Runes → Kind
find_kind [] name = ident
find_kind ((word, k) ∷ rest) name = if same word name then k else find_kind rest name

unfoldable pub lookup_ident : Runes → Kind
unfolding find_kind same
lookup_ident = find_kind keywords

-- `Kind.String`
unfoldable pub kind_string : Kind → Runes
kind_string illegal = codes "ILLEGAL"
kind_string eof = codes "EOF"
kind_string ident = codes "IDENT"
kind_string int = codes "INT"
kind_string float = codes "FLOAT"
kind_string string = codes "STRING"
kind_string duration = codes "DURATION"
kind_string path = codes "PATH"
kind_string assign = codes "="
kind_string define = codes ":="
kind_string pipe = codes "|"
kind_string percent = codes "%"
kind_string plus = codes "+"
kind_string minus = codes "-"
kind_string star = codes "*"
kind_string slash = codes "/"
kind_string modulo = codes "%"
kind_string eq = codes "=="
kind_string neq = codes "!="
kind_string lt = codes "<"
kind_string gt = codes ">"
kind_string le = codes "<="
kind_string ge = codes ">="
kind_string and = codes "&&"
kind_string or = codes "||"
kind_string not = codes "!"
kind_string question = codes "?"
kind_string amp = codes "&"
kind_string at = codes "@"
kind_string dot = codes "."
kind_string comma = codes ","
kind_string colon = codes ":"
kind_string semi = codes ";"
kind_string newline = codes "NEWLINE"
kind_string lparen = codes "("
kind_string rparen = codes ")"
kind_string lbrace = codes "{"
kind_string rbrace = codes "}"
kind_string lbracket = codes "["
kind_string rbracket = codes "]"
kind_string true_word = codes "true"
kind_string false_word = codes "false"
kind_string null = codes "null"
kind_string if_word = codes "if"
kind_string else_word = codes "else"
kind_string bind = codes "bind"
kind_string while = codes "while"
kind_string break = codes "break"
kind_string continue = codes "continue"
kind_string unbind = codes "unbind"
kind_string in_ns = codes "in_ns"
