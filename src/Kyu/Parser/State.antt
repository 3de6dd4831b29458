-- ===== src/Kyu/Parser/State.antt =====
-- The state of the parser of kyu/parser/parser.go, and steps that read tokens and report errors. A step
-- that runs out of fuel is `none`.
use sh.Prelude.{
  ℕ, Bool, true, false, not, Option, none, some, List, [], ◌∷◌, ◌++◌, Runes, if◌then◌else◌,
}
use sh.Kyu.Token.{Kind, Token}
use sh.Kyu.Lexer.{Lexer, next}
use sh.Kyu.Lexer as Lexing
use sh.Kyu.Ast.{Expr}

-- What the messages of `errorf` say; the kinds and literals are those that they print.
pub data Complaint : Type 0 where
  unexpected_token : Kind → Runes → Complaint
  expected : Kind → Kind → Runes → Complaint
  expected_closing_bar expected_command expected_else_brace : Kind → Complaint
  expected_operand : Kind → Runes → Complaint
  expected_disposition : Kind → Runes → Complaint
  invalid_int invalid_float invalid_duration : Runes → Complaint
  invalid_target : Complaint
  two_dispositions : Runes → Runes → Complaint
  ro_twice : Complaint
  no_default : Runes → Complaint

pub record ParseError : Type 0 where
  pub line : ℕ
  pub what : Complaint

pub record Parser : Type 0 where
  pub lexer : Lexer
  pub cur : Token
  pub peek : Token
  pub errs : List ParseError
  -- `nil` is `none`
  pub is_native_program : Option (Runes → Bool)

-- `next`
unfoldable pub next_token : Parser → Parser
next_token p = let (tok, l) = next p.lexer in record p { lexer = l; cur = p.peek; peek = tok }

-- `New`, with the option `WithNativeProgramLookup` or without it
abbrev zero_token : Token
zero_token = record { kind = Kind.illegal; literal = []; line = 0; col = 0 }

-- `New` before it reads its first two tokens, with the option `WithNativeProgramLookup` or without it
abbrev pub unread_parser : Runes → Option (Runes → Bool) → Parser
unread_parser src native = record {
  lexer = Lexing.new src native;
  cur = zero_token;
  peek = zero_token;
  errs = [];
  is_native_program = native;
}

-- `New`
unfoldable pub new_parser : Runes → Option (Runes → Bool) → Parser
unfolding next_token
new_parser src native = next_token (next_token (unread_parser src native))

-- A method that returns an `A`.
abbrev pub Parse {ℓ} : Type ℓ → Type ℓ
Parse A = Parser → Option (A × Parser)

abbrev pub pure {ℓ} : {A : Type ℓ} → A → Parse A
pure a p = some (a, p)

abbrev pub and_then {ℓ κ} :
    {A : Type ℓ} {B : Type κ} → (A → Parse B) → Option (A × Parser) → Option (B × Parser)
and_then f none = none
and_then f (some (a, p)) = f a p

infixl 1 ◌>>=◌ ◌>>◌
abbrev pub ◌>>=◌ {ℓ κ} : {A : Type ℓ} {B : Type κ} → Parse A → (A → Parse B) → Parse B
m >>= f = λ p. and_then f (m p)

abbrev pub ◌>>◌ {ℓ κ} : {A : Type ℓ} {B : Type κ} → Parse A → Parse B → Parse B
m >> k = m >>= λ _. k

-- the fields of `p`, as they are now
abbrev pub state : Parse Parser
state p = some (p, p)

abbrev pub consume : Parse (Unit {0})
consume p = some (tt, next_token p)

-- `errorf`
abbrev pub complain : Complaint → Parse (Unit {0})
complain what p =
    some (tt, record p { errs = p.errs ++ record { line = p.cur.line; what = what } ∷ [] })

-- An error, and nil.
abbrev pub refuse : Complaint → Parse Expr
refuse what = complain what >> pure Expr.missing

-- `a == b` on kinds, where `b` is one of the constants of the parser
abbrev pub is_comma : Kind → Bool
is_comma Kind.comma = true
is_comma _ = false

abbrev pub is_rbrace : Kind → Bool
is_rbrace Kind.rbrace = true
is_rbrace _ = false

abbrev pub is_lbrace : Kind → Bool
is_lbrace Kind.lbrace = true
is_lbrace _ = false

abbrev pub is_lparen : Kind → Bool
is_lparen Kind.lparen = true
is_lparen _ = false

abbrev pub is_rparen : Kind → Bool
is_rparen Kind.rparen = true
is_rparen _ = false

abbrev pub is_rbracket : Kind → Bool
is_rbracket Kind.rbracket = true
is_rbracket _ = false

abbrev pub is_colon : Kind → Bool
is_colon Kind.colon = true
is_colon _ = false

abbrev pub is_identifier : Kind → Bool
is_identifier Kind.ident = true
is_identifier _ = false

abbrev pub is_assign : Kind → Bool
is_assign Kind.assign = true
is_assign _ = false

abbrev pub is_define : Kind → Bool
is_define Kind.define = true
is_define _ = false

abbrev pub is_pipe : Kind → Bool
is_pipe Kind.pipe = true
is_pipe _ = false

abbrev pub is_amp : Kind → Bool
is_amp Kind.amp = true
is_amp _ = false

abbrev pub is_else : Kind → Bool
is_else Kind.else_word = true
is_else _ = false

abbrev pub is_terminator : Kind → Bool
is_terminator Kind.newline = true
is_terminator Kind.semi = true
is_terminator _ = false

-- `expectPeekOrCur`, for a kind and the test for it
abbrev pub expect_peek_or_cur : Kind → (Kind → Bool) → Parse Bool
expect_peek_or_cur k is = do
  p ← state
  if is p.cur.kind
      then pure true
      else if not (is p.peek.kind)
      then (do complain (expected k p.peek.kind p.peek.literal); pure false)
      else (do consume; pure true)
