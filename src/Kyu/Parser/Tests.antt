-- ===== src/Kyu/Parser/Tests.antt =====
-- Texts parsed.
use sh.Prelude.{◌≡◌, refl, true, String, Option, none, some, List, [], ◌∷◌, Runes, codes}
use sh.Kyu.Token.{Kind, Token}
use sh.Kyu.Lexer.{is_eof}
use sh.Kyu.Ast.{Expr, Exprs, no_exprs, expr_cons, Stmts, Stmt, no_stmts, stmt_cons, expr_stmt}
use sh.Kyu.Parser.State.{Complaint, ParseError, Parser}
use sh.Kyu.Parser.Rules.{Literals}
use sh.Kyu.Parser.Whole.{parse_text}
use sh.Kyu.Parser.Total.Whole.{parse_text_total}

abbrev literals : Literals
literals = record { parse_float = λ s. none; parse_duration = λ s. none }

-- The shape of an expression of names and binary operators.
data Shape : Type 0 where
  name : Runes → Shape
  node : Kind → Shape → Shape → Shape
  other : Shape

abbrev shape_of : Expr → Shape
shape_of (Expr.ident tok n) = Shape.name n
shape_of (Expr.binary_expr tok op a b) = Shape.node op (shape_of a) (shape_of b)
shape_of _ = Shape.other

abbrev first_shape : Stmts → Shape
first_shape (stmt_cons (expr_stmt e) rest) = shape_of e
first_shape _ = Shape.other

abbrev parsed : String → Option Shape
parsed src = elim (parse_text literals (codes src) none) [
  | none ↦ none
  | some (ss, p) ↦ some (first_shape ss)
]

sum_product :
    parsed "a + b * c"
    ≡ some (
        Shape.node Kind.plus
          (Shape.name (codes "a"))
          (Shape.node Kind.star (Shape.name (codes "b")) (Shape.name (codes "c"))))
unfolding parse_text sh.Kyu.Lexer.next sh.Kyu.Lexer.skip_space sh.Kyu.Lexer.lex_token
    sh.Kyu.Lexer.is_letter sh.Kyu.Lexer.is_digit sh.Kyu.Lexer.lex_ident sh.Kyu.Lexer.emit_at
    sh.Kyu.Token.lookup_ident sh.Kyu.Lexer.between sh.Kyu.Lexer.skip_while
    sh.Kyu.Parser.Statement.parse_stmts sh.Kyu.Lexer.lex_operator sh.Kyu.Lexer.advance
    sh.Kyu.Ast.snoc_stmt
sum_product = refl

left_first :
    parsed "a - b - c"
    ≡ some (
        Shape.node Kind.minus
          (Shape.node Kind.minus (Shape.name (codes "a")) (Shape.name (codes "b")))
          (Shape.name (codes "c")))
unfolding parse_text sh.Kyu.Lexer.next sh.Kyu.Lexer.skip_space sh.Kyu.Lexer.lex_token
    sh.Kyu.Lexer.is_letter sh.Kyu.Lexer.is_digit sh.Kyu.Lexer.lex_ident sh.Kyu.Lexer.emit_at
    sh.Kyu.Token.lookup_ident sh.Kyu.Lexer.between sh.Kyu.Lexer.skip_while
    sh.Kyu.Parser.Statement.parse_stmts sh.Kyu.Lexer.lex_operator sh.Kyu.Lexer.advance
    sh.Kyu.Ast.snoc_stmt
left_first = refl

abbrev errors : String → Option (List ParseError)
errors src = elim (parse_text literals (codes src) none) [
  | none ↦ none
  | some (ss, p) ↦ some p.errs
]

-- A record that ends with a record is refused: the closing brace of the inner one is taken for that of
-- the outer one, which is then read as a statement.
record_in_record :
    errors "{a: {b: 1}}"
    ≡ some (record { line = 1; what = Complaint.unexpected_token Kind.rbrace (codes "}") } ∷ [])
unfolding parse_text sh.Kyu.Lexer.next sh.Kyu.Lexer.skip_space sh.Kyu.Lexer.lex_token
    sh.Kyu.Lexer.is_letter sh.Kyu.Lexer.is_digit sh.Kyu.Lexer.lex_ident sh.Kyu.Lexer.emit_at
    sh.Kyu.Token.lookup_ident sh.Kyu.Lexer.between sh.Kyu.Lexer.skip_while
    sh.Kyu.Parser.Statement.parse_stmts sh.Kyu.Lexer.lex_operator sh.Kyu.Lexer.advance
    sh.Kyu.Ast.snoc_stmt sh.Kyu.Lexer.lex_number sh.Kyu.Lexer.match_unit sh.Std.Strings.atoi
    sh.Kyu.Parser.Braces.parse_fields
record_in_record = refl

-- The text `f(a` lacks a parenthesis.
parse_text_total_example :
    (ss : Stmts) × (p : Parser) × (parse_text literals (codes "f(a") none ≡ some (ss, p))
    × (is_eof p.cur.kind ≡ true)
parse_text_total_example = parse_text_total literals (codes "f(a") none
