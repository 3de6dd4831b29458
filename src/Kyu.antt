-- ===== src/Kyu.antt =====
-- kyu, the shell's language: tokens (kyu/token), the lexer (kyu/lexer), the parser (kyu/ast, kyu/parser),
-- its values (kyu/value) and its evaluator (kyu/eval).
pub mod Token
pub mod Lexer
pub mod Ast
pub mod Parser
pub mod Brackets
pub mod Value
pub mod Times
mod Tests
pub mod Eval
pub mod Machine
pub mod Builtins
