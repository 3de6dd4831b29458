-- ===== src/Kyu/Parser.antt =====
-- kyu/parser/parser.go: recursive descent with precedence climbing. `Rules` is the parser with one unit
-- of fuel less, and `Whole` ties the knot.
pub mod State
pub mod Rules
pub mod Compound
pub mod Braces
pub mod Control
pub mod Operand
pub mod Statement
pub mod Whole
pub mod Total
mod Tests
