-- ===== src/Kyu/Parser/Total.antt =====
-- Termination of the parser of kyu/parser/parser.go.
pub mod Runs
pub mod Compound
pub mod Braces
pub mod Control
pub mod Operand
pub mod Statement
pub mod Whole
