-- ===== src/Kyu/Value.antt =====
-- kyu/value/value.go.
pub mod Data
pub mod Record
mod Tests
