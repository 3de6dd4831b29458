-- ===== src/Std.antt =====
-- What the source uses of Go's standard library, over texts as lists of runes.
pub mod Strings
pub mod Paths
pub mod Int64
