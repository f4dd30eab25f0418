-- ===== src/Golang.antt =====
-- The functions of Go's standard library that the modelled code calls.
pub mod Utf8
pub mod Sql
pub mod Strings
pub mod Strconv
