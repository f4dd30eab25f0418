-- ===== src/Validations/Diff.antt =====
-- pkg/validations/spec_diff.go: the differences between two tables.
pub mod Types
pub mod Matching
pub mod Columns
pub mod Indexes
pub mod Constraints
pub mod Tables
pub mod Tests
