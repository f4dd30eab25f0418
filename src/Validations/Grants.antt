-- ===== src/Validations/Grants.antt =====
-- pkg/validations/grants.go: the privileges of the current account. `Types` has its data, `Like` the
-- wildcard matcher, `State` the answers, `Answers` what they mean.
pub mod Types
pub mod Like
pub mod State
pub mod Checks
pub mod Read
mod Tests
