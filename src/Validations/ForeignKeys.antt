-- ===== src/Validations/ForeignKeys.antt =====
-- pkg/validations/foreign_keys.go and checks_foreign_keys.go: foreign keys. `Registry` decodes the
-- rows of INNODB_FOREIGN, `Standard` those of the fallback, `Select` picks the requested keys,
-- `Discover` joins the two sources, `Checks` has the checks.
pub mod Types
pub mod Registry
pub mod Standard
pub mod Select
pub mod Discover
pub mod Checks
mod Tests
