-- ===== src/Validations.antt =====
-- pkg/validations: facts about a schema and checks over them.
pub mod Catalog
pub mod Predicate
pub mod Grants
pub mod Spec
pub mod Diff
pub mod Keys
pub mod ForeignKeys
pub mod Inspector
pub mod Tables
