-- ===== src/Replication.antt =====
-- pkg/replication: facts about a server's replication and checks over them. `Decode` reads the values
-- of the driver, `Rows` the result sets, `Facts` has the statements, `Checks` the checks,
-- `Catalog` their texts.
pub mod Decode
pub mod Rows
pub mod Facts
pub mod Catalog
pub mod Checks
mod Tests
