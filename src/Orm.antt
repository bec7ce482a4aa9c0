-- ===== src/Orm.antt =====
-- orm: the query builders of the mapper.
pub mod Builder
pub mod Expression
pub mod Select
pub mod Insert
pub mod Update
pub mod Delete
pub mod Marks
pub mod Registry
pub mod Transactions
pub mod Exec
pub mod Conflicts
pub mod Stamps
pub mod Chunks
pub mod Quoting
mod Tests
mod Structs
mod Runs
