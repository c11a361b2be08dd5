-- ===== src/MemDriver.antt =====
-- internal/memdriver/memdriver.go: the in-memory store. Each call runs under the mutex and takes
-- the store's clock reading as an argument.
pub mod Rows
pub mod RowLaws
pub mod Insert
pub mod Claim
pub mod Mark
pub mod Operator
pub mod Read
pub mod History
pub mod Ids
pub mod Batch
pub mod Moves
pub mod Validity
pub mod Unique
pub mod Fence
pub mod Lasting
pub mod Fetching
pub mod Marking
pub mod Operating
pub mod Stats
pub mod Counting
pub mod Sample
mod Tests
