-- ===== src/Store.antt =====
-- internal/store: the tables of the agent's database that the other parts decide by.
pub mod Table
pub mod Rows
pub mod Nonces
pub mod Instances
pub mod Db
pub mod Statements
pub mod Intact
pub mod Kept
pub mod Ops
pub mod Reads
pub mod Secrets
pub mod Atomic
pub mod Templates
pub mod Ensured
pub mod Owned
pub mod Whole
pub mod Constraints
pub mod Locks
pub mod Held
pub mod Samples
mod Tests
