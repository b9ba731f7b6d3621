-- ===== src/Sync.antt =====
-- internal/sync: signed mutations from their arrival to the database.
pub mod Params
pub mod Device
pub mod Dispatch
pub mod Install
pub mod Handle
pub mod Written
pub mod Answered
pub mod Once
pub mod Attested
mod Tests
