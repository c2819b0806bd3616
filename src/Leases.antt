-- ===== src/Leases.antt =====
-- src/license-leases.ts: machine-bound leases and their signed, hash-chained audit ledger.
-- Types and Env are the data and the outside code, Checks the validation, Tokens the lease tokens,
-- Replay the reading of a ledger, Service the operations. SampleEnv, Scenario and Tests are concrete runs,
-- the other modules proofs.
pub mod Types
pub mod Checks
pub mod Tokens
pub mod Replay
pub mod Service
pub mod Laws
pub mod Verify
pub mod Chain
pub mod Moves
pub mod Invert
pub mod Find
pub mod Issued
pub mod Reissued
pub mod Issues
pub mod Reach
pub mod Accepts
pub mod Limits
pub mod Locks
pub mod Bindings
pub mod Search
pub mod Waits
pub mod Terms
pub mod SampleEnv
pub mod Scenario
mod Tests
