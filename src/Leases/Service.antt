-- ===== src/Leases/Service.antt =====
-- The operations of `LicenseLeaseService` (license-leases.ts). Each reads a replayed state and gives the
-- event to append with what it answers; `append_event` writes it. `raw` is a reading of `rawNow`, and
-- `files` the licence store at that moment.
mod State
mod Challenge
mod Consume
mod Issue
mod Admin
unfoldable pub use State.*
unfoldable pub use Challenge.*
unfoldable pub use Consume.*
unfoldable pub use Issue.*
unfoldable pub use Admin.*
