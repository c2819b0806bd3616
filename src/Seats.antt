-- ===== src/Seats.antt =====
-- src/seats.ts: one licence, a bounded number of running installs.
-- The store's file is the dictionary `SeatsFile`; a method takes it and returns it as it stands
-- after the last `write`. Times are milliseconds, so `now - t <= w` is written `now ≤ t + w`, which
-- agrees with it on every pair of instants, also when the clock went backwards.
mod Types
mod Store
pub mod Lists
pub mod Admit
pub mod Holder
pub mod Registry
mod Tests
pub use Types.*
unfoldable pub use Store.*
