-- ===== src/License.antt =====
-- src/license.ts: licence tokens, the registry of issued licences and the revocations.
-- The two files are the dictionaries of a `LicenseFiles`; a method takes the files and returns them
-- as they stand after its last write. Instants are whole milliseconds, so `Math.round` is the
-- identity and `Number.isFinite` holds. Signing, base64url and JSON are not the program's own code:
-- they are the fields of `Codec`, with the laws that the module relies on.
pub mod Types
pub mod Text
pub mod Store
pub mod Tokens
pub mod Registry
mod Records
pub mod Extend
pub mod History
pub mod SampleCodec
mod Tests
pub use Types.*
