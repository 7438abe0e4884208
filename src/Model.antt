-- ===== src/Model.antt =====
-- src/model.c: the in-memory vault. A pointer to a record of the vault is its index. The clock, the
-- random bytes and the page protection are arguments. Sizes of C types are those of a 64-bit Linux.
pub mod Types
pub mod Validate
pub mod Valid
pub mod Init
pub mod Copy
pub mod Room
pub mod Stored
pub mod Settles
pub mod SettlesRecord
pub mod Invariant
pub mod AddOutcomes
pub mod Kept
pub mod Added
pub mod Add
pub mod Delete
pub mod Tombstone
pub mod Life
pub mod Samples
pub mod Tests
pub mod Find
pub mod Found
pub mod Clone
pub mod Cloned
pub mod Erased
mod Deletion
