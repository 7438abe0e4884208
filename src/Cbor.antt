-- ===== src/Cbor.antt =====
-- src/cbor_codec.c: the plaintext of a vault. The deterministic CBOR subset is written by `Writer`
-- and `Encode`, and read by `Reader` and `Decode`.
pub mod Writer
pub mod Reader
pub mod Items
pub mod ItemsBack
pub mod Encode
pub mod Emits
pub mod Decode
pub mod ReadBack
pub mod Refill
pub mod Seen
pub mod Stream
pub mod RoundTrip
pub mod Subset
pub mod Whole
pub mod Tests
