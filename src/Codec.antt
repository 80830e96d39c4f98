-- ===== src/Codec.antt =====
-- bef_zk/codec/canonical_cbor.py: the deterministic encoding of the artifacts, and its decoder.
pub mod Value
pub mod Order
pub mod Encode
pub mod Decode
pub mod Heads
pub mod Decoded
pub mod RoundTrip
pub mod Ends
pub mod Lookup
mod Examples
