-- ===== src/Codec/RoundTrip.antt =====
-- The decoder of canonical CBOR reads what the encoder writes.
mod Leaves
mod Arrays
mod Maps
mod Whole
pub use Whole.{decode_value-encode_value, canonical_decode-canonical_encode}
