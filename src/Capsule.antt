-- ===== src/Capsule.antt =====
-- bef_zk/capsule: what the command line makes of a verification.
pub mod ExitCodes
pub mod Header
pub mod Payload
pub mod CapFormat
