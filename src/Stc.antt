-- ===== src/Stc.antt =====
-- bef_zk/stc: the streaming trace commitment.
pub mod Merkle
pub mod Kary
pub mod Vector
pub mod Plain
pub mod Poseidon
pub mod Accumulator
pub mod Backend
pub mod Archive
pub mod Multi
pub mod Vc
