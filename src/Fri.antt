-- ===== src/Fri.antt =====
-- bef_zk/fri: folding a committed codeword, and checking the folds at the queried places.
pub mod Config
pub mod Domain
pub mod Types
pub mod Verifier
pub mod Prover
pub mod Complete
mod Examples
