-- ===== src/Fri/Complete.antt =====
-- What the FRI prover makes, the verifier accepts: bef_zk/fri/prover.py against bef_zk/fri/verifier.py.
mod Layers
mod Marks
mod Openings
mod Reads
mod Paths
mod Accepts
pub use Accepts.{fri_prove-verify, Accepted}
pub use Layers.{IsReduced, distinct_roots}
pub use Paths.{ValuesAt}
pub mod OverStc
mod Examples
