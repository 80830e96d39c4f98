-- ===== src/Air.antt =====
-- bef_zk/air: the trace of the geometry machine, its table of columns, and the constraints on it.
pub mod Trace
pub mod Table
pub mod Constraints
pub mod Composition
pub mod Residuals
pub mod Masking
pub mod Reading
pub mod Rows
pub mod Honest
pub mod Run
pub mod Still
pub mod Domain
pub mod Columns
