-- ===== src/Lang/Analysis.antt =====
-- prayer-lang/src/analyzer.rs: the identifiers of a program are resolved against what is observed.
pub mod Nodes
pub mod Resolve
pub mod Transfer
pub mod Pairs
pub mod Program
