-- ===== src/Routes.antt =====
-- prayer-state/src/graph.rs: the routes between systems.
pub mod Vectors
pub mod Table
pub mod Walk
pub mod Invariant
pub mod Visit
pub mod Shortest
pub mod Names
pub mod Places
pub mod Links
pub mod Built
pub mod Queries
pub mod Paths
pub mod Within
mod Tests
