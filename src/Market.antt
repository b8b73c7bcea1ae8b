-- ===== src/Market.antt =====
-- prayer-runtime/src/knowledge/virtual_market.rs: the orders of the virtual market.
pub mod Orders
pub mod Normal
mod Tests
