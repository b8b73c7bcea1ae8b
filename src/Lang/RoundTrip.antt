-- ===== src/Lang/RoundTrip.antt =====
-- Round trips: the words that are written for a statement are read as that statement.
pub mod Trade
pub mod Accepted
pub mod Craft
pub mod Transfer
pub mod Sell
pub mod Block
pub mod Settled
pub mod Moved
