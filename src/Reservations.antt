-- ===== src/Reservations.antt =====
-- prayer-runtime/src/knowledge/reservations.rs: the ledger that reserves observed inventory for the
-- movements of several sessions. State and Ledger are the code; the other modules prove facts about it.
pub mod State
pub mod Ledger
pub mod Counting
pub mod Totals
pub mod Refused
pub mod Reserve
pub mod Transition
pub mod Reconcile
pub mod History
mod Tests
