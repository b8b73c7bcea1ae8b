-- ===== src/Scheduler.antt =====
-- prayer-scheduler/src/lib.rs: the queue of one session, with a claimed normal lane and an interrupt
-- lane that goes before it. The methods are in Operations; the other modules prove facts about them.
pub mod State
pub mod Operations
pub mod Steps
pub mod Invariant
pub mod Priority
pub mod Ownership
pub mod Order
pub mod Conservation
pub mod Preemption
pub mod Checkpoint
pub mod Versions
pub mod Restart
mod Tests
