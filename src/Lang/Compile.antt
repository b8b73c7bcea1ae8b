-- ===== src/Lang/Compile.antt =====
-- prayer-lang/src/compiler.rs: from analyzed statements to the actions that are queued.
pub mod Arguments
pub mod Command
pub mod Program
