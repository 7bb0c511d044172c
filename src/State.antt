-- ===== src/State.antt =====
-- The daemon's own state: crates/app-powerd-core/src/state.
pub mod Machine
pub mod ProcessSet
pub mod Journal
pub mod AppEntry
pub mod Registry
