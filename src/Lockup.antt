-- ===== src/Lockup.antt =====
-- lockup/src: tokens that are released over time, can be delegated, and may be vested.
pub mod State
pub mod Getters
pub mod Internal
pub mod Owner
pub mod OwnerCallbacks
pub mod Foundation
pub mod FoundationCallbacks
pub mod Calls
pub mod Guards
pub mod Transfers
pub mod Questions
pub mod Schedule
pub mod Locked
pub mod Termination
mod Examples
