-- ===== src/Multisig.antt =====
-- multisig/src/lib.rs: an account whose actions want the confirmations of several members.
pub mod State
pub mod Methods
pub mod Views
pub mod Calls
pub mod Pending
pub mod Effects
pub mod Quorum
pub mod Powers
pub mod Execution
pub mod Threshold
pub mod Examples
