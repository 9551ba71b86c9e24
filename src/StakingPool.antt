-- ===== src/StakingPool.antt =====
-- staking-pool/src: a delegation pool that stakes its accounts' tokens with one validator.
pub mod State
pub mod Internal
pub mod Methods
pub mod Price
pub mod Balance
pub mod Solvency
pub mod Effects
pub mod Shares
pub mod Rounds
pub mod Keeps
pub mod History
pub mod Worth
pub mod Delay
pub mod Preserve
pub mod Frame
pub mod Views
mod Examples
