-- ===== src/Social.antt =====
-- social-web3/contract/src: a tree of texts, in which every account owns the subtree under its id.
pub mod State
pub mod Pools
pub mod Accounts
pub mod Nodes
pub mod Permissions
pub mod Keys
pub mod Sharing
pub mod Genesis
pub mod Objects
pub mod Reading
pub mod Listing
pub mod Setting
pub mod Calls
pub mod Tree
pub mod Writes
pub mod Returns
pub mod Storage
pub mod Grants
pub mod Status
mod Examples
