-- ===== src/Social/Returns.antt =====
-- `set` and `get` of social-web3/contract/src/api.rs together: a text that is written is read again.
pub mod Reads
pub mod Entries
pub mod Homes
pub mod Stores
