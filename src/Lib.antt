-- ===== src/Lib.antt =====
-- Smart contracts of the Utility chain: a model of the contracts' state and methods, and theorems
-- about them.
--
-- Each contract of the repository is a crate of its own. Users call methods by transactions; a
-- method reads the chain through `env`, changes the contract's state and creates promises, which
-- the chain carries out later. The contracts meet through such calls only: a lockup contract asks
-- the whitelist about a pool and delegates to it, the pool's owner votes in the poll that enables
-- transfers.
--
-- How code becomes definitions. `Host.Env` is what a call reads of the chain: who calls, with what
-- deposit, at which time and epoch, the validators' stakes and the results of promises. It belongs
-- to the chain, so theorems range over it. `Social.State.Env` is the same for the social contract, where
-- account ids are texts, and a function of the state measures the storage. A method of `&self` is a function into
-- `Prelude.Outcome`, a method of `&mut self` an `Prelude.Action`: a function of the state into an
-- outcome with the new state. A failed `assert!`, an `expect`, an overflow or `panic_str` is the
-- outcome `panic`, and `Prelude.settle` rolls such a call back, as the chain does. A panic's message
-- is kept without its formatted values. Promises are added to a field of the state, so that what
-- a method asks of the chain can be stated. Account ids, keys and byte strings are only compared, so
-- they are numbers; maps and sets of `unc_sdk::store` and `HashMap` are association lists
-- (`Prelude.Map`), and no theorem depends on the order of their entries.
--
-- Numbers. Balances are 128 bits wide, epochs and times 64. Every crate turns overflow checks on, so
-- `+` and `-` on them are `checked_add` and `checked_sub`, which panic; the operations of `UncToken`
-- that saturate are `saturating_add` and the truncated `-`. Products of the staking pool are 256 bits
-- wide in the source and cannot overflow there; `as_u128` panics on what does not fit.
--
-- Files.
--   Whitelist (whitelist/src/lib.rs): the contract and its methods; Whitelist/Access has who may
--   change the lists, Whitelist/Refinement the registry that the contract implements.
--   Voting (voting/src/lib.rs): `ping` is split into `update`, `refresh` and `keep`, `vote` into its
--   ping and `cast`; Voting/Tally is about the votes and their total, Voting/Poll about the end.
--   StakingPool (staking-pool/src): State has the records, the share conversions and the helpers
--   that save an account, Internal the methods of internal.rs, Methods and Views those of lib.rs.
--   Effects inverts the calls that go through. Price is the arithmetic of rounding; Balance the sums
--   over the accounts; Solvency, Shares and Rounds are about the parts of a method, Keeps and History
--   about whole methods and histories; Worth, Delay and Frame about what users can rely on; Preserve
--   lifts an invariant of the parts to every method.
--   Multisig (multisig/src/lib.rs): State and Methods, with `execute_request` as the loop
--   `execute_actions`; Calls has histories. Effects inverts the calls that go through; Pending is
--   about the two maps of requests, Quorum about who confirmed, Threshold and Powers about what
--   confirmations allow, Execution about the promise of a request.
--   Airdrop (airdrop/src): the contract with its callbacks; Transfers is about what its promises transfer,
--   Funds about the tokens it owes and pays, Airdrop/Claims about who can take them and about claims that fail.
--   Lockup (lockup/src): State has the types and `new`, Getters and Internal the files of those names,
--   Owner, OwnerCallbacks, Foundation and FoundationCallbacks the methods. A callback has its name
--   without `on_`; a method whose name is that of a request has `_at_pool` or `_to` behind it. Schedule
--   and Locked are about the amounts over time, Transfers about what the owner can take, Guards about
--   who can act, Questions about calls that go to the wrong account, Termination about the foundation.
--   LockableToken (lockable-fungible-token/src/lib.rs): the methods of the account and of the token, of
--   which `set_allowance` is `approve`; Worth is about an account's tokens, Supply about all of them,
--   Escrow about what others can take.
--   StakingPoolFactory (staking-pool-factory/src): creation and callback; Creation is about how they end.
--   LockupFactory (lockup-factory/src): creation and callback; Creation takes a new lockup through `new` of
--   the lockup contract. MultisigFactory (multisig-factory/src/lib.rs): its one method.
--   WrappedToken (w-unc/src): its methods on the SDK's token, which is a record of operations; Backing
--   states what is relied on of it, and what comes of that.
--   Social (social-web3/contract/src): State has the records and lib.rs, Nodes node.rs, Keys the keys and
--   paths, Permissions permission.rs, Accounts account.rs, Pools the tracker and the shared pools, Sharing
--   `share_storage`, Genesis upgrade.rs. Of api.rs, Setting has `set`, Reading `get`, Listing `keys` and
--   Objects the JSON maps. Calls has the methods, those of the genesis too, and histories. Tree and its children
--   are about the shape of the nodes, Writes about what `set` may change, Returns about a `get` that follows
--   a `set`, Grants about the question for a permission, Storage about what accounts are charged, Status about what the status rules out.
--   Samples and the Examples of each contract hold concrete runs.
--
-- Loops are structural recursion on lists and JSON values. Only `Social.Reading.recursive_get` takes fuel,
-- since `**` follows the stored nodes: `get` gives it one more than the node count, which is enough
-- where ids grow on the way down.
--
-- What is not modelled. Gas, logging, serialisation and the storage layout are left out. The tokens
-- of fungible-token and non-fungible-token are those of the SDK, which is not in the repository; the
-- contracts only pass calls on to them. The contracts that the list of files does not name are not modelled.
pub mod Prelude
pub mod Host
mod Samples
pub mod Whitelist
pub mod Voting
pub mod StakingPool
pub mod Multisig
pub mod Airdrop
pub mod Lockup
pub mod LockableToken
pub mod StakingPoolFactory
pub mod LockupFactory
pub mod MultisigFactory
pub mod WrappedToken
pub mod Social
