-- ===== src/Lockup/Calls.antt =====
-- The owner's methods of lockup/src/owner.rs as calls.
use contract_new_project_tem.Prelude.{ℕ, Action}
use contract_new_project_tem.Host.{Env, AccountId, PublicKey}
use contract_new_project_tem.Lockup.State.{LockupContract}
use contract_new_project_tem.Lockup.Owner.{
  select_staking_pool, unselect_staking_pool, deposit_to_staking_pool, deposit_and_stake_at_pool,
  refresh_staking_pool_balance, withdraw_from_staking_pool, withdraw_all_from_staking_pool,
  stake_at_pool, unstake_at_pool, unstake_all_at_pool, check_transfers_vote, transfer_to,
  add_owners_key,
}

pub data OwnerCall : Type 0 where
  selects : AccountId → OwnerCall
  unselects : OwnerCall
  deposits : ℕ → OwnerCall
  deposits_and_stakes : ℕ → OwnerCall
  refreshes : OwnerCall
  withdraws : ℕ → OwnerCall
  withdraws_all : OwnerCall
  stakes : ℕ → OwnerCall
  unstakes : ℕ → OwnerCall
  unstakes_all : OwnerCall
  checks_vote : OwnerCall
  transfers : ℕ → AccountId → OwnerCall
  adds_key : PublicKey → OwnerCall

unfoldable pub apply_owner : Env → OwnerCall → Action LockupContract (Unit {0})
apply_owner e (selects pool) = select_staking_pool e pool
apply_owner e unselects = unselect_staking_pool e
apply_owner e (deposits amount) = deposit_to_staking_pool e amount
apply_owner e (deposits_and_stakes amount) = deposit_and_stake_at_pool e amount
apply_owner e refreshes = refresh_staking_pool_balance e
apply_owner e (withdraws amount) = withdraw_from_staking_pool e amount
apply_owner e withdraws_all = withdraw_all_from_staking_pool e
apply_owner e (stakes amount) = stake_at_pool e amount
apply_owner e (unstakes amount) = unstake_at_pool e amount
apply_owner e unstakes_all = unstake_all_at_pool e
apply_owner e checks_vote = check_transfers_vote e
apply_owner e (transfers amount receiver_id) = transfer_to e amount receiver_id
apply_owner e (adds_key key) = add_owners_key e key
