-- ===== src/Lockup/Guards.antt =====
-- Who and what stops the owner's methods of lockup/src/owner.rs.
use contract_new_project_tem.Prelude.{◌≡◌, Bool, true, false, not, ◌&&◌, ◌||◌, Holds, arith, ◌==◌}
use contract_new_project_tem.Host.{Env}
use contract_new_project_tem.Lockup.State.{LockupContract}
use contract_new_project_tem.Lockup.Internal.{
  is_terminating, none_or_idle, set_staking_pool_status, assert_no_termination,
  assert_transfers_enabled, assert_transfers_disabled, assert_no_staking_or_idle,
  assert_staking_pool_is_idle, assert_staking_pool_is_not_selected, assert_owner,
}
use contract_new_project_tem.Lockup.Owner.{
  select_staking_pool, unselect_staking_pool, deposit_to_staking_pool, deposit_and_stake_at_pool,
  refresh_staking_pool_balance, withdraw_from_staking_pool, withdraw_all_from_staking_pool,
  stake_at_pool, unstake_at_pool, unstake_all_at_pool, check_transfers_vote, transfer_to,
  add_owners_key,
}
use contract_new_project_tem.Lockup.Calls.{
  OwnerCall, selects, unselects, deposits, deposits_and_stakes, refreshes, withdraws, withdraws_all,
  stakes, unstakes, unstakes_all, checks_vote, transfers, adds_key, apply_owner,
}

-- Only the question about the vote is open while the pool is busy.
abbrev pub is_question : OwnerCall → Bool
is_question (selects _) = false
is_question unselects = false
is_question (deposits _) = false
is_question (deposits_and_stakes _) = false
is_question refreshes = false
is_question (withdraws _) = false
is_question withdraws_all = false
is_question (stakes _) = false
is_question (unstakes _) = false
is_question unstakes_all = false
is_question checks_vote = true
is_question (transfers _ _) = false
is_question (adds_key _) = false

-- What has to hold for any of the owner's methods to go through.
abbrev pub may_act : Env → OwnerCall → LockupContract → Bool
may_act e c s =
    e.predecessor_account_id == s.owner_account_id
    && not (is_terminating s.vesting_information)
    && (is_question c || none_or_idle s.staking_information)

-- An owner's method that goes through was called by the owner, with no termination in progress and,
-- but for the question about the vote, with no operation on the pool in progress.
pub apply_owner_guarded :
    (e : Env) (c : OwnerCall) (s : LockupContract)
    → Holds (λ _. may_act e c s ≡ true) (apply_owner e c s)
unfolding apply_owner select_staking_pool unselect_staking_pool deposit_to_staking_pool
    deposit_and_stake_at_pool refresh_staking_pool_balance withdraw_from_staking_pool
    withdraw_all_from_staking_pool stake_at_pool unstake_at_pool unstake_all_at_pool
    check_transfers_vote transfer_to add_owners_key set_staking_pool_status assert_no_termination
    assert_transfers_enabled assert_transfers_disabled assert_no_staking_or_idle
    assert_staking_pool_is_idle assert_staking_pool_is_not_selected assert_owner
apply_owner_guarded e (selects pool) s = ground arith
apply_owner_guarded e unselects s = ground arith
apply_owner_guarded e (deposits amount) s = ground arith
apply_owner_guarded e (deposits_and_stakes amount) s = ground arith
apply_owner_guarded e refreshes s = ground arith
apply_owner_guarded e (withdraws amount) s = ground arith
apply_owner_guarded e withdraws_all s = ground arith
apply_owner_guarded e (stakes amount) s = ground arith
apply_owner_guarded e (unstakes amount) s = ground arith
apply_owner_guarded e unstakes_all s = ground arith
apply_owner_guarded e checks_vote s = ground arith
apply_owner_guarded e (transfers amount receiver_id) s = ground arith
apply_owner_guarded e (adds_key key) s = ground arith
