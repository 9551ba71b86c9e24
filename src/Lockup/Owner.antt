-- ===== src/Lockup/Owner.antt =====
-- lockup/src/owner.rs: the owner's methods.
use contract_new_project_tem.Prelude.{
  ℕ, none, some, Action, ◌>>=◌, ◌>>◌, gets, asks, modify, require, ltb, leb, ◌==◌,
}
use contract_new_project_tem.Host.{Env, AccountId, PublicKey}
use contract_new_project_tem.Lockup.State.{
  busy, Request, deposit, deposit_and_stake, withdraw, stake, unstake, unstake_all, is_whitelisted,
  get_result, transfer, add_full_access_key, get_account_total_balance,
  get_account_unstaked_balance, Callback, on_whitelist_is_whitelisted, on_staking_pool_deposit,
  on_staking_pool_deposit_and_stake, on_staking_pool_withdraw, on_staking_pool_stake,
  on_staking_pool_unstake, on_staking_pool_unstake_all, on_get_result_from_transfer_poll,
  on_get_account_total_balance, on_get_account_unstaked_balance_to_withdraw_by_owner,
  LockupContract,
}
use contract_new_project_tem.Lockup.Getters.{
  get_account_balance, get_known_deposited_balance, get_liquid_owners_balance, get_locked_amount,
}
use contract_new_project_tem.Lockup.Internal.{
  create_promise, set_staking_pool_status, assert_no_termination, assert_transfers_enabled,
  assert_transfers_disabled, assert_no_staking_or_idle, assert_staking_pool_is_idle,
  assert_staking_pool_is_not_selected, assert_owner, selected_pool,
}

unfoldable pub select_staking_pool : Env → AccountId → Action LockupContract (Unit {0})
select_staking_pool e staking_pool_account_id = do
  assert_owner e
  require (e.is_valid_account_id staking_pool_account_id) "The staking pool account ID is invalid"
  assert_staking_pool_is_not_selected
  assert_no_termination
  whitelist ← gets (λ s. s.staking_pool_whitelist_account_id)
  modify (
      create_promise whitelist (is_whitelisted staking_pool_account_id) 0
        (some (on_whitelist_is_whitelisted staking_pool_account_id)))

unfoldable pub unselect_staking_pool : Env → Action LockupContract (Unit {0})
unselect_staking_pool e = do
  assert_owner e
  assert_staking_pool_is_idle
  assert_no_termination
  deposited ← gets get_known_deposited_balance
  require (deposited == 0) "There is still a deposit on the staking pool"
  modify (λ s. record s { staking_information = none })

-- How the owner's operations on the pool end: the contract is busy until the callback.
abbrev pub call_pool : Request → ℕ → Callback → Action LockupContract (Unit {0})
call_pool request attached_deposit callback = do
  pool ← asks (λ s. selected_pool s.staking_information)
  set_staking_pool_status busy
  modify (create_promise pool request attached_deposit (some callback))

unfoldable pub deposit_to_staking_pool : Env → ℕ → Action LockupContract (Unit {0})
deposit_to_staking_pool e amount = do
  assert_owner e
  require (ltb 0 amount) "Amount should be positive"
  assert_staking_pool_is_idle
  assert_no_termination
  require (leb amount (get_account_balance e))
      "The balance that can be deposited to the staking pool is lower than the extra amount"
  call_pool deposit amount (on_staking_pool_deposit amount)

unfoldable pub deposit_and_stake_at_pool : Env → ℕ → Action LockupContract (Unit {0})
deposit_and_stake_at_pool e amount = do
  assert_owner e
  require (ltb 0 amount) "Amount should be positive"
  assert_staking_pool_is_idle
  assert_no_termination
  require (leb amount (get_account_balance e))
      "The balance that can be deposited to the staking pool is lower than the extra amount"
  call_pool deposit_and_stake amount (on_staking_pool_deposit_and_stake amount)

-- The balance is asked of the contract's own account, with the pool as the argument.
abbrev pub ask_itself : Env → (AccountId → Request) → Callback → Action LockupContract (Unit {0})
ask_itself e request callback = do
  pool ← asks (λ s. selected_pool s.staking_information)
  set_staking_pool_status busy
  modify (create_promise e.current_account_id (request pool) 0 (some callback))

unfoldable pub refresh_staking_pool_balance : Env → Action LockupContract (Unit {0})
refresh_staking_pool_balance e = do
  assert_owner e
  assert_staking_pool_is_idle
  assert_no_termination
  ask_itself e get_account_total_balance on_get_account_total_balance

unfoldable pub withdraw_from_staking_pool : Env → ℕ → Action LockupContract (Unit {0})
withdraw_from_staking_pool e amount = do
  assert_owner e
  require (ltb 0 amount) "Amount should be positive"
  assert_staking_pool_is_idle
  assert_no_termination
  call_pool (withdraw amount) 0 (on_staking_pool_withdraw amount)

unfoldable pub withdraw_all_from_staking_pool : Env → Action LockupContract (Unit {0})
withdraw_all_from_staking_pool e = do
  assert_owner e
  assert_staking_pool_is_idle
  assert_no_termination
  ask_itself e get_account_unstaked_balance on_get_account_unstaked_balance_to_withdraw_by_owner

unfoldable pub stake_at_pool : Env → ℕ → Action LockupContract (Unit {0})
stake_at_pool e amount = do
  assert_owner e
  require (ltb 0 amount) "Amount should be positive"
  assert_staking_pool_is_idle
  assert_no_termination
  call_pool (stake amount) 0 (on_staking_pool_stake amount)

unfoldable pub unstake_at_pool : Env → ℕ → Action LockupContract (Unit {0})
unstake_at_pool e amount = do
  assert_owner e
  require (ltb 0 amount) "Amount should be positive"
  assert_staking_pool_is_idle
  assert_no_termination
  call_pool (unstake amount) 0 (on_staking_pool_unstake amount)

unfoldable pub unstake_all_at_pool : Env → Action LockupContract (Unit {0})
unstake_all_at_pool e = do
  assert_owner e
  assert_staking_pool_is_idle
  assert_no_termination
  call_pool unstake_all 0 on_staking_pool_unstake_all

-- The result of the poll, too, is asked of the contract's own account.
unfoldable pub check_transfers_vote : Env → Action LockupContract (Unit {0})
check_transfers_vote e = do
  assert_owner e
  assert_transfers_disabled
  assert_no_termination
  modify (create_promise e.current_account_id get_result 0 (some on_get_result_from_transfer_poll))

unfoldable pub transfer_to : Env → ℕ → AccountId → Action LockupContract (Unit {0})
transfer_to e amount receiver_id = do
  assert_owner e
  require (ltb 0 amount) "Amount should be positive"
  require (e.is_valid_account_id receiver_id) "The receiver account ID is invalid"
  assert_transfers_enabled
  assert_no_staking_or_idle
  assert_no_termination
  liquid ← asks (get_liquid_owners_balance e)
  require (leb amount liquid)
      "The available liquid balance is smaller than the requested transfer amount"
  modify (create_promise receiver_id (transfer amount) 0 none)

unfoldable pub add_owners_key : Env → PublicKey → Action LockupContract (Unit {0})
add_owners_key e new_public_key = do
  assert_owner e
  assert_transfers_enabled
  assert_no_staking_or_idle
  assert_no_termination
  locked ← asks (get_locked_amount e)
  require (locked == 0) "Tokens are still locked/unvested"
  modify (create_promise e.current_account_id (add_full_access_key new_public_key) 0 none)
