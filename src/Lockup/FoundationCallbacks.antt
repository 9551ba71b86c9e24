-- ===== src/Lockup/FoundationCallbacks.antt =====
-- lockup/src/foundation_callbacks.rs. A `#[callback]` argument is `none` if its promise failed.
use contract_new_project_tem.Prelude.{
  ℕ, ◌-◌, Bool, Option, none, some, expect, Action, ◌>>=◌, ◌>>◌, gets, asks, lift, modify, pure,
  checked_add, u128_mod, ltb, if◌then◌else◌,
}
use contract_new_project_tem.Host.{Env, AccountId}
use contract_new_project_tem.Lockup.State.{
  idle, vesting_terminated_with_deficit, everything_unstaked, ready_to_withdraw, no_vesting,
  terminating, unstake, withdraw, on_staking_pool_unstake_for_termination,
  on_staking_pool_withdraw_for_termination, LockupContract,
}
use contract_new_project_tem.Lockup.Getters.{get_terminated_unvested_balance}
use contract_new_project_tem.Lockup.Internal.{
  create_promise, assert_self, is_promise_success, set_staking_pool_status, set_termination_status,
  selected_pool,
}
use contract_new_project_tem.Lockup.OwnerCallbacks.{take_deposit}

unfoldable pub staked_balance_to_unstake : Env → Option ℕ → Action LockupContract (Unit {0})
staked_balance_to_unstake e answer = do
  assert_self e
  staked_balance ← lift (expect answer "Callback computation 0 was not successful")
  if ltb 0 staked_balance
      then (asks (λ s. selected_pool s.staking_information) >>= λ pool. modify (
          create_promise pool (unstake staked_balance) 0
            (some (on_staking_pool_unstake_for_termination staked_balance))))
      else (set_staking_pool_status idle >> set_termination_status everything_unstaked)

unfoldable pub staking_pool_unstake_for_termination : Env → ℕ → Action LockupContract Bool
staking_pool_unstake_for_termination e amount = do
  assert_self e
  unstake_succeeded ← lift (is_promise_success e.promise_results)
  set_staking_pool_status idle
  set_termination_status
      (if unstake_succeeded then everything_unstaked else vesting_terminated_with_deficit)
  pure unstake_succeeded

unfoldable pub unstaked_balance_to_withdraw : Env → Option ℕ → Action LockupContract (Unit {0})
unstaked_balance_to_withdraw e answer = do
  assert_self e
  unstaked_balance ← lift (expect answer "Callback computation 0 was not successful")
  if ltb 0 unstaked_balance
      then (asks (λ s. selected_pool s.staking_information) >>= λ pool. modify (
          create_promise pool (withdraw unstaked_balance) 0
            (some (on_staking_pool_withdraw_for_termination unstaked_balance))))
      else (set_staking_pool_status idle >> set_termination_status ready_to_withdraw)

unfoldable pub staking_pool_withdraw_for_termination : Env → ℕ → Action LockupContract Bool
staking_pool_withdraw_for_termination e amount = do
  assert_self e
  withdraw_succeeded ← lift (is_promise_success e.promise_results)
  set_staking_pool_status idle
  (if withdraw_succeeded
      then (set_termination_status ready_to_withdraw >> take_deposit amount)
      else set_termination_status everything_unstaked)
  pure withdraw_succeeded

-- The successful branch of `on_withdraw_unvested_amount`.
abbrev pub count_withdrawal : ℕ → Action LockupContract (Unit {0})
count_withdrawal amount = do
  withdrawn ← gets (λ s. s.lockup_information.termination_withdrawn_tokens)
  sum ← lift (checked_add u128_mod withdrawn amount)
  modify (λ s. record s {
    lockup_information = record s.lockup_information { termination_withdrawn_tokens = sum };
  })
  unvested_amount ← gets get_terminated_unvested_balance
  if ltb amount unvested_amount
      then modify (λ s. record s {
        vesting_information =
            terminating
              (record { unvested_amount = unvested_amount - amount; status = ready_to_withdraw });
      })
      else modify (λ s. record s { foundation_account_id = none; vesting_information = no_vesting })

unfoldable pub withdraw_unvested_amount : Env → ℕ → AccountId → Action LockupContract Bool
withdraw_unvested_amount e amount receiver_id = do
  assert_self e
  withdraw_succeeded ← lift (is_promise_success e.promise_results)
  (if withdraw_succeeded then count_withdrawal amount else set_termination_status ready_to_withdraw)
  pure withdraw_succeeded
