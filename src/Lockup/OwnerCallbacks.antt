-- ===== src/Lockup/OwnerCallbacks.antt =====
-- lockup/src/owner_callbacks.rs. A `#[callback]` argument is `none` if its promise failed; the call
-- then panics before its body.
use contract_new_project_tem.Prelude.{
  ℕ, Bool, true, false, Option, none, some, ok, panic, expect, Action, ◌>>=◌, ◌>>◌, asks, lift,
  modify, require, pure, checked_add, saturating_sub, u128_mod, ltb, if◌then◌else◌,
}
use contract_new_project_tem.Host.{Env, AccountId}
use contract_new_project_tem.Lockup.State.{
  transfers_enabled, idle, withdraw, on_staking_pool_withdraw, LockupContract,
}
use contract_new_project_tem.Lockup.Internal.{
  create_promise, assert_self, is_promise_success, set_staking_pool_status, assert_no_termination,
  assert_transfers_disabled, assert_staking_pool_is_not_selected, selected_pool,
}

unfoldable pub whitelist_is_whitelisted : Env → Option Bool → AccountId → Action LockupContract Bool
whitelist_is_whitelisted e answer staking_pool_account_id = do
  assert_self e
  listed ← lift (expect answer "Callback computation 0 was not successful")
  require listed "The given staking pool account ID is not whitelisted"
  assert_staking_pool_is_not_selected
  assert_no_termination
  modify (λ s. record s {
    staking_information = some (record {
      staking_pool_account_id = staking_pool_account_id;
      status = idle;
      deposit_amount = 0;
    });
  })
  pure true

-- `staking_information.as_mut().unwrap().deposit_amount.0 += amount.0`.
unfoldable pub add_deposit : ℕ → Action LockupContract (Unit {0})
add_deposit amount s = elim s.staking_information [
  | none ↦ panic "called `Option::unwrap()` on a `None` value"
  | some i ↦ elim (checked_add u128_mod i.deposit_amount amount) [
    | ok sum ↦ ok (tt, record s { staking_information = some (record i { deposit_amount = sum }) })
    | panic m ↦ panic m
  ]
]

unfoldable pub take_deposit : ℕ → Action LockupContract (Unit {0})
take_deposit amount s = elim s.staking_information [
  | none ↦ panic "called `Option::unwrap()` on a `None` value"
  | some i ↦ ok (
    tt,
    record s {
      staking_information =
          some (record i { deposit_amount = saturating_sub i.deposit_amount amount });
    },
  )
]

unfoldable pub staking_pool_deposit : Env → ℕ → Action LockupContract Bool
staking_pool_deposit e amount = do
  assert_self e
  deposit_succeeded ← lift (is_promise_success e.promise_results)
  set_staking_pool_status idle
  (if deposit_succeeded then add_deposit amount else pure tt)
  pure deposit_succeeded

unfoldable pub staking_pool_deposit_and_stake : Env → ℕ → Action LockupContract Bool
staking_pool_deposit_and_stake e amount = do
  assert_self e
  deposit_and_stake_succeeded ← lift (is_promise_success e.promise_results)
  set_staking_pool_status idle
  (if deposit_and_stake_succeeded then add_deposit amount else pure tt)
  pure deposit_and_stake_succeeded

unfoldable pub staking_pool_withdraw : Env → ℕ → Action LockupContract Bool
staking_pool_withdraw e amount = do
  assert_self e
  withdraw_succeeded ← lift (is_promise_success e.promise_results)
  set_staking_pool_status idle
  (if withdraw_succeeded then take_deposit amount else pure tt)
  pure withdraw_succeeded

unfoldable pub staking_pool_stake : Env → ℕ → Action LockupContract Bool
staking_pool_stake e amount = do
  assert_self e
  stake_succeeded ← lift (is_promise_success e.promise_results)
  set_staking_pool_status idle
  pure stake_succeeded

unfoldable pub staking_pool_unstake : Env → ℕ → Action LockupContract Bool
staking_pool_unstake e amount = do
  assert_self e
  unstake_succeeded ← lift (is_promise_success e.promise_results)
  set_staking_pool_status idle
  pure unstake_succeeded

unfoldable pub staking_pool_unstake_all : Env → Action LockupContract Bool
staking_pool_unstake_all e = do
  assert_self e
  unstake_all_succeeded ← lift (is_promise_success e.promise_results)
  set_staking_pool_status idle
  pure unstake_all_succeeded

unfoldable pub get_result_from_transfer_poll : Env → Option (Option ℕ) → Action LockupContract Bool
get_result_from_transfer_poll e answer = do
  assert_self e
  poll_result ← lift (expect answer "Callback computation 0 was not successful")
  assert_transfers_disabled
  elim poll_result [
    | none ↦ pure false
    | some transfers_timestamp ↦
        modify (λ s. record s {
          lockup_information = record s.lockup_information {
            transfers_information = transfers_enabled transfers_timestamp;
          };
        })
        >> pure true
  ]

unfoldable pub total_balance_known : Env → Option ℕ → Action LockupContract (Unit {0})
total_balance_known e answer = do
  assert_self e
  total_balance ← lift (expect answer "Callback computation 0 was not successful")
  set_staking_pool_status idle
  modify (λ s. record s {
    staking_information = elim s.staking_information [
      | none ↦ none
      | some i ↦ some (record i { deposit_amount = total_balance })
    ];
  })

unfoldable pub unstaked_balance_to_withdraw_by_owner :
    Env → Option ℕ → Action LockupContract (Unit {0})
unstaked_balance_to_withdraw_by_owner e answer = do
  assert_self e
  unstaked_balance ← lift (expect answer "Callback computation 0 was not successful")
  if ltb 0 unstaked_balance
      then (asks (λ s. selected_pool s.staking_information) >>= λ pool. modify (
          create_promise pool (withdraw unstaked_balance) 0
            (some (on_staking_pool_withdraw unstaked_balance))))
      else set_staking_pool_status idle
