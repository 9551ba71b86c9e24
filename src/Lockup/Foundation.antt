-- ===== src/Lockup/Foundation.antt =====
-- lockup/src/foundation.rs: the foundation's methods. `hash` is sha256 of the serialised schedule.
use Prim.Native.Nat.{min}
use contract_new_project_tem.Prelude.{
  ℕ, Bool, true, false, ◌&&◌, Option, none, some, Action, ◌>>=◌, ◌>>◌, gets, asks, modify, require,
  fail, saturating_sub, ltb, if◌then◌else◌,
}
use contract_new_project_tem.Host.{Env, AccountId}
use contract_new_project_tem.Lockup.State.{
  busy, TerminationStatus, vesting_terminated_with_deficit, unstaking_in_progress,
  everything_unstaked, withdrawing_from_staking_pool_in_progress, ready_to_withdraw,
  withdrawing_from_account_in_progress, terminating, VestingScheduleWithSalt,
  get_account_staked_balance, get_account_unstaked_balance, transfer,
  on_get_account_staked_balance_to_unstake, on_get_account_unstaked_balance_to_withdraw,
  on_withdraw_unvested_amount, LockupContract, is_some,
}
use contract_new_project_tem.Lockup.Getters.{
  get_account_balance, get_unvested_amount, get_termination_status, get_terminated_unvested_balance,
}
use contract_new_project_tem.Lockup.Internal.{
  create_promise, set_staking_pool_status, set_termination_status, assert_vesting,
  assert_staking_pool_is_idle, assert_called_by_foundation, selected_pool,
}

unfoldable pub terminate_vesting :
    (VestingScheduleWithSalt → ℕ)
    → Env
    → Option VestingScheduleWithSalt
    → Action LockupContract (Unit {0})
terminate_vesting hash e vesting_schedule_with_salt = do
  assert_called_by_foundation e
  schedule ← asks (assert_vesting hash vesting_schedule_with_salt)
  unvested_amount ← asks (get_unvested_amount e schedule)
  require (ltb 0 unvested_amount) "The account is fully vested"
  let deficit = saturating_sub unvested_amount (get_account_balance e)
  selected ← gets (λ s. is_some s.staking_information)
  modify (λ s. record s {
    vesting_information = terminating (record {
      unvested_amount = unvested_amount;
      status =
          if ltb 0 deficit && selected then vesting_terminated_with_deficit else ready_to_withdraw;
    });
  })

-- The two steps of `termination_prepare_to_withdraw`. The balance is asked of the contract's own
-- account, with the pool as the argument.
abbrev pub prepare : Env → Option TerminationStatus → Action LockupContract (Unit {0})
prepare e none = fail "There is no termination in progress"
prepare e (some unstaking_in_progress) = fail "Another transaction is already in progress."
prepare e (some withdrawing_from_staking_pool_in_progress) =
    fail "Another transaction is already in progress."
prepare e (some withdrawing_from_account_in_progress) =
    fail "Another transaction is already in progress."
prepare e (some ready_to_withdraw) = fail "The account is ready to withdraw unvested balance."
prepare e (some vesting_terminated_with_deficit) = do
  set_termination_status unstaking_in_progress
  set_staking_pool_status busy
  pool ← asks (λ s. selected_pool s.staking_information)
  modify (
      create_promise e.current_account_id (get_account_staked_balance pool) 0
        (some on_get_account_staked_balance_to_unstake))
prepare e (some everything_unstaked) = do
  set_termination_status withdrawing_from_staking_pool_in_progress
  set_staking_pool_status busy
  pool ← asks (λ s. selected_pool s.staking_information)
  modify (
      create_promise e.current_account_id (get_account_unstaked_balance pool) 0
        (some on_get_account_unstaked_balance_to_withdraw))

unfoldable pub termination_prepare_to_withdraw : Env → Action LockupContract (Unit {0})
termination_prepare_to_withdraw e = do
  assert_called_by_foundation e
  assert_staking_pool_is_idle
  status ← gets get_termination_status
  prepare e status

abbrev pub is_ready : Option TerminationStatus → Bool
is_ready none = false
is_ready (some vesting_terminated_with_deficit) = false
is_ready (some unstaking_in_progress) = false
is_ready (some everything_unstaked) = false
is_ready (some withdrawing_from_staking_pool_in_progress) = false
is_ready (some ready_to_withdraw) = true
is_ready (some withdrawing_from_account_in_progress) = false

unfoldable pub termination_withdraw : Env → AccountId → Action LockupContract (Unit {0})
termination_withdraw e receiver_id = do
  assert_called_by_foundation e
  require (e.is_valid_account_id receiver_id) "The receiver account ID is invalid"
  status ← gets get_termination_status
  require (is_ready status) "Termination status is not ready to withdraw"
  unvested ← gets get_terminated_unvested_balance
  let amount = min unvested (get_account_balance e)
  require (ltb 0 amount) "The account doesn't have enough liquid balance to withdraw any amount"
  set_termination_status withdrawing_from_account_in_progress
  modify (
      create_promise receiver_id (transfer amount) 0
        (some (on_withdraw_unvested_amount amount receiver_id)))
