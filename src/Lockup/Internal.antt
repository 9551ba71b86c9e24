-- ===== src/Lockup/Internal.antt =====
-- lockup/src/internal.rs: the guards and the changes of status. `hash` is sha256 of the serialised
-- schedule.
use contract_new_project_tem.Prelude.{
  ℕ, Bool, true, false, not, Option, none, some, List, [], ◌∷◌, Outcome, ok, panic, bind, ensure,
  Action, ◌>>=◌, ◌>>◌, gets, lift, require, ◌==◌,
}
use contract_new_project_tem.Host.{Env, AccountId, PromiseResult, successful, failed}
use contract_new_project_tem.Lockup.State.{
  TransactionStatus, idle, busy, StakingInformation, VestingSchedule, TerminationStatus,
  VestingInformation, no_vesting, vesting_hash, vesting_schedule, terminating,
  VestingScheduleWithSalt, Request, Callback, LockupContract, is_some, is_none,
}
use contract_new_project_tem.Lockup.Getters.{are_transfers_enabled}

-- A new promise is the head of the list.
abbrev pub create_promise :
    AccountId → Request → ℕ → Option Callback → LockupContract → LockupContract
create_promise receiver_id request deposit callback s = record s {
  promises =
      record {
        receiver_id = receiver_id;
        request = request;
        attached_deposit = deposit;
        callback = callback;
      }
      ∷ s.promises;
}

-- `unc_sdk::assert_self`.
abbrev pub assert_self : Env → Action LockupContract (Unit {0})
assert_self e = require (e.predecessor_account_id == e.current_account_id) "Method is private"

-- `unc_sdk::is_promise_success`.
abbrev pub is_promise_success : List PromiseResult → Outcome Bool
is_promise_success (successful ∷ []) = ok true
is_promise_success (failed ∷ []) = ok false
is_promise_success _ =
    bind (ensure false "Contract expected a result on the callback") λ _. ok false

unfoldable pub set_staking_pool_status : TransactionStatus → Action LockupContract (Unit {0})
set_staking_pool_status status s = elim s.staking_information [
  | none ↦ panic "Staking pool should be selected"
  | some i ↦ ok (tt, record s { staking_information = some (record i { status = status }) })
]

abbrev pub with_status : TerminationStatus → VestingInformation → Outcome VestingInformation
with_status status no_vesting = panic "The vesting information is not at the terminating stage"
with_status status (vesting_hash _) =
    panic "The vesting information is not at the terminating stage"
with_status status (vesting_schedule _) =
    panic "The vesting information is not at the terminating stage"
with_status status (terminating t) = ok (terminating (record t { status = status }))

unfoldable pub set_termination_status : TerminationStatus → Action LockupContract (Unit {0})
set_termination_status status s = elim (with_status status s.vesting_information) [
  | ok vesting ↦ ok (tt, record s { vesting_information = vesting })
  | panic m ↦ panic m
]

abbrev pub revealed :
    (VestingScheduleWithSalt → ℕ)
    → Option VestingScheduleWithSalt
    → VestingInformation
    → Outcome VestingSchedule
revealed hash given no_vesting = panic "Vesting is None"
revealed hash none (vesting_hash h) =
    panic "Expected vesting schedule and salt, but it was not provided"
revealed hash (some v) (vesting_hash h) =
    bind (ensure (hash v == h) "Presented vesting schedule and salt don't match the hash")
      λ _. ok v.vesting_schedule
revealed hash given (vesting_schedule v) =
    bind (ensure (is_none given) "Explicit vesting schedule exists") λ _. ok v
revealed hash given (terminating _) = panic "Vesting was terminated"

unfoldable pub assert_vesting :
    (VestingScheduleWithSalt → ℕ)
    → Option VestingScheduleWithSalt
    → LockupContract
    → Outcome VestingSchedule
assert_vesting hash given s = revealed hash given s.vesting_information

abbrev pub is_terminating : VestingInformation → Bool
is_terminating no_vesting = false
is_terminating (vesting_hash _) = false
is_terminating (vesting_schedule _) = false
is_terminating (terminating _) = true

unfoldable pub assert_no_termination : Action LockupContract (Unit {0})
assert_no_termination s =
    require (not (is_terminating s.vesting_information))
      "All operations are blocked until vesting termination is completed" s

unfoldable pub assert_transfers_enabled : Action LockupContract (Unit {0})
assert_transfers_enabled s = require (are_transfers_enabled s) "Transfers are disabled" s

unfoldable pub assert_transfers_disabled : Action LockupContract (Unit {0})
assert_transfers_disabled s =
    require (not (are_transfers_enabled s)) "Transfers are already enabled" s

abbrev pub is_idle : TransactionStatus → Bool
is_idle idle = true
is_idle busy = false

abbrev pub none_or_idle : Option StakingInformation → Bool
none_or_idle none = true
none_or_idle (some i) = is_idle i.status

unfoldable pub assert_no_staking_or_idle : Action LockupContract (Unit {0})
assert_no_staking_or_idle s =
    require (none_or_idle s.staking_information) "Contract is currently busy with another operation"
      s

-- The pool of an idle contract.
unfoldable pub assert_staking_pool_is_idle : Action LockupContract (Unit {0})
assert_staking_pool_is_idle = do
  selected ← gets (λ s. is_some s.staking_information)
  require selected "Staking pool is not selected"
  free ← gets (λ s. none_or_idle s.staking_information)
  require free "Contract is currently busy with another operation"

unfoldable pub assert_staking_pool_is_not_selected : Action LockupContract (Unit {0})
assert_staking_pool_is_not_selected s =
    require (is_none s.staking_information) "Staking pool is already selected" s

abbrev pub foundation_is : AccountId → Option AccountId → Outcome (Unit {0})
foundation_is account none = panic "No UNC Foundation account is specified in the contract"
foundation_is account (some foundation) =
    ensure (account == foundation) "Can only be called by UNC Foundation"

unfoldable pub assert_called_by_foundation : Env → Action LockupContract (Unit {0})
assert_called_by_foundation e s =
    lift (foundation_is e.predecessor_account_id s.foundation_account_id) s

unfoldable pub assert_owner : Env → Action LockupContract (Unit {0})
assert_owner e s =
    require (e.predecessor_account_id == s.owner_account_id) "Can only be called by the owner" s

-- `staking_information.as_ref().unwrap().staking_pool_account_id`.
abbrev pub selected_pool : Option StakingInformation → Outcome AccountId
selected_pool none = panic "called `Option::unwrap()` on a `None` value"
selected_pool (some i) = ok i.staking_pool_account_id
