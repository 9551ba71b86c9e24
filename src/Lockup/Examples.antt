-- ===== src/Lockup/Examples.antt =====
-- Runs of lockup/src.
use contract_new_project_tem.Prelude.{
  ℕ, ◌+◌, ◌-◌, ◌≤◌, ◌<◌, ◌≡◌, refl, true, none, some, [], ◌∷◌, Holds, Succeeds, ok, arith,
}
use contract_new_project_tem.Host.{Env}
use contract_new_project_tem.Prelude.{◌⊎◌}
use contract_new_project_tem.Host.{successful, failed}
use contract_new_project_tem.Samples.{call_by}
use contract_new_project_tem.Lockup.State.{
  LockupContract, VestingSchedule, VestingScheduleWithSalt, transfers_enabled, vesting_schedule,
  terminating, ready_to_withdraw, withdrawing_from_account_in_progress, idle, transfer,
  min_balance_for_storage, assert_valid,
}
use contract_new_project_tem.Lockup.Getters.{
  scheduled, get_locked_amount, get_known_deposited_balance, get_terminated_unvested_balance,
  are_transfers_enabled, unreleased,
}
use contract_new_project_tem.Lockup.Internal.{create_promise}
use contract_new_project_tem.Lockup.Owner.{transfer_to}
use contract_new_project_tem.Lockup.Foundation.{terminate_vesting}
use contract_new_project_tem.Lockup.FoundationCallbacks.{withdraw_unvested_amount}
use contract_new_project_tem.Lockup.Calls.{unselects, apply_owner}
use contract_new_project_tem.Lockup.Guards.{may_act, apply_owner_guarded}
use contract_new_project_tem.Lockup.Transfers.{amount_of, transfer_to_covered}
use contract_new_project_tem.Lockup.Locked.{IsCovered, get_locked_amount_falls}
use contract_new_project_tem.Lockup.Termination.{
  withdraw_unvested_amount_moves, terminate_vesting-IsCovered,
}

-- From 100 on, with a cliff at 300, until 900. Account 1 owns, account 2 is the foundation.
abbrev schedule : VestingSchedule
schedule = record { start_timestamp = 100; cliff_timestamp = 300; end_timestamp = 900 }

abbrev contract : LockupContract
contract = record {
  owner_account_id = 1;
  lockup_information = record {
    lockup_amount = 800;
    termination_withdrawn_tokens = 0;
    lockup_duration = 0;
    release_duration = none;
    lockup_timestamp = none;
    transfers_information = transfers_enabled 50;
  };
  vesting_information = vesting_schedule schedule;
  staking_pool_whitelist_account_id = 5;
  staking_information =
      some (record { staking_pool_account_id = 6; status = idle; deposit_amount = 0 });
  foundation_account_id = some 2;
  promises = [];
}

abbrev rich : Env → Env
rich e = record e { account_balance = min_balance_for_storage + 800 }

-- The vesting is over.
abbrev late : Env
late = record (rich (call_by 1)) { block_timestamp = 900 }

-- Half of the time is left at 500.
locked_half : get_locked_amount (call_by 1) contract ≡ ok 400
unfolding get_locked_amount unreleased scheduled
locked_half = refl

get_locked_amount_falls_example :
    Succeeds (get_locked_amount (call_by 1) contract)
    × (amount_of (get_locked_amount late contract)
        ≤ amount_of (get_locked_amount (call_by 1) contract))
    × (amount_of (get_locked_amount (call_by 1) contract) ≤ 800 - 0)
unfolding assert_valid
get_locked_amount_falls_example =
    get_locked_amount_falls (call_by 1) late contract (omega arith, omega arith, (refl, refl))
      (omega arith)

transfer_to_covered_example :
    Holds
      (λ r.
        (are_transfers_enabled contract ≡ true)
        × Succeeds (get_locked_amount late contract)
        × (300 + amount_of (get_locked_amount late contract)
            ≤ late.account_balance + get_known_deposited_balance contract)
        × (300 + min_balance_for_storage ≤ late.account_balance)
        × (r.1 ≡ create_promise 9 (transfer 300) 0 none contract))
      (transfer_to late 300 9 contract)
transfer_to_covered_example = transfer_to_covered late 300 9 contract

apply_owner_guarded_example :
    Holds
      (λ _. may_act (call_by 1) unselects contract ≡ true)
      (apply_owner (call_by 1) unselects contract)
apply_owner_guarded_example = apply_owner_guarded (call_by 1) unselects contract

abbrev no_hash : VestingScheduleWithSalt → ℕ
no_hash v = v.salt

terminate_vesting-IsCovered_example :
    Holds
      (λ r.
        IsCovered r.1.lockup_information r.1.vesting_information
        × (0 < get_terminated_unvested_balance r.1)
        × (r.1.lockup_information ≡ contract.lockup_information))
      (terminate_vesting no_hash (rich (call_by 2)) none contract)
unfolding assert_valid
terminate_vesting-IsCovered_example =
    terminate_vesting-IsCovered no_hash (rich (call_by 2)) none contract
      (omega arith, omega arith, (refl, refl)) tt

-- At 500, with 400 unvested.
abbrev terminated_contract : LockupContract
terminated_contract = record contract {
  vesting_information = terminating (record { unvested_amount = 400; status = ready_to_withdraw });
}

abbrev paying : LockupContract
paying = record contract {
  vesting_information =
      terminating (record { unvested_amount = 400; status = withdrawing_from_account_in_progress });
}

withdraw_unvested_amount_moves_example :
    Holds
      (λ r.
        IsCovered r.1.lockup_information r.1.vesting_information
        × (r.1.lockup_information.termination_withdrawn_tokens + get_terminated_unvested_balance r.1
            ≡ 0 + get_terminated_unvested_balance paying)
        × ((call_by 100).predecessor_account_id ≡ 100)
        × ((((call_by 100).promise_results ≡ successful ∷ [])
              × (get_terminated_unvested_balance r.1
                  ≡ get_terminated_unvested_balance paying - 150))
            ⊎ (((call_by 100).promise_results ≡ failed ∷ [])
                × (get_terminated_unvested_balance r.1 ≡ get_terminated_unvested_balance paying))))
      (withdraw_unvested_amount (call_by 100) 150 9 paying)
unfolding get_terminated_unvested_balance
withdraw_unvested_amount_moves_example =
    withdraw_unvested_amount_moves (call_by 100) 150 9 paying
      (omega arith, omega arith, omega arith) (omega arith)
