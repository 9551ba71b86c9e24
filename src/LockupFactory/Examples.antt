-- ===== src/LockupFactory/Examples.antt =====
-- Runs of lockup-factory/src/lib.rs.
use contract_new_project_tem.Prelude.{
  ◌+◌, ◌*◌, ◌≤◌, ◌≡◌, refl, false, none, some, [], ◌∷◌, Holds, ok, panic,
}
use contract_new_project_tem.Host.{Env, AccountId, failed}
use contract_new_project_tem.Samples.{call_by}
use contract_new_project_tem.Lockup.State.{VestingScheduleOrHash, explicit, transfers_enabled}
use contract_new_project_tem.LockupFactory.{
  LockupArgs, LockupFactory, create_lockup, transfer, lockup_create, min_attached_balance,
  transfers_started, create, on_lockup_create,
}
use contract_new_project_tem.LockupFactory.Creation.{install, Starts, create-Starts}

-- The lockup of an owner has the owner's id behind the factory's.
abbrev hashed_id : AccountId → AccountId → AccountId
hashed_id owner factory = 1000 * factory + owner

abbrev payer : Env
payer = record (call_by 3) { attached_deposit = min_attached_balance + 5 }

abbrev failure : Env
failure = record (call_by 100) { promise_results = failed ∷ [] }

abbrev factory : LockupFactory
factory = record { whitelist_account_id = 9; foundation_account_id = 8; promises = [] }

abbrev schedule : VestingScheduleOrHash
schedule = explicit (record { start_timestamp = 10; cliff_timestamp = 20; end_timestamp = 50 })

creation_asks :
    Holds
      (λ r.
        r.1.promises
        ≡ record {
          receiver_id = 100_004;
          request = create_lockup (min_attached_balance + 5) (record {
            owner_account_id = 4;
            lockup_duration = 70;
            lockup_timestamp = none;
            transfers_information = transfers_enabled transfers_started;
            vesting_schedule = some schedule;
            release_duration = some 90;
            staking_pool_whitelist_account_id = 9;
            foundation_account_id = some 8;
          });
          callback = some (lockup_create 100_004 (min_attached_balance + 5) 3);
        }
          ∷ [])
      (create hashed_id payer 4 70 none (some schedule) (some 90) none factory)
unfolding create
creation_asks = refl

create-Starts_example :
    Holds
      (λ r.
        (min_attached_balance ≤ min_attached_balance + 5)
        × (args : LockupArgs) × (r.1.promises
            ≡ record {
              receiver_id = 100_004;
              request = create_lockup (min_attached_balance + 5) args;
              callback = some (lockup_create 100_004 (min_attached_balance + 5) 3);
            }
              ∷ [])
        × Starts (call_by 100) 4 70 none (some schedule) (some 90) 8 (install (call_by 100) args)
        × (elim (on_lockup_create failure 100_004 (min_attached_balance + 5) 3 r.1)
            as (λ _. Type 0) [
              | panic _ ↦ ⊥
              | ok u ↦
                  (u.0 ≡ false)
                  × (u.1.promises
                      ≡ record {
                        receiver_id = 3;
                        request = transfer (min_attached_balance + 5);
                        callback = none;
                      }
                        ∷ r.1.promises)
            ]))
      (create hashed_id payer 4 70 none (some schedule) (some 90) none factory)
create-Starts_example =
    create-Starts hashed_id payer (call_by 100) failure 4 70 none (some schedule) (some 90) none
      factory refl refl refl refl refl
