-- ===== src/StakingPoolFactory/Examples.antt =====
-- Runs of staking-pool-factory/src/lib.rs.
use contract_new_project_tem.Prelude.{
  ◌+◌, ◌≡◌, refl, Bool, true, false, none, some, [], ◌∷◌, Holds, IsPanic, ok, panic,
}
use contract_new_project_tem.Prelude.Map.{lookup, insert}
use contract_new_project_tem.Host.{Env, AccountId, failed}
use contract_new_project_tem.Samples.{call_by}
use contract_new_project_tem.StakingPoolFactory.{
  StakingPoolArgs, StakingPoolFactory, create_pool, staking_pool_create, add_staking_pool, transfer,
  contains, create_staking_pool, on_staking_pool_create, min_attached_balance, assert_valid,
}
use contract_new_project_tem.StakingPoolFactory.Creation.{creation_settles}

-- No id has a dot, and the pools are numbered from 1000 on.
abbrev no_dot : AccountId → Bool
no_dot id = false

abbrev numbered : AccountId → AccountId → AccountId
numbered id factory = id + 1000

abbrev payer : Env
payer = record (call_by 3) { attached_deposit = min_attached_balance }

abbrev failure : Env
failure = record (call_by 100) { promise_results = failed ∷ [] }

abbrev terms : StakingPoolArgs
terms = record {
  owner_id = 4;
  stake_public_key = 8;
  reward_fee_fraction = record { numerator = 1; denominator = 10 };
}

abbrev factory : StakingPoolFactory
factory = record {
  staking_pool_whitelist_account_id = 9;
  staking_pool_account_ids = (1001, tt) ∷ [];
  promises = [];
}

creation_asks :
    Holds
      (λ r. contains 1002 r.1 ≡ true)
      (create_staking_pool no_dot numbered payer 2 terms factory)
unfolding create_staking_pool assert_valid lookup insert
creation_asks = refl

creation_settles_example :
    Holds
      (λ r.
        (contains 1002 factory ≡ false)
        × (r.1.promises
            ≡ record {
              receiver_id = 1002;
              request = create_pool min_attached_balance terms;
              callback = some (staking_pool_create 1002 min_attached_balance 3);
            }
              ∷ factory.promises)
        × IsPanic (create_staking_pool no_dot numbered payer 2 terms r.1)
        × (elim (on_staking_pool_create failure 1002 min_attached_balance 3 r.1) as (λ _. Type 0) [
          | panic _ ↦ ⊥
          | ok u ↦
              (u.0 ≡ false)
              × (contains 1001 u.1 ≡ contains 1001 factory)
              × (u.1.promises
                  ≡ record {
                    receiver_id = 3;
                    request = transfer min_attached_balance;
                    callback = none;
                  }
                    ∷ r.1.promises)
        ])
        × (elim (on_staking_pool_create (call_by 100) 1002 min_attached_balance 3 r.1)
            as (λ _. Type 0) [
              | panic _ ↦ ⊥
              | ok u ↦
                  (u.0 ≡ true)
                  × (contains 1002 u.1 ≡ true)
                  × (u.1.promises
                      ≡ record {
                        receiver_id = 100;
                        request = add_staking_pool 1002;
                        callback = none;
                      }
                        ∷ r.1.promises)
            ]))
      (create_staking_pool no_dot numbered payer 2 terms factory)
creation_settles_example =
    creation_settles no_dot numbered payer failure (call_by 100) 2 1001 terms factory (refl, refl)
      (refl, refl)
