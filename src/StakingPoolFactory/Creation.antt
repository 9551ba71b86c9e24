-- ===== src/StakingPoolFactory/Creation.antt =====
-- How a creation ends, for staking-pool-factory/src/lib.rs.
use contract_new_project_tem.Prelude.{
  ◌≡◌, Bool, true, false, none, some, [], ◌∷◌, ok, panic, arith, Holds, IsPanic,
}
use contract_new_project_tem.Prelude.Map.{insert, lookup-insert, lookup-remove}
use contract_new_project_tem.Host.{Env, AccountId, PromiseResult, successful, failed}
use contract_new_project_tem.StakingPoolFactory.{
  StakingPoolArgs, StakingPoolFactory, create_pool, staking_pool_create, add_staking_pool, transfer,
  contains, create_staking_pool, is_promise_success, on_staking_pool_create,
}

-- A callback of the factory on itself with this result.
abbrev pub IsCallback : Env → PromiseResult → Type 0
IsCallback f result =
    (f.predecessor_account_id ≡ f.current_account_id) × (f.promise_results ≡ result ∷ [])

-- A creation that goes through is of a pool that the factory did not know, and the same call panics
-- next. It asks for one new account with the deposit, the pool's code and the arguments, and for a
-- callback. If the pool is then not created, the callback, with these arguments, gives the deposit back and the factory knows the
-- same pools as before. If it is created, the factory keeps it and asks its own account, not the
-- whitelist, to list it.
pub creation_settles :
    (has_dot : AccountId → Bool) (sub_account : AccountId → AccountId → AccountId) (e f g : Env)
    (id k : AccountId) (args : StakingPoolArgs) (s : StakingPoolFactory)
    → IsCallback f failed
    → IsCallback g successful
    → Holds
        (λ r.
          (contains (sub_account id e.current_account_id) s ≡ false)
          × (r.1.promises
              ≡ record {
                receiver_id = sub_account id e.current_account_id;
                request = create_pool e.attached_deposit args;
                callback = some (
                    staking_pool_create
                      (sub_account id e.current_account_id)
                      e.attached_deposit
                      e.predecessor_account_id);
              }
                ∷ s.promises)
          × IsPanic (create_staking_pool has_dot sub_account e id args r.1)
          × (elim (on_staking_pool_create f
                (sub_account id e.current_account_id)
                e.attached_deposit
                e.predecessor_account_id
                r.1)
              as (λ _. Type 0) [
                | panic _ ↦ ⊥
                | ok u ↦
                    (u.0 ≡ false)
                    × (contains k u.1 ≡ contains k s)
                    × (u.1.promises
                        ≡ record {
                          receiver_id = e.predecessor_account_id;
                          request = transfer e.attached_deposit;
                          callback = none;
                        }
                          ∷ r.1.promises)
              ])
          × (elim (on_staking_pool_create g
                (sub_account id e.current_account_id)
                e.attached_deposit
                e.predecessor_account_id
                r.1)
              as (λ _. Type 0) [
                | panic _ ↦ ⊥
                | ok u ↦
                    (u.0 ≡ true)
                    × (contains (sub_account id e.current_account_id) u.1 ≡ true)
                    × (u.1.promises
                        ≡ record {
                          receiver_id = g.current_account_id;
                          request = add_staking_pool (sub_account id e.current_account_id);
                          callback = none;
                        }
                          ∷ r.1.promises)
              ]))
        (create_staking_pool has_dot sub_account e id args s)
unfolding create_staking_pool on_staking_pool_create is_promise_success
creation_settles has_dot sub_account e f g id k args s cf cg =
    let pool = sub_account id e.current_account_id in
    let pools = s.staking_pool_account_ids in
    ground (
      arith,
      lookup-insert pool pool tt pools,
      lookup-insert k pool tt pools,
      lookup-remove k pool (insert pool tt pools),
    )
