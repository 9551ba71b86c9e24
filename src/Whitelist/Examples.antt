-- ===== src/Whitelist/Examples.antt =====
-- Runs of whitelist/src/lib.rs.
use contract_new_project_tem.Prelude.{◌≡◌, refl, true, false, [], ◌∷◌, List, ◌⊎◌}
use contract_new_project_tem.Prelude.Map.{lookup, insert}
use contract_new_project_tem.Host.{Env}
use contract_new_project_tem.Samples.{call_by}
use contract_new_project_tem.Whitelist.{
  WhitelistContract, Call, add_pool, add_maker, contains, apply, add_staking_pool, add_factory,
}
use contract_new_project_tem.Whitelist.Refinement.{view, serve, serve_all, seen, run-serve_all}
use contract_new_project_tem.Whitelist.Access.{Added, run, step, run_whitelisted}

-- Account 1 is the foundation.
abbrev contract : WhitelistContract
contract = record { foundation_account_id = 1; whitelist = []; factory_whitelist = [] }

-- The foundation admits factory 2, which adds pool 5; account 3 may not add pool 6.
abbrev calls : List (Env × Call)
calls = (call_by 1, add_maker 2) ∷ (call_by 2, add_pool 5) ∷ (call_by 3, add_pool 6) ∷ []

calls_add :
    (contains 5 (run contract calls).whitelist ≡ true)
    × (contains 6 (run contract calls).whitelist ≡ false)
unfolding run step apply add_staking_pool add_factory lookup insert
calls_add = (refl, refl)

run_whitelisted_example :
    ((run contract calls).foundation_account_id ≡ 1)
    × ((contains 5 contract.whitelist ≡ true) ⊎ Added 5 contract calls)
unfolding run step apply add_staking_pool add_factory lookup insert
run_whitelisted_example = run_whitelisted 5 contract calls refl

run-serve_all_example :
    (view (run contract calls) ≡ serve_all (view contract) calls)
    × ((e : Env) (c : Call)
        → seen (apply e c (run contract calls)) ≡ serve e c (serve_all (view contract) calls))
run-serve_all_example = run-serve_all contract calls
