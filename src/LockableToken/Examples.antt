-- ===== src/LockableToken/Examples.antt =====
-- Runs of lockable-fungible-token/src/lib.rs.
use contract_new_project_tem.Prelude.{◌≡◌, refl, List, [], ◌∷◌, Holds, ok, arith}
use contract_new_project_tem.Prelude.Map.{lookup, insert, remove, sum}
use contract_new_project_tem.Host.{Env}
use contract_new_project_tem.Samples.{call_by}
use contract_new_project_tem.LockableToken.{
  FunToken, default_account, get_account, new, Call, approves, locks, transfers_from, apply, run,
  step, get_total_supply, get_total_balance, get_unlocked_balance, approve, lock, transfer_from,
  set_allowance, set_locked_balance, get_allowance, get_locked_balance, use_allowance, use_locked,
  use_unlocked,
}
use contract_new_project_tem.LockableToken.Worth.{worth}
use contract_new_project_tem.LockableToken.Supply.{new-run-IsBacked}
use contract_new_project_tem.LockableToken.Escrow.{Spends, apply-Spends}

-- Account 1 allows 60 to account 2, which locks 20 and sends 50 to account 3.
abbrev calls : List (Env × Call)
calls =
    (call_by 1, approves 2 60) ∷ (call_by 2, locks 1 20) ∷ (call_by 2, transfers_from 1 3 50) ∷ []

calls_move : get_unlocked_balance 3 (run (new 1 100) calls) ≡ 50
unfolding run step apply new approve lock transfer_from get_unlocked_balance get_account
    default_account set_allowance set_locked_balance get_allowance get_locked_balance use_allowance
    use_locked use_unlocked lookup insert remove
calls_move = refl

new-run-IsBacked_example :
    (sum worth (run (new 1 100) calls).accounts ≡ 100)
    × (get_total_supply (run (new 1 100) calls) ≡ 100)
    × (get_total_balance 1 (run (new 1 100) calls)
        ≡ ok (worth (get_account 1 (run (new 1 100) calls))))
new-run-IsBacked_example = new-run-IsBacked 1 100 calls 1 (omega arith)

abbrev allowed : FunToken
allowed = record {
  accounts = (1, record { balance = 100; allowances = (2, 60) ∷ []; locked_balances = [] }) ∷ [];
  total_supply = 100;
}

apply-Spends_example :
    Holds
      (λ r. Spends 2 4 (get_account 1 allowed) (get_account 1 r.1))
      (apply (call_by 2) (transfers_from 1 3 50) allowed)
unfolding get_account lookup
apply-Spends_example = apply-Spends (call_by 2) (transfers_from 1 3 50) allowed 1 4 refl tt
