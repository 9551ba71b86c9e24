-- ===== src/Samples.antt =====
-- A concrete view of the chain, for the tests of every contract.
use contract_new_project_tem.Prelude.{ℕ, true, false, [], ◌∷◌}
use contract_new_project_tem.Host.{Env, successful}

-- A call on account 100 by the given account, in epoch 3. Every account validates with 10 tokens.
abbrev pub call_by : ℕ → Env
call_by caller = record {
  current_account_id = 100;
  predecessor_account_id = caller;
  signer_account_pk = 7;
  attached_deposit = 0;
  account_balance = 1000;
  account_locked_balance = 0;
  block_timestamp = 500;
  epoch_height = 3;
  validator_stake = λ _. 10;
  validator_total_stake = 30;
  promise_results = successful ∷ [];
  is_valid_account_id = λ _. true;
  state_exists = false;
}
