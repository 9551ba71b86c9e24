-- ===== src/Host.antt =====
-- What the contracts read of the chain (`unc_sdk::env`) and the promises that they create.
-- Account ids, public keys and byte strings are only compared, so they are numbers.
use contract_new_project_tem.Prelude.{ℕ, Bool, List, Option, String}

abbrev pub AccountId : Type 0
AccountId = ℕ

abbrev pub PublicKey : Type 0
PublicKey = ℕ

-- How a promise that a callback waited for has ended.
pub data PromiseResult : Type 0 where
  successful : PromiseResult
  failed : PromiseResult

-- One call's view of the chain. All of it belongs to the host, so every theorem ranges over it.
pub record Env : Type 0 where
  pub current_account_id : AccountId
  pub predecessor_account_id : AccountId
  pub signer_account_pk : PublicKey
  pub attached_deposit : ℕ
  pub account_balance : ℕ
  pub account_locked_balance : ℕ
  pub block_timestamp : ℕ
  pub epoch_height : ℕ
  pub validator_stake : AccountId → ℕ
  pub validator_total_stake : ℕ
  pub promise_results : List PromiseResult
  pub is_valid_account_id : AccountId → Bool
  pub state_exists : Bool

-- The batched actions of a `Promise`.
pub data PromiseAction : Type 0 where
  create_account : PromiseAction
  transfer : ℕ → PromiseAction
  stake : ℕ → PublicKey → PromiseAction
  add_full_access_key : PublicKey → PromiseAction
  add_access_key_allowance : PublicKey → ℕ → AccountId → String → PromiseAction
  delete_key : PublicKey → PromiseAction
  deploy_contract : ℕ → PromiseAction
  function_call : String → ℕ → ℕ → ℕ → PromiseAction

-- A promise with the actions for its receiver, and the contract's own callback behind it, if any.
-- `C` lists the callbacks of a contract with their arguments. Gas is left out.
pub record Promise (C : Type 0) : Type 0 where
  pub receiver_id : AccountId
  pub actions : List PromiseAction
  pub callback : Option C
