-- ===== src/MultisigFactory.antt =====
-- multisig-factory/src/lib.rs: multisig contracts made on demand. Account ids are numbers, so
-- `sub_account`, which puts a name before the factory's own id, is given.
use contract_new_project_tem.Prelude.{ℕ, List, ◌∷◌, Action, ◌>>◌, modify, require}
use contract_new_project_tem.Host.{Env, AccountId}
use contract_new_project_tem.Multisig.State.{MultisigMember}

-- A new account with a deposit, the multisig's code and a call of `new` with these arguments.
pub record Creation : Type 0 where
  pub receiver_id : AccountId
  pub deposit : ℕ
  pub members : List MultisigMember
  pub num_confirmations : ℕ

-- The contract keeps nothing but what it asks of the chain, the newest first.
pub record MultisigFactory : Type 0 where
  pub promises : List Creation

unfoldable pub create :
    (AccountId → AccountId → AccountId)
    → Env
    → AccountId
    → List MultisigMember
    → ℕ
    → Action MultisigFactory (Unit {0})
create sub_account e name members num_confirmations = do
  let account_id = sub_account name e.current_account_id
  require (e.is_valid_account_id account_id) "called `Result::unwrap()` on an `Err` value"
  modify (λ s. record s {
    promises =
        record {
          receiver_id = account_id;
          deposit = e.attached_deposit;
          members = members;
          num_confirmations = num_confirmations;
        }
        ∷ s.promises;
  })
