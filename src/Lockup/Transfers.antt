-- ===== src/Lockup/Transfers.antt =====
-- What the owner can take out of lockup/src/owner.rs.
use contract_new_project_tem.Prelude.{
  ℕ, ◌+◌, ◌≤◌, ◌≡◌, true, not, ◌&&◌, none, Holds, Succeeds, IsPanic, Outcome, ok, panic, arith,
  ◌==◌, if◌then◌else◌,
}
use contract_new_project_tem.Host.{Env, AccountId, PublicKey}
use contract_new_project_tem.Lockup.State.{
  LockupContract, transfer, add_full_access_key, min_balance_for_storage,
}
use contract_new_project_tem.Lockup.Getters.{
  get_account_balance, get_known_deposited_balance, get_locked_amount, get_owners_balance,
  get_liquid_owners_balance, are_transfers_enabled,
}
use contract_new_project_tem.Lockup.Internal.{
  create_promise, is_terminating, none_or_idle, assert_no_termination, assert_transfers_enabled,
  assert_no_staking_or_idle, assert_owner,
}
use contract_new_project_tem.Lockup.Owner.{transfer_to, add_owners_key}

abbrev pub amount_of : Outcome ℕ → ℕ
amount_of (ok n) = n
amount_of (panic _) = 0

-- A transfer that goes through only sends the amount to the receiver. Transfers are enabled, the locked
-- amount is known, what stays on the account and at the pool covers it, and the account keeps what its
-- storage needs.
pub transfer_to_covered :
    (e : Env) (amount : ℕ) (receiver_id : AccountId) (s : LockupContract)
    → Holds
        (λ r.
          (are_transfers_enabled s ≡ true)
          × Succeeds (get_locked_amount e s)
          × (amount + amount_of (get_locked_amount e s)
              ≤ e.account_balance + get_known_deposited_balance s)
          × (amount + min_balance_for_storage ≤ e.account_balance)
          × (r.1 ≡ create_promise receiver_id (transfer amount) 0 none s))
        (transfer_to e amount receiver_id s)
unfolding transfer_to assert_owner assert_transfers_enabled assert_no_staking_or_idle
    assert_no_termination get_liquid_owners_balance get_owners_balance get_account_balance
transfer_to_covered e amount receiver_id s = ground arith

-- The owner gets a full access key exactly when it asks for it with transfers enabled, no operation or
-- termination in progress, and nothing locked.
pub add_owners_key_when :
    (e : Env) (key : PublicKey) (s : LockupContract)
    → if e.predecessor_account_id == s.owner_account_id
        && are_transfers_enabled s
        && none_or_idle s.staking_information
        && not (is_terminating s.vesting_information)
      then elim (get_locked_amount e s) as (λ _. Type 0) [
        | ok locked ↦
            if locked == 0
            then (add_owners_key e key s
                ≡ ok (tt, create_promise e.current_account_id (add_full_access_key key) 0 none s))
            else IsPanic (add_owners_key e key s)
        | panic _ ↦ IsPanic (add_owners_key e key s)
      ]
      else IsPanic (add_owners_key e key s)
unfolding add_owners_key assert_owner assert_transfers_enabled assert_no_staking_or_idle
    assert_no_termination
add_owners_key_when e key s = ground arith
