-- ===== src/Multisig/Examples.antt =====
-- Runs of multisig/src/lib.rs.
use contract_new_project_tem.Prelude.{
  ℕ, ◌+◌, ◌≤◌, ◌<◌, ◌≡◌, refl, ◌⊎◌, true, false, none, some, List, [], ◌∷◌, Holds, length,
}
use contract_new_project_tem.Prelude.Map.{lookup, insert, remove}
use contract_new_project_tem.Host.{Env}
use contract_new_project_tem.Samples.{call_by}
use contract_new_project_tem.Multisig.State.{
  MultisigMember, access_key, account, MultiSigRequest, MultiSigRequestAction,
  MultiSigRequestWithSigner, MultiSigContract, has_member, has_key, value, insert_key,
  insert_member, same_member,
}
use contract_new_project_tem.Multisig.Effects.{confirmed}
use contract_new_project_tem.Multisig.Calls.{Call, add_and_confirm, confirm_by, apply, step, run}
use contract_new_project_tem.Multisig.Methods.{
  new, confirm, current_member, add_request, add_request_and_confirm, assert_valid_request,
  remove_request, execute_request, execute_actions, add_each, add_member,
}
use contract_new_project_tem.Multisig.Pending.{EntryAt}
use contract_new_project_tem.Multisig.Quorum.{AllDistinct, Confirmed, new-run-Confirmed}
use contract_new_project_tem.Multisig.Powers.{SamePowers, Reached, apply_powers}
use contract_new_project_tem.Multisig.Threshold.{Executes, confirm_threshold}

-- Distinct members, distinct keys.
abbrev key_of : MultisigMember → ℕ
key_of (access_key k) = k + k + 1
key_of (account a) = a + a

abbrev owners : List MultisigMember
owners = account 1 ∷ account 2 ∷ account 3 ∷ []

abbrev payment : MultiSigRequest
payment = record { receiver_id = 9; actions = MultiSigRequestAction.transfer 50 ∷ [] }

abbrev pending : MultiSigRequestWithSigner
pending = record { request = payment; member = account 1; added_timestamp = 500 }

-- Account 1 asked for a payment and confirmed it; it takes two of the three.
abbrev contract : MultiSigContract
contract = record {
  members = owners;
  num_confirmations = 2;
  request_nonce = 1;
  requests = (0, pending) ∷ [];
  confirmations = (0, 2 ∷ []) ∷ [];
  num_requests_pk = (2, 1) ∷ [];
  active_requests_limit = 12;
  promises = [];
}

abbrev calls : List (Env × Call)
calls = (call_by 1, add_and_confirm payment) ∷ (call_by 4, confirm_by 0) ∷ []

calls_leave_pending :
    Holds
      (λ r. lookup 0 (run key_of r.1 calls).confirmations ≡ some (2 ∷ []))
      (new (call_by 9) owners 2)
unfolding new add_each add_member insert_member has_member same_member run step apply
    add_request_and_confirm add_request confirm current_member assert_valid_request insert lookup
    has_key insert_key
calls_leave_pending = refl

new-run-Confirmed_example :
    Holds
      (λ r.
        EntryAt (AllDistinct (λ key. Confirmed key_of 0 key r.1 calls)) 0 (run key_of r.1 calls))
      (new (call_by 9) owners 2)
new-run-Confirmed_example = new-run-Confirmed key_of (call_by 9) owners 2 0 calls

apply_powers_example :
    Holds
      (λ r. SamePowers contract r.1 ⊎ Reached key_of (call_by 2) (confirm_by 0) contract)
      (apply key_of (call_by 2) (confirm_by 0) contract)
apply_powers_example = apply_powers key_of (call_by 2) (confirm_by 0) contract

confirm_pays : Holds (λ r. length r.1.promises ≡ 1) (confirm key_of (call_by 2) 0 contract)
unfolding confirm current_member assert_valid_request remove_request execute_request execute_actions
    insert lookup remove has_key has_member same_member
confirm_pays = refl

confirm_threshold_example :
    Holds
      (λ r.
        (has_member (account 2) contract.members ≡ true)
        × (has_key 4 (2 ∷ []) ≡ false)
        × (((2 < 2) × (r ≡ (value true, confirmed key_of (call_by 2) 0 contract)))
            ⊎ ((2 ≤ 2)
                × Executes key_of (call_by 2) 0 contract r
                × (lookup 0 r.1.requests ≡ none)
                × (lookup 0 r.1.confirmations ≡ none))))
      (confirm key_of (call_by 2) 0 contract)
unfolding lookup
confirm_threshold_example = confirm_threshold key_of (call_by 2) 0 contract

-- Fifteen minutes and some later.
abbrev later : Env
later = record (call_by 3) { block_timestamp = 900_000_000_600 }
