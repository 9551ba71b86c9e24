-- ===== src/Multisig/Effects.antt =====
-- What a request and a confirmation of multisig/src/lib.rs change, when they go through.
use contract_new_project_tem.Prelude.{
  ℕ, ◌≡◌, true, false, Option, none, some, List, [], ◌⊎◌, ◌≤◌, ◌<◌, ◌+◌, ok, ◌>>=◌, arith, length,
}
use contract_new_project_tem.Prelude.Map.{lookup, insert}
use contract_new_project_tem.Host.{Env}
use contract_new_project_tem.Multisig.State.{
  MultisigMember, PromiseOrValue, value, has_member, MultiSigRequest, MultiSigContract, has_key,
  insert_key, unwrap_or_zero,
}
use contract_new_project_tem.Multisig.Methods.{
  caller, remove_request, execute_request, confirm, add_request, current_member,
  assert_valid_request,
}

-- The confirmations at an id.
abbrev pub list_of : Option (List ℕ) → List ℕ
list_of none = []
list_of (some ks) = ks

-- What a confirmation below the threshold leaves.
abbrev pub confirmed : (MultisigMember → ℕ) → Env → ℕ → MultiSigContract → MultiSigContract
confirmed to_string e k s = record s {
  confirmations =
      insert k (insert_key (to_string (caller e)) (list_of (lookup k s.confirmations)))
        s.confirmations;
}

-- A confirmation goes through for a member that has not confirmed the request; it executes the
-- request if it is the last one that is needed, and records the member otherwise.
pub confirm_effect :
    (to_string : MultisigMember → ℕ) (e : Env) (k : ℕ) (s : MultiSigContract) (v : PromiseOrValue)
    (t : MultiSigContract)
    → confirm to_string e k s ≡ ok (v, t)
    → (lookup k s.confirmations ≡ some (list_of (lookup k s.confirmations)))
      × (has_member (caller e) s.members ≡ true)
      × (has_key (to_string (caller e)) (list_of (lookup k s.confirmations)) ≡ false)
      × (((s.num_confirmations ≤ length (list_of (lookup k s.confirmations)) + 1)
            × ((remove_request to_string k >>= execute_request to_string e) s ≡ ok (v, t)))
          ⊎ ((length (list_of (lookup k s.confirmations)) + 1 < s.num_confirmations)
              × (v ≡ value true)
              × (t ≡ confirmed to_string e k s)))
unfolding confirm assert_valid_request current_member
confirm_effect to_string e k s v t h = ground arith

-- What `add_request` leaves.
abbrev pub added :
    (MultisigMember → ℕ) → Env → MultiSigRequest → MultiSigContract → MultiSigContract
added to_string e r s = record s {
  num_requests_pk =
      insert (to_string (caller e))
        (unwrap_or_zero (lookup (to_string (caller e)) s.num_requests_pk) + 1) s.num_requests_pk;
  requests =
      insert s.request_nonce
        (record { request = r; member = caller e; added_timestamp = e.block_timestamp }) s.requests;
  confirmations = insert s.request_nonce [] s.confirmations;
  request_nonce = s.request_nonce + 1;
}

-- A request is added for a member below its limit, under the next id.
pub add_request_effect :
    (to_string : MultisigMember → ℕ) (e : Env) (r : MultiSigRequest) (s : MultiSigContract) (id : ℕ)
    (t : MultiSigContract)
    → add_request to_string e r s ≡ ok (id, t)
    → (id ≡ s.request_nonce)
      × (t ≡ added to_string e r s)
      × (has_member (caller e) s.members ≡ true)
      × (unwrap_or_zero (lookup (to_string (caller e)) s.num_requests_pk) + 1
          ≤ s.active_requests_limit)
unfolding add_request current_member
add_request_effect to_string e r s id t h = ground arith
