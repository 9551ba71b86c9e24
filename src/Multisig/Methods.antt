-- ===== src/Multisig/Methods.antt =====
-- The methods of multisig/src/lib.rs. `to_string` is `serde_json` on a member.
use contract_new_project_tem.Prelude.{
  ℕ, ◌-◌, true, not, Option, none, some, List, [], ◌∷◌, ◌++◌, Outcome, bind, ensure, expect, Action,
  ◌>>=◌, ◌>>◌, gets, lift, modify, require, pure, checked_add, checked_sub, u32_mod, u64_mod, ltb,
  leb, ◌==◌, if◌then◌else◌, length,
}
use contract_new_project_tem.Prelude.Map.{Map, lookup, insert, remove}
use contract_new_project_tem.Host.{Env, AccountId, PromiseAction}
use contract_new_project_tem.Multisig.State.{
  MultisigMember, access_key, account, same_member, FunctionCallPermission, MultiSigRequestAction,
  MultiSigRequest, MultiSigRequestWithSigner, MultiSigContract, default_allowance, request_cooldown,
  active_requests_limit_default, multisig_method_names, PromiseOrValue, value, promise, has_member,
  insert_member, remove_member, has_key, insert_key, unwrap_or_zero, is_some, join,
}

-- Who calls: the predecessor, or the signing key if the account calls itself.
abbrev pub caller : Env → MultisigMember
caller e =
    if e.current_account_id == e.predecessor_account_id
    then access_key e.signer_account_pk
    else account e.predecessor_account_id

unfoldable pub current_member : Env → MultiSigContract → Option MultisigMember
current_member e s = if has_member (caller e) s.members then some (caller e) else none

-- The promise's actions so far come first.
unfoldable pub add_member :
    Env → List PromiseAction → MultisigMember → Action MultiSigContract (List PromiseAction)
add_member e actions member = do
  modify (λ s. record s { members = insert_member member s.members })
  pure (elim member [
    | access_key public_key ↦
        actions
        ++ PromiseAction.add_access_key_allowance public_key default_allowance e.current_account_id
            multisig_method_names
          ∷ []
    | account _ ↦ actions
  ])

-- The requests of a member, by id.
unfoldable pub requests_of : MultisigMember → Map MultiSigRequestWithSigner → List ℕ
requests_of member [] = []
requests_of member ((k, r) ∷ requests) =
    let rest = requests_of member requests in if same_member r.member member then k ∷ rest else rest

-- The loop of `delete_member`.
unfoldable pub remove_each : List ℕ → MultiSigContract → MultiSigContract
remove_each [] s = s
remove_each (request_id ∷ ids) s = remove_each ids (record s {
  confirmations = remove request_id s.confirmations;
  requests = remove request_id s.requests;
})

module _ (to_string : MultisigMember → ℕ) where
  unfoldable pub delete_member :
      List PromiseAction → MultisigMember → Action MultiSigContract (List PromiseAction)
  delete_member actions member = do
    members ← gets (λ s. s.members)
    left ← lift (checked_sub (length members) 1)
    needed ← gets (λ s. s.num_confirmations)
    require (leb needed left)
        "Removing given member will make total number of members below number of confirmations"
    request_ids ← gets (λ s. requests_of member s.requests)
    modify (remove_each request_ids)
    modify (λ s. record s { num_requests_pk = remove (to_string member) s.num_requests_pk })
    modify (λ s. record s { members = remove_member member s.members })
    pure (elim member [
      | access_key public_key ↦ actions ++ PromiseAction.delete_key public_key ∷ []
      | account _ ↦ actions
    ])

  unfoldable pub remove_request : ℕ → Action MultiSigContract MultiSigRequest
  remove_request request_id = do
    modify (λ s. record s { confirmations = remove request_id s.confirmations })
    found ← gets (λ s. lookup request_id s.requests)
    modify (λ s. record s { requests = remove request_id s.requests })
    request_with_signer ← lift (expect found "Failed to remove existing element")
    let original = to_string request_with_signer.member
    num_requests ← gets (λ s. unwrap_or_zero (lookup original s.num_requests_pk))
    modify (λ s. record s {
      num_requests_pk =
          insert original (if ltb 0 num_requests then num_requests - 1 else num_requests)
            s.num_requests_pk;
    })
    pure request_with_signer.request

  unfoldable pub assert_valid_request : Env → ℕ → Action MultiSigContract (Unit {0})
  assert_valid_request e request_id = do
    member ← gets (current_member e)
    require (is_some member) "Caller (predecessor or signer) is not a member of this multisig"
    request ← gets (λ s. lookup request_id s.requests)
    require (is_some request) "No such request: either wrong number or already confirmed"
    confirmations ← gets (λ s. lookup request_id s.confirmations)
    require (is_some confirmations) "Internal error: confirmations mismatch requests"

  unfoldable pub assert_self_request : Env → AccountId → Action MultiSigContract (Unit {0})
  assert_self_request e receiver_id =
      require (receiver_id == e.current_account_id)
        "This method only works when receiver_id is equal to current_account_id"

  unfoldable pub assert_one_action_only : Env → AccountId → ℕ → Action MultiSigContract (Unit {0})
  assert_one_action_only e receiver_id num_actions =
      assert_self_request e receiver_id
      >> require (num_actions == 1) "This method should be a separate request"

  -- The action of `AddKey`. The allowance is what `Allowance::limited` is given.
  unfoldable pub key_action : ℕ → Option FunctionCallPermission → PromiseAction
  key_action public_key none = PromiseAction.add_full_access_key public_key
  key_action public_key (some permission) =
      PromiseAction.add_access_key_allowance public_key
        (elim permission.allowance [ none ↦ default_allowance | some n ↦ n ]) permission.receiver_id
        (join permission.method_names)

  -- The loop of `execute_request`: the promise's actions so far, and those that are left. An early
  -- return leaves the promise without an action, since such a request has one action only.
  unfoldable pub execute_actions :
      Env
      → AccountId
      → ℕ
      → List MultiSigRequestAction
      → List PromiseAction
      → Action MultiSigContract PromiseOrValue
  execute_actions e receiver_id num_actions [] actions = do
    modify (λ s. record s {
      promises =
          record { receiver_id = receiver_id; actions = actions; callback = none } ∷ s.promises;
    })
    pure promise
  execute_actions e receiver_id num_actions (MultiSigRequestAction.transfer amount ∷ rest) actions =
      execute_actions e receiver_id num_actions rest (actions ++ PromiseAction.transfer amount ∷ [])
  execute_actions e receiver_id num_actions (MultiSigRequestAction.create_account ∷ rest) actions =
      execute_actions e receiver_id num_actions rest (actions ++ PromiseAction.create_account ∷ [])
  execute_actions e receiver_id num_actions (MultiSigRequestAction.deploy_contract code ∷ rest)
        actions =
      execute_actions e receiver_id num_actions rest
        (actions ++ PromiseAction.deploy_contract code ∷ [])
  execute_actions e receiver_id num_actions (MultiSigRequestAction.add_member member ∷ rest)
        actions =
      do
        assert_self_request e receiver_id
        more ← add_member e actions member
        execute_actions e receiver_id num_actions rest more
  execute_actions e receiver_id num_actions (MultiSigRequestAction.delete_member member ∷ rest)
        actions =
      do
        assert_self_request e receiver_id
        more ← delete_member actions member
        execute_actions e receiver_id num_actions rest more
  execute_actions e receiver_id num_actions
        (MultiSigRequestAction.add_key public_key permission ∷ rest) actions =
      do
        assert_self_request e receiver_id
        execute_actions e receiver_id num_actions rest
            (actions ++ key_action public_key permission ∷ [])
  execute_actions e receiver_id num_actions
        (MultiSigRequestAction.function_call name args deposit gas ∷ rest) actions =
      execute_actions e receiver_id num_actions rest
        (actions ++ PromiseAction.function_call name args deposit gas ∷ [])
  execute_actions e receiver_id num_actions (MultiSigRequestAction.set_num_confirmations n ∷ rest)
        actions =
      do
        assert_one_action_only e receiver_id num_actions
        modify (λ s. record s { num_confirmations = n })
        pure (value true)
  execute_actions e receiver_id num_actions
        (MultiSigRequestAction.set_active_requests_limit n ∷ rest) actions =
      do
        assert_one_action_only e receiver_id num_actions
        modify (λ s. record s { active_requests_limit = n })
        pure (value true)

  unfoldable pub execute_request : Env → MultiSigRequest → Action MultiSigContract PromiseOrValue
  execute_request e request =
      execute_actions e request.receiver_id (length request.actions) request.actions []

  unfoldable pub confirm : Env → ℕ → Action MultiSigContract PromiseOrValue
  confirm e request_id = do
    assert_valid_request e request_id
    current ← gets (current_member e)
    member ← lift (expect current "Must be validated above")
    stored ← gets (λ s. lookup request_id s.confirmations)
    confirmations ← lift (expect stored "called `Option::unwrap()` on a `None` value")
    require (not (has_key (to_string member) confirmations))
        "Already confirmed this request with this key"
    given ← lift (checked_add u32_mod (length confirmations) 1)
    needed ← gets (λ s. s.num_confirmations)
    if leb needed given
        then (remove_request request_id >>= execute_request e)
        else (modify (λ s. record s {
          confirmations =
              insert request_id (insert_key (to_string member) confirmations) s.confirmations;
        })
            >> pure (value true))

  unfoldable pub add_request : Env → MultiSigRequest → Action MultiSigContract ℕ
  add_request e request = do
    current ← gets (current_member e)
    member ← lift (
        expect current
          "Predecessor must be a member or transaction signed with key of given account")
    old ← gets (λ s. unwrap_or_zero (lookup (to_string member) s.num_requests_pk))
    num_requests ← lift (checked_add u32_mod old 1)
    limit ← gets (λ s. s.active_requests_limit)
    require (leb num_requests limit) "Account has too many active requests. Confirm or delete some."
    modify (λ s. record s {
      num_requests_pk = insert (to_string member) num_requests s.num_requests_pk;
    })
    nonce ← gets (λ s. s.request_nonce)
    modify (λ s. record s {
      requests =
          insert nonce
            (record { request = request; member = member; added_timestamp = e.block_timestamp })
            s.requests;
    })
    modify (λ s. record s { confirmations = insert nonce [] s.confirmations })
    next ← lift (checked_add u32_mod nonce 1)
    modify (λ s. record s { request_nonce = next })
    lift (checked_sub next 1)

  unfoldable pub add_request_and_confirm : Env → MultiSigRequest → Action MultiSigContract ℕ
  add_request_and_confirm e request = do
    request_id ← add_request e request
    result ← confirm e request_id
    pure request_id

  unfoldable pub delete_request : Env → ℕ → Action MultiSigContract (Unit {0})
  delete_request e request_id = do
    assert_valid_request e request_id
    found ← gets (λ s. lookup request_id s.requests)
    request_with_signer ← lift (expect found "No such request")
    ready ← lift (checked_add u64_mod request_with_signer.added_timestamp request_cooldown)
    require (ltb ready e.block_timestamp) "Request cannot be deleted immediately after creation."
    request ← remove_request request_id
    pure tt

-- The loop of `new`.
unfoldable pub add_each :
    Env → List MultisigMember → List PromiseAction → Action MultiSigContract (List PromiseAction)
add_each e [] actions = pure actions
add_each e (member ∷ members) actions = do
  more ← add_member e actions member
  add_each e members more

unfoldable pub new : Env → List MultisigMember → ℕ → Outcome (Unit {0} × MultiSigContract)
new e members num_confirmations =
    bind
      (ensure (leb num_confirmations (length members))
        "Members list must be equal or larger than number of confirmations")
      λ _.
        (do
          actions ← add_each e members []
          modify (λ s. record s {
            promises =
                record { receiver_id = e.current_account_id; actions = actions; callback = none }
                ∷ s.promises;
          }))
          (record {
            members = [];
            num_confirmations = num_confirmations;
            request_nonce = 0;
            requests = [];
            confirmations = [];
            num_requests_pk = [];
            active_requests_limit = active_requests_limit_default;
            promises = [];
          })
