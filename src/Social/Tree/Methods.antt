-- ===== src/Social/Tree/Methods.antt =====
-- Every method of social-web3/contract/src keeps the nodes descending.
use contract_new_project_tem.Prelude.{
  ◌≡◌, inl, inr, refl, ℕ, ◌<◌, Bool, false, not, Option, List, [], ◌∷◌, String, Holds, Holds_mono,
  seq-Holds, lift-Holds, asks-Holds, require-Holds, require-Holds_last, settle, any_Holds, arith,
  ltb, settle-Holds,
}
use contract_new_project_tem.Host.{PublicKey}
use contract_new_project_tem.Social.State.{
  PermissionKey, Permission, assert_live, is_live, Env, Contract, Account, Json, Fields, end, field,
}
use contract_new_project_tem.Social.Pools.{unwrap_or, start, stop}
use contract_new_project_tem.Social.Accounts.{
  storage_deposit, storage_withdraw, storage_unregister, internal_set_account,
  internal_unwrap_account_or_create,
}
use contract_new_project_tem.Social.Nodes.{internal_unwrap_node}
use contract_new_project_tem.Social.Keys.{split}
use contract_new_project_tem.Social.Permissions.{
  permission_key, granted_node, grant_keys, grant_write_permission, internal_set_permission,
}
use contract_new_project_tem.Social.Setting.{
  as_object, set_account, set_accounts, set, recursive_set,
}
use contract_new_project_tem.Social.Calls.{
  Call, sets_status, sets, grants, deposits, withdraws, unregisters, deposits_to_pool, shares,
  apply, run,
}
use contract_new_project_tem.Social.State.{is_genesis}
use contract_new_project_tem.Social.Calls.{inits_node_count, inits_nodes, inits_accounts}
use contract_new_project_tem.Social.Genesis.{
  genesis_init_node_count, genesis_init_nodes, genesis_init_accounts, assert_genesis,
}
use contract_new_project_tem.Social.Tree.{IsDescending, StaysPast, Grows-refl, Grows-trans}
use contract_new_project_tem.Social.Tree.Pieces.{internal_unwrap_node-Within}
use contract_new_project_tem.Social.Tree.Planting.{recursive_set-Plants}
use contract_new_project_tem.Social.Tree.Accounts.{internal_unwrap_account_or_create-Tended}
use contract_new_project_tem.Social.Tree.Same.{
  SameNodes-Grows, SameNodes-IsDescending, internal_set_account-same, Tended, Leaves-Tended,
  then-Tended,
}
use contract_new_project_tem.Social.Tree.Granting.{granted_node-Tended}
use contract_new_project_tem.Social.Tree.Frames.{
  storage_withdraw-same, set_status-same, shared_storage_pool_deposit-same, refund_unused-same,
}
use contract_new_project_tem.Social.Tree.Crediting.{storage_deposit-Tended, share_storage-Tended}

-- Nothing of the nodes is asked of a measure of the storage.
grant_keys-Tended :
    (e : Env) (owner : String) (keys : List String) (a : Account) (s : Contract)
    → IsDescending s
    → a.node_id < s.node_count
    → Holds (Tended s) (grant_keys e owner keys a s)
unfolding grant_keys
grant_keys-Tended e owner [] a s v counted = (v, Grows-refl s)
grant_keys-Tended e owner (key ∷ keys) a s v counted =
    lift-Holds (λ _. Unit) _ (start (e.storage_usage s) a.storage_tracker) _ s (any_Holds _)
      λ started _.
        seq-Holds _ _ (granted_node e owner (split key) a) _ s
          (granted_node-Tended e owner (split key) a s v counted)
          λ id t (tree, grows).
            lift-Holds (λ _. Unit) _ (stop (e.storage_usage t) started) _ t (any_Holds _)
              λ stopped _.
                seq-Holds _ _ (grant_keys e owner keys (record a { storage_tracker = stopped })) _ t
                  (grant_keys-Tended e owner keys (record a { storage_tracker = stopped }) t tree
                    (omega (arith, counted, grows.count)))
                  λ rest u (tree_u, grows_u). (tree_u, Grows-trans grows grows_u)

set_account-Tended :
    (e : Env) (refund : Bool) (key : String) (json : Json) (balance : ℕ) (s : Contract)
    → IsDescending s
    → Holds (Tended s) (set_account e refund key json balance s)
unfolding set_account
set_account-Tended e refund key json balance s v =
    seq-Holds _ _ (internal_unwrap_account_or_create e key balance) _ s
      (internal_unwrap_account_or_create-Tended e key balance s v)
      λ a t ((tree, grows), (_, counted, _)).
        asks-Holds _ _ (internal_unwrap_node a.node_id) _ t
          (internal_unwrap_node-Within a.node_id t tree)
          λ n (its_id, inside, _).
            lift-Holds (λ _. Unit) _ (start (e.storage_usage t) a.storage_tracker) _ t (any_Holds _)
              λ started _. then-Tended s t _ grows (
                seq-Holds _ _ (recursive_set e json _ _ n) _ t
                  (recursive_set-Plants e json _ _ n t tree inside (rw its_id counted))
                  λ _ u (tree_u, grows_u, _).
                    lift-Holds (λ _. Unit) _ (stop (e.storage_usage u) started) _ u (any_Holds _)
                      λ stopped _. then-Tended t u _ grows_u (
                        seq-Holds _ _
                          (internal_set_account e (record a { storage_tracker = stopped })) _ u
                          (internal_set_account-same e _ u)
                          λ _ w frame. then-Tended u w _ (SameNodes-Grows frame) (
                            Leaves-Tended w _ (SameNodes-IsDescending frame tree_u)
                              (refund_unused-same e key refund balance w))))

set_accounts-Tended :
    (e : Env) (refund : Bool) (fs : Fields) (balance : ℕ) (s : Contract)
    → IsDescending s
    → Holds (Tended s) (set_accounts e refund fs balance s)
unfolding set_accounts
set_accounts-Tended e refund end balance s v = (v, Grows-refl s)
set_accounts-Tended e refund (field key json fs) balance s v =
    seq-Holds _ _ (set_account e refund key json balance) _ s
      (set_account-Tended e refund key json balance s v)
      λ _ t (tree, grows). then-Tended s t _ grows (set_accounts-Tended e refund fs 0 t tree)

pub set-Tended :
    (e : Env) (json : Json) (refund : Option Bool) (s : Contract)
    → IsDescending s
    → Holds (Tended s) (set e json refund s)
unfolding set assert_live
set-Tended e json refund s v =
    require-Holds _ (is_live s.status) "The contract status is not Live" _ s λ _.
      lift-Holds (λ _. Unit) _ (as_object json) _ s (any_Holds _)
        λ fs _.
          seq-Holds _ _ (set_accounts e (unwrap_or false refund) fs e.attached_deposit) _ s
            (set_accounts-Tended e _ fs e.attached_deposit s v)
            λ left t tended.
              require-Holds_last (Tended s) (not (ltb 0 left))
                "The attached deposit could not be added to any account" t tended

internal_set_permission-Tended :
    (e : Env) (key : PermissionKey) (permission : Permission) (a : Account) (s : Contract)
    → IsDescending s
    → Holds (Tended s) (internal_set_permission e key permission a s)
unfolding internal_set_permission
internal_set_permission-Tended e key permission a s v =
    lift-Holds (λ _. Unit) _ (start (e.storage_usage s) a.storage_tracker) _ s (any_Holds _)
      λ started _.
        lift-Holds (λ _. Unit) _ (stop (e.storage_usage _) started) _ _ (any_Holds _)
          λ stopped _. (
            record { counted = v.counted; root = v.root; below = v.below },
            record { past = inr refl; count = omega arith; present = λ c p. p },
          )

pub grant_write_permission-Tended :
    (e : Env) (predecessor_id : Option String) (public_key : Option PublicKey) (keys : List String)
    (s : Contract)
    → IsDescending s
    → Holds (Tended s) (grant_write_permission e predecessor_id public_key keys s)
unfolding grant_write_permission assert_live
grant_write_permission-Tended e predecessor_id public_key keys s v =
    require-Holds _ (is_live s.status) "The contract status is not Live" _ s λ _.
      require-Holds _ (ltb 0 e.attached_deposit) "Requires at least 1 atto" _ s λ _.
        lift-Holds (λ _. Unit) _ (permission_key predecessor_id public_key) _ s (any_Holds _)
          λ key _.
            seq-Holds _ _
              (internal_unwrap_account_or_create e e.predecessor_account_id e.attached_deposit) _ s
              (internal_unwrap_account_or_create-Tended e e.predecessor_account_id
                e.attached_deposit s v)
              λ a t ((tree, grows), (_, counted, _)).
                seq-Holds _ _ (grant_keys e e.predecessor_account_id keys a) _ t
                  (grant_keys-Tended e e.predecessor_account_id keys a t tree counted)
                  λ granted u (tree_u, grows_u). then-Tended s u _ (Grows-trans grows grows_u) (
                    seq-Holds _ _ (internal_set_permission e key _ granted.0) _ u
                      (internal_set_permission-Tended e key _ granted.0 u tree_u)
                      λ saved w (tree_w, grows_w). then-Tended u w _ grows_w (
                        seq-Holds _ _ (internal_set_account e saved) _ w
                          (internal_set_account-same e saved w)
                          λ _ x frame.
                            (SameNodes-IsDescending frame tree_w, SameNodes-Grows frame)))

-- Every method keeps the order of the nodes, past the genesis: its methods fail then.
pub apply-IsDescending :
    (e : Env) (c : Call) (s : Contract)
    → IsDescending s
    → is_genesis s.status ≡ false
    → Holds (Tended s) (apply e c s)
unfolding apply genesis_init_node_count genesis_init_nodes genesis_init_accounts assert_genesis
    storage_withdraw storage_unregister assert_live
apply-IsDescending e (sets_status status) s v past =
    Leaves-Tended s _ v (set_status-same e status s)
apply-IsDescending e (sets json refund) s v past = set-Tended e json refund s v
apply-IsDescending e (grants predecessor_id public_key keys) s v past =
    grant_write_permission-Tended e predecessor_id public_key keys s v
apply-IsDescending e (deposits to only) s v past =
    seq-Holds _ _ (storage_deposit e to only) _ s (storage_deposit-Tended e to only s v) λ _ t h. h
apply-IsDescending e (withdraws amount) s v past =
    Leaves-Tended s _ v
      (seq-Holds _ _ (storage_withdraw e amount) _ s (storage_withdraw-same e amount s) λ _ t h. h)
apply-IsDescending e (unregisters force) s v past = ground arith
apply-IsDescending e (deposits_to_pool owner) s v past =
    Leaves-Tended s _ v (shared_storage_pool_deposit-same e owner s)
apply-IsDescending e (shares owner max_bytes) s v past = share_storage-Tended e owner max_bytes s v
apply-IsDescending e (inits_node_count count) s v past = ground arith
apply-IsDescending e (inits_nodes nodes) s v past = ground arith
apply-IsDescending e (inits_accounts accounts) s v past = ground arith

-- Once a contract is past its genesis with its nodes in order, they are in order after any history of
-- calls by anyone, of every method: a child that is a node has a larger id than its parent, one below the
-- node count, and it is there, so that no walk down from the root goes round or finds a node missing.
-- And the contract stays past its genesis. (Nodes may still share a child.)
pub run-IsDescending :
    (ts : List (Env × Call)) (s : Contract)
    → IsDescending s
    → is_genesis s.status ≡ false
    → IsDescending (run s ts) × (is_genesis (run s ts).status ≡ false)
unfolding run
run-IsDescending [] s v past = (v, past)
run-IsDescending ((e, c) ∷ ts) s v past =
    let next =
      settle-Holds (λ t. IsDescending t × (is_genesis t.status ≡ false)) s (apply e c s) (v, past)
        (Holds_mono (apply e c s) (λ r (tree, grows). (tree, still r.1 grows.past))
          (apply-IsDescending e c s v past)) in
    run-IsDescending ts (settle s (apply e c s)) next.0 next.1
  where
    still : (t : Contract) → StaysPast s t → is_genesis t.status ≡ false
    still t (inl left) = left
    still t (inr same) = rw (same) past
