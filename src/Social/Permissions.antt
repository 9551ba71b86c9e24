-- ===== src/Social/Permissions.antt =====
-- permission.rs of social-web3/contract/src. `Permission::Granted` is the list of its node ids, and
-- the permissions of an account are kept by the id of its node.
use contract_new_project_tem.Prelude.{
  Bool, true, false, not, ◌||◌, Option, none, some, List, [], ◌∷◌, ◌++◌, String, Outcome, ok, panic,
  bind, Action, ◌>>=◌, ◌>>◌, gets, asks, lift, modify, require, pure, ltb, ◌==◌, if◌then◌else◌,
}
use contract_new_project_tem.Prelude.Map.{lookup, insert}
use contract_new_project_tem.Prelude.Dict.{find, put, same}
use contract_new_project_tem.Host.{PublicKey}
use contract_new_project_tem.Social.State.{
  Env, Contract, Account, Node, NodeId, NodeValue, value, node, deleted_entry, PermissionKey,
  account_id, signer_public_key, Permission, same_key, new_node, create_node_id, assert_live,
  empty_key,
}
use contract_new_project_tem.Social.Pools.{start, stop, unwrap_or}
use contract_new_project_tem.Social.Accounts.{
  internal_get_account, internal_unwrap_account, internal_unwrap_account_or_create,
  internal_set_account, internal_set_node,
}
use contract_new_project_tem.Social.Nodes.{internal_unwrap_node}
use contract_new_project_tem.Social.Keys.{assert_key_valid, split}

abbrev pub Permissions : Type 0
Permissions = List (PermissionKey × Permission)

unfoldable pub is_empty : Permission → Bool
is_empty [] = true
is_empty (id ∷ ids) = false

abbrev pub contains : NodeId → List NodeId → Bool
contains id [] = false
contains id (j ∷ js) = id == j || contains id js

unfoldable pub find_permission : PermissionKey → Permissions → Option Permission
find_permission k [] = none
find_permission k ((j, p) ∷ ps) = if same_key j k then some p else find_permission k ps

abbrev pub put_permission : PermissionKey → Permission → Permissions → Permissions
put_permission k p [] = (k, p) ∷ []
put_permission k p ((j, q) ∷ ps) =
    if same_key j k then (k, p) ∷ ps else (j, q) ∷ put_permission k p ps

-- The order of the rest, which `UnorderedMap` changes, is kept.
abbrev pub drop_permission : PermissionKey → Permissions → Permissions
drop_permission k [] = []
drop_permission k ((j, q) ∷ ps) =
    let rest = drop_permission k ps in if same_key j k then rest else (j, q) ∷ rest

-- `account.permissions`.
unfoldable pub permissions_of : NodeId → Contract → Permissions
permissions_of node_id s = unwrap_or [] (lookup node_id s.permissions)

unfoldable pub internal_get_writeable_node_ids : Env → Account → Contract → List NodeId
internal_get_writeable_node_ids e a s =
    unwrap_or []
      (find_permission (account_id e.predecessor_account_id) (permissions_of a.node_id s))
    ++ unwrap_or []
        (find_permission (signer_public_key e.signer_account_pk) (permissions_of a.node_id s))

unfoldable pub internal_set_permission :
    Env → PermissionKey → Permission → Account → Action Contract Account
internal_set_permission e key permission a = do
  before ← gets e.storage_usage
  started ← lift (start before a.storage_tracker)
  modify (λ s. record s {
    permissions =
        insert a.node_id
          (if is_empty permission
            then drop_permission key (permissions_of a.node_id s)
            else put_permission key permission (permissions_of a.node_id s))
          s.permissions;
  })
  after ← gets e.storage_usage
  stopped ← lift (stop after started)
  pure (record a { storage_tracker = stopped })

-- The key that the arguments `predecessor_id` and `public_key` name.
unfoldable pub permission_key : Option String → Option PublicKey → Outcome PermissionKey
permission_key (some a) (some k) = panic "Can't supply both account_id and a public_key"
permission_key (some a) none = ok (account_id a)
permission_key none (some k) = ok (signer_public_key k)
permission_key none none = panic "Neither account_id or public_key is provided"

-- One step of the path of a granted key: the next node, made where there is none.
unfoldable pub step_into : Env → String → Option NodeValue → Node → Action Contract Node
step_into e key none n = do
  node_id ← create_node_id
  internal_set_node e (record n { children = put key (node node_id) n.children })
  lift (new_node e node_id none)
step_into e key (some (node node_id)) n = do
  next ← asks (internal_unwrap_node node_id)
  internal_set_node e n
  pure next
step_into e key (some (value v)) n = do
  require (not (same key empty_key)) "The empty key's value should be a string"
  node_id ← create_node_id
  internal_set_node e (record n { children = put key (node node_id) n.children })
  lift (new_node e node_id (some (value v)))
step_into e key (some (deleted_entry h)) n = do
  require (not (same key empty_key)) "The empty key's value should be a string"
  node_id ← create_node_id
  internal_set_node e (record n { children = put key (node node_id) n.children })
  lift (new_node e node_id (some (deleted_entry h)))

unfoldable pub walk : Env → List String → Node → Action Contract Node
walk e [] n = pure n
walk e (key ∷ path) n =
    assert_key_valid key >> (step_into e key (find key n.children) n >>= λ next. walk e path next)

-- The node of a key, whose path begins with the account's id.
unfoldable pub granted_node : Env → String → List String → Account → Action Contract NodeId
granted_node e owner [] a s = panic "The key is empty"
granted_node e owner (first ∷ path) a s =
    (require (same first owner) "The path should start with the expected account_id"
        >> (asks (internal_unwrap_node a.node_id) >>= λ n.
            walk e path n >>= λ last. internal_set_node e last >> pure last.node_id))
      s

-- The storage tracker of the account runs from key to key.
unfoldable pub grant_keys :
    Env → String → List String → Account → Action Contract (Account × List NodeId)
grant_keys e owner [] a = pure (a, [])
grant_keys e owner (key ∷ keys) a = gets e.storage_usage >>= λ before.
    lift (start before a.storage_tracker) >>= λ started.
    granted_node e owner (split key) a >>= λ id. gets e.storage_usage >>= λ after.
    lift (stop after started) >>= λ stopped.
    grant_keys e owner keys (record a { storage_tracker = stopped }) >>= λ rest.
    pure (rest.0, id ∷ rest.1)

unfoldable pub grant_write_permission :
    Env → Option String → Option PublicKey → List String → Action Contract (Unit {0})
grant_write_permission e predecessor_id public_key keys = do
  assert_live
  require (ltb 0 e.attached_deposit) "Requires at least 1 atto"
  key ← lift (permission_key predecessor_id public_key)
  account ← internal_unwrap_account_or_create e e.predecessor_account_id e.attached_deposit
  old ← gets (λ s. unwrap_or [] (find_permission key (permissions_of account.node_id s)))
  granted ← grant_keys e e.predecessor_account_id keys account
  saved ← internal_set_permission e key (old ++ granted.1) granted.0
  existed ← internal_set_account e saved
  pure tt

unfoldable pub debug_get_permissions : String → Contract → Outcome Permissions
debug_get_permissions owner s =
    bind (internal_unwrap_account owner s) λ a. ok (permissions_of a.node_id s)

-- A node that is granted lies on the path.
unfoldable pub granted_below : List NodeId → List String → Node → Contract → Outcome Bool
granted_below ids [] n s = ok false
granted_below ids (key ∷ path) n s = elim (find key n.children) [
  | some (node id) ↦ elim (contains id ids) [
    | true ↦ ok true
    | false ↦ bind (internal_unwrap_node id s) λ next. granted_below ids path next s
  ]
  | _ ↦ ok false
]

abbrev pub granted_at : Option Permission → Account → List String → Contract → Outcome Bool
granted_at none a path s = ok false
granted_at (some ids) a path s =
    if contains a.node_id ids
    then ok true
    else (bind (internal_unwrap_node a.node_id s) λ n. granted_below ids path n s)

abbrev pub granted_along : List String → PermissionKey → Contract → Outcome Bool
granted_along [] k s = panic "The key is empty"
granted_along (first ∷ path) k s = bind (internal_get_account first s) (elim [
  | none ↦ ok false
  | some a ↦ granted_at (find_permission k (permissions_of a.node_id s)) a path s
])

unfoldable pub is_write_permission_granted :
    Option String → Option PublicKey → String → Contract → Outcome Bool
is_write_permission_granted predecessor_id public_key key s =
    bind (permission_key predecessor_id public_key) λ k. granted_along (split key) k s
