-- ===== src/Social/Setting.antt =====
-- `set` of social-web3/contract/src/api.rs. The fields of an object stand in the order in which the
-- map of the source yields them.
use Prim.Native.Nat.{min}
use contract_new_project_tem.Prelude.{
  ℕ, Bool, true, false, not, ◌||◌, ◌&&◌, Option, none, some, List, [], String, Outcome, ok, panic,
  Action, ◌>>=◌, ◌>>◌, gets, asks, lift, require, fail, pure, ltb, if◌then◌else◌,
}
use contract_new_project_tem.Prelude.Dict.{find, put, same}
use contract_new_project_tem.Social.State.{
  Env, Contract, Account, Node, NodeId, NodeValue, value, node, deleted_entry, new_node,
  create_node_id, assert_live, empty_key, Json, null, boolean, number, string, array, object,
  Fields, end, field,
}
use contract_new_project_tem.Social.Pools.{start, stop, unwrap_or}
use contract_new_project_tem.Social.Accounts.{
  internal_unwrap_account_or_create, internal_set_account, internal_set_node,
  internal_storage_balance_of, internal_storage_withdraw,
}
use contract_new_project_tem.Social.Nodes.{set_value, internal_unwrap_node}
use contract_new_project_tem.Social.Keys.{assert_key_valid}
use contract_new_project_tem.Social.Permissions.{contains, internal_get_writeable_node_ids}

-- A text or null.
abbrev pub is_leaf : Json → Bool
is_leaf null = true
is_leaf (boolean b) = false
is_leaf (number n) = false
is_leaf (string t) = true
is_leaf (array xs) = false
is_leaf (object fs) = false

-- The child becomes a new node, which is given its own value and filled by `recur`.
unfoldable pub grow :
    Env
    → String
    → Option NodeValue
    → (Node → Action Contract (Unit {0}))
    → Node
    → Action Contract Node
grow e key first recur n = do
  node_id ← create_node_id
  fresh ← lift (new_node e node_id first)
  recur fresh
  pure (record n { children = put key (node node_id) n.children })

-- The value of one key of an object, by what the node holds under the key.
unfoldable pub set_entry :
    Env
    → String
    → Json
    → Bool
    → (Node → Action Contract (Unit {0}))
    → Option NodeValue
    → Node
    → Action Contract Node
set_entry e key json approved recur none n = do
  require approved "Permission Denied"
  if is_leaf json then lift (set_value e key json n) else grow e key none recur n
set_entry e key json approved recur (some (node node_id)) n = do
  inner ← asks (internal_unwrap_node node_id)
  recur inner
  pure n
set_entry e key json approved recur (some (value v)) n = do
  require approved "Permission Denied"
  (if is_leaf json
      then lift (set_value e key json n)
      else (require (not (same key empty_key)) "The empty key's value should be a string or null"
          >> grow e key (some (value v)) recur n))
set_entry e key json approved recur (some (deleted_entry h)) n = do
  require approved "Permission Denied"
  (if is_leaf json
      then lift (set_value e key json n)
      else (require (not (same key empty_key)) "The empty key's value should be a string or null"
          >> grow e key (some (deleted_entry h)) recur n))

-- A value that is a text or null goes under the empty key.
unfoldable pub set_leaf : Env → Json → Bool → Node → Action Contract (Unit {0})
set_leaf e json approved n = do
  require approved "Permission Denied"
  changed ← lift (set_value e empty_key json n)
  internal_set_node e changed

unfoldable mutual
  pub recursive_set : Env → Json → Bool → List NodeId → Node → Action Contract (Unit {0})
  recursive_set e null approved ids n = set_leaf e null (approved || contains n.node_id ids) n
  recursive_set e (string t) approved ids n =
      set_leaf e (string t) (approved || contains n.node_id ids) n
  recursive_set e (object fs) approved ids n =
      set_fields e fs (approved || contains n.node_id ids) ids n >>= λ changed.
      internal_set_node e changed
  recursive_set e (boolean b) approved ids n =
      fail "The JSON value is not a string, a null or an object"
  recursive_set e (number k) approved ids n =
      fail "The JSON value is not a string, a null or an object"
  recursive_set e (array xs) approved ids n =
      fail "The JSON value is not a string, a null or an object"

  pub set_fields : Env → Fields → Bool → List NodeId → Node → Action Contract Node
  set_fields e end approved ids n = pure n
  set_fields e (field key json fs) approved ids n =
      assert_key_valid key
      >> (set_entry e key json approved (recursive_set e json approved ids) (find key n.children) n
          >>= λ changed. set_fields e fs approved ids changed)

-- What the caller may write to: everything of its own, else what it was granted.
abbrev pub writable_node_ids : Env → Bool → Account → Contract → List NodeId
writable_node_ids e approved a s = if approved then [] else internal_get_writeable_node_ids e a s

-- The part of a deposit that the storage does not need.
unfoldable pub refund_unused : Env → String → Bool → ℕ → Action Contract (Unit {0})
refund_unused e owner refund attached_balance =
    if refund && ltb 0 attached_balance
    then (asks (internal_storage_balance_of e owner) >>= elim [
      | none ↦ pure tt
      | some balance ↦
          internal_storage_withdraw e owner (some (min balance.available attached_balance)) >>= λ _.
          pure tt
    ])
    else pure tt

unfoldable pub set_account : Env → Bool → String → Json → ℕ → Action Contract (Unit {0})
set_account e refund key json attached_balance = do
  account ← internal_unwrap_account_or_create e key attached_balance
  let approved = same key e.predecessor_account_id
  ids ← gets (writable_node_ids e approved account)
  n ← asks (internal_unwrap_node account.node_id)
  before ← gets e.storage_usage
  started ← lift (start before account.storage_tracker)
  recursive_set e json approved ids n
  after ← gets e.storage_usage
  stopped ← lift (stop after started)
  existed ← internal_set_account e (record account { storage_tracker = stopped })
  refund_unused e key refund attached_balance

-- The first account receives all of the deposit. The result is what no account received.
unfoldable pub set_accounts : Env → Bool → Fields → ℕ → Action Contract ℕ
set_accounts e refund end attached_balance = pure attached_balance
set_accounts e refund (field key json fs) attached_balance =
    set_account e refund key json attached_balance >> set_accounts e refund fs 0

abbrev pub as_object : Json → Outcome Fields
as_object (object fs) = ok fs
as_object null = panic "Data is not a JSON object"
as_object (boolean b) = panic "Data is not a JSON object"
as_object (number n) = panic "Data is not a JSON object"
as_object (string t) = panic "Data is not a JSON object"
as_object (array xs) = panic "Data is not a JSON object"

unfoldable pub set : Env → Json → Option Bool → Action Contract (Unit {0})
set e json refund_unused_deposit = do
  assert_live
  fs ← lift (as_object json)
  left ← set_accounts e (unwrap_or false refund_unused_deposit) fs e.attached_deposit
  require (not (ltb 0 left)) "The attached deposit could not be added to any account"
