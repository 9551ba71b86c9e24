-- ===== src/Social/Genesis.antt =====
-- upgrade.rs of social-web3/contract/src: the tree and the accounts of an earlier deployment are
-- written into a new contract, before it is made live. `migrate_state` reads the state back as it is.
use Prim.Native.String.{String}
use contract_new_project_tem.Prelude.{
  ℕ, Option, none, some, List, [], ◌∷◌, Outcome, ok, panic, bind, Action, ◌>>=◌, ◌>>◌, gets, asks,
  lift, modify, require, pure, ◌==◌, if◌then◌else◌,
}
use contract_new_project_tem.Prelude.Map.{lookup, insert}
use contract_new_project_tem.Prelude.Dict.{Dict, find, put}
use contract_new_project_tem.Social.State.{
  Env, Contract, Account, Node, NodeId, NodeValue, value, node, deleted_entry, new_node, VAccount,
  current, into_account, is_genesis, assert_private,
}
use contract_new_project_tem.Social.Accounts.{new_account, internal_set_node}
use contract_new_project_tem.Social.Nodes.{PartialNode, internal_get_node, into_current_height}
use contract_new_project_tem.Social.Permissions.{Permissions, put_permission, permissions_of}

unfoldable pub assert_genesis : Action Contract (Unit {0})
assert_genesis s = require (is_genesis s.status) "The status should be set to Genesis" s

abbrev pub put_all : Env → Dict NodeValue → Dict NodeValue → Dict NodeValue
put_all e [] children = children
put_all e ((key, v) ∷ more) children = put_all e more (put key (into_current_height e v) children)

unfoldable pub populate_node : Env → Dict NodeValue → Node → Node
populate_node e more n = record n { children = put_all e more n.children }

unfoldable pub genesis_init_node_count : Env → ℕ → Action Contract (Unit {0})
genesis_init_node_count e node_count = do
  assert_private e
  assert_genesis
  modify (λ s. record s { node_count = node_count })

abbrev pub node_or_new : Env → NodeId → Option Node → Outcome Node
node_or_new e id (some n) = ok n
node_or_new e id none = new_node e id none

unfoldable pub init_node : Env → PartialNode → Action Contract (Unit {0})
init_node e p =
    if p.node_id == 0
    then modify (λ s. record s { root_node = populate_node e p.children s.root_node })
    else (gets (internal_get_node p.node_id) >>= λ found.
        lift (node_or_new e p.node_id found) >>= λ n.
        internal_set_node e (populate_node e p.children n))

unfoldable pub init_nodes : Env → List PartialNode → Action Contract (Unit {0})
init_nodes e [] = pure tt
init_nodes e (p ∷ ps) = init_node e p >> init_nodes e ps

unfoldable pub genesis_init_nodes : Env → List PartialNode → Action Contract (Unit {0})
genesis_init_nodes e nodes = do assert_private e; assert_genesis; init_nodes e nodes

pub record PartialAccount : Type 0 where
  pub storage_balance : ℕ
  pub used_bytes : ℕ
  pub permissions : Permissions
  pub node_id : NodeId

abbrev pub extend : Permissions → Permissions → Permissions
extend ps [] = ps
extend ps ((k, p) ∷ more) = extend (put_permission k p ps) more

abbrev pub account_or_new : NodeId → Option VAccount → Outcome Account
account_or_new id none = ok (new_account id)
account_or_new id (some v) = bind (into_account v) λ a. ok (record a { node_id = id })

abbrev pub account_for : Option NodeValue → Contract → Outcome Account
account_for none s = panic "Missing account node, make sure initializing nodes first"
account_for (some (node id)) s = account_or_new id (lookup id s.accounts)
account_for (some (value v)) s = panic "Unexpected account key. The value is not a node."
account_for (some (deleted_entry h)) s = panic "Unexpected account key. The value is not a node."

unfoldable pub init_account : String → PartialAccount → Action Contract (Unit {0})
init_account owner p = do
  old ← asks (λ s. account_for (find owner s.root_node.children) s)
  require (old.node_id == p.node_id) "Account Node ID mismatch"
  modify (λ s. record s {
    accounts =
        insert p.node_id
          (current (record old { storage_balance = p.storage_balance; used_bytes = p.used_bytes }))
          s.accounts;
    permissions =
        insert p.node_id (extend (permissions_of p.node_id s) p.permissions) s.permissions;
  })

unfoldable pub init_accounts : List (String × PartialAccount) → Action Contract (Unit {0})
init_accounts [] = pure tt
init_accounts ((owner, p) ∷ ps) = init_account owner p >> init_accounts ps

unfoldable pub genesis_init_accounts :
    Env → List (String × PartialAccount) → Action Contract (Unit {0})
genesis_init_accounts e accounts = do assert_private e; assert_genesis; init_accounts accounts
