-- ===== src/Social/State.antt =====
-- The data of social-web3/contract/src: lib.rs, node.rs, permission.rs, account.rs, legacy.rs and
-- shared_storage.rs. Account ids are texts, since they are keys of the root node.
use contract_new_project_tem.Prelude.{
  ℕ, Bool, true, false, Option, none, some, List, [], ◌∷◌, String, Outcome, ok, panic, bind, ensure,
  checked_add, u32_mod, u64_mod, Action, ◌>>=◌, ◌>>◌, gets, lift, modify, require, pure, ◌==◌, not,
}
use contract_new_project_tem.Prelude.Map.{Map}
use contract_new_project_tem.Prelude.Dict.{Dict, put, same}
use contract_new_project_tem.Host.{PublicKey}

abbrev pub NodeId : Type 0
NodeId = ℕ

-- `serde_json::Value`.
mutual
  pub data Json : Type 0 where
    null : Json
    boolean : Bool → Json
    number : ℕ → Json
    string : String → Json
    array : Items → Json
    object : Fields → Json

  pub data Items : Type 0 where
    nil : Items
    cons : Json → Items → Items

  pub data Fields : Type 0 where
    end : Fields
    field : String → Json → Fields → Fields

pub record ValueAtHeight : Type 0 where
  pub content : String
  pub block_height : ℕ

pub data NodeValue : Type 0 where
  value : ValueAtHeight → NodeValue
  node : NodeId → NodeValue
  deleted_entry : ℕ → NodeValue

pub record Node : Type 0 where
  pub node_id : NodeId
  pub block_height : ℕ
  pub children : Dict NodeValue

pub data PermissionKey : Type 0 where
  account_id : String → PermissionKey
  signer_public_key : PublicKey → PermissionKey

-- `Permission::Granted` with its `HashSet<NodeId>`.
abbrev pub Permission : Type 0
Permission = List NodeId

-- Derived equality.
unfoldable pub same_key : PermissionKey → PermissionKey → Bool
same_key (account_id a) (account_id b) = same a b
same_key (account_id a) (signer_public_key l) = false
same_key (signer_public_key k) (account_id b) = false
same_key (signer_public_key k) (signer_public_key l) = k == l

pub record AccountSharedStorage : Type 0 where
  pub max_bytes : ℕ
  pub used_bytes : ℕ
  pub pool_id : String

pub record SharedStoragePool : Type 0 where
  pub storage_balance : ℕ
  pub used_bytes : ℕ
  pub shared_bytes : ℕ

pub record StorageTracker : Type 0 where
  pub bytes_added : ℕ
  pub bytes_released : ℕ
  pub initial_storage_usage : Option ℕ

unfoldable pub no_tracker : StorageTracker
no_tracker = record { bytes_added = 0; bytes_released = 0; initial_storage_usage = none }

-- The permissions of an account lie in the storage under its node, outside this record.
pub record Account : Type 0 where
  pub storage_balance : ℕ
  pub used_bytes : ℕ
  pub node_id : NodeId
  pub storage_tracker : StorageTracker
  pub shared_storage : Option AccountSharedStorage

pub record AccountV0 : Type 0 where
  pub storage_balance : ℕ
  pub used_bytes : ℕ

pub data VAccount : Type 0 where
  v0 : AccountV0 → VAccount
  current : Account → VAccount

-- `From<AccountV0> for Account`.
unfoldable pub from_v0 : AccountV0 → Outcome Account
from_v0 c = bind (checked_add u64_mod c.used_bytes 1) λ used_bytes. ok (record {
  storage_balance = c.storage_balance;
  used_bytes = used_bytes;
  node_id = 0;
  storage_tracker = no_tracker;
  shared_storage = none;
})

-- `From<VAccount> for Account`.
unfoldable pub into_account : VAccount → Outcome Account
into_account (v0 v) = from_v0 v
into_account (current c) = ok c

pub data ContractStatus : Type 0 where
  genesis : ContractStatus
  live : ContractStatus
  read_only : ContractStatus

-- The transfers that the contract asks for are kept with their receivers, the newest first.
pub record Contract : Type 0 where
  pub accounts : Map VAccount
  pub root_node : Node
  pub nodes : Map Node
  pub node_count : NodeId
  pub status : ContractStatus
  pub shared_storage_pools : Dict SharedStoragePool
  pub permissions : Map (List (PermissionKey × Permission))
  pub transfers : List (String × ℕ)

-- What a call reads of the chain. `storage_usage` measures what the contract has stored.
pub record Env : Type 0 where
  pub current_account_id : String
  pub predecessor_account_id : String
  pub signer_account_pk : PublicKey
  pub attached_deposit : ℕ
  pub block_height : ℕ
  pub storage_byte_cost : ℕ
  pub is_valid_account_id : String → Bool
  pub storage_usage : Contract → ℕ

abbrev pub empty_key : String
empty_key = ""

abbrev pub min_storage_bytes : ℕ
min_storage_bytes = 2000

abbrev pub is_node : NodeValue → Bool
is_node (value _) = false
is_node (node _) = true
is_node (deleted_entry _) = false

-- The children of a new node.
abbrev pub first_child : Option NodeValue → Outcome (Dict NodeValue)
first_child none = ok []
first_child (some v) =
    bind (ensure (not (is_node v)) "Invariant: empty key value can't be a node")
      λ _. ok (put empty_key v [])

-- `Node::new`.
unfoldable pub new_node : Env → NodeId → Option NodeValue → Outcome Node
new_node e id first =
    bind (first_child first)
      λ children. ok (record { node_id = id; block_height = e.block_height; children = children })

unfoldable pub new : Env → Contract
new e = record {
  accounts = [];
  root_node = record { node_id = 0; block_height = e.block_height; children = [] };
  nodes = [];
  node_count = 1;
  status = genesis;
  shared_storage_pools = [];
  permissions = [];
  transfers = [];
}

abbrev pub is_genesis : ContractStatus → Bool
is_genesis genesis = true
is_genesis live = false
is_genesis read_only = false

abbrev pub is_live : ContractStatus → Bool
is_live genesis = false
is_live live = true
is_live read_only = false

-- A `#[private]` method.
abbrev pub assert_private : Env → Action Contract (Unit {0})
assert_private e = require (same e.predecessor_account_id e.current_account_id) "Method is private"

unfoldable pub set_status : Env → ContractStatus → Action Contract (Unit {0})
set_status e status = do
  assert_private e
  require (not (is_genesis status)) "The status can't be set to Genesis"
  modify (λ s. record s { status = status })

unfoldable pub get_status : Contract → ContractStatus
get_status s = s.status

unfoldable pub create_node_id : Action Contract NodeId
create_node_id = do
  node_id ← gets (λ s. s.node_count)
  next ← lift (checked_add u32_mod node_id 1)
  modify (λ s. record s { node_count = next })
  pure node_id

unfoldable pub assert_live : Action Contract (Unit {0})
assert_live s = require (is_live s.status) "The contract status is not Live" s

-- A transfer out of the contract.
abbrev pub send : String → ℕ → Contract → Contract
send receiver amount s = record s { transfers = (receiver, amount) ∷ s.transfers }

-- `Node::set`, on a value that is a text or null.
abbrev pub leaf_value : Env → Json → Outcome NodeValue
leaf_value e (string t) = ok (value (record { content = t; block_height = e.block_height }))
leaf_value e null = ok (deleted_entry e.block_height)
leaf_value e (boolean b) = panic "Invariant: value must be a string or null"
leaf_value e (number n) = panic "Invariant: value must be a string or null"
leaf_value e (array xs) = panic "Invariant: value must be a string or null"
leaf_value e (object fs) = panic "Invariant: value must be a string or null"
