-- ===== src/Social/Examples.antt =====
-- Runs of social-web3/contract/src on a small tree: alice has a profile, which bob may write to.
use contract_new_project_tem.Prelude.{
  false, ℕ, ◌⊎◌, ◌-◌, ◌≤◌, ◌+◌, ◌*◌, ◌≡◌, refl, Bool, true, ◌||◌, none, some, String, List, [], ◌∷◌,
  ok, settle, Holds, Succeeds, IsPanic, arith, leb, ◌==◌,
}
use Prim.Native.Nat.{min}
use contract_new_project_tem.Prelude.Map.{lookup, insert}
use contract_new_project_tem.Prelude.Dict.{find, put}
use contract_new_project_tem.Social.State.{
  Env, Contract, Account, AccountSharedStorage, NodeId, NodeValue, value, node, Json, string,
  object, field, end, account_id, current, no_tracker, genesis, is_genesis, live, read_only,
  into_account, same_key, assert_live,
}
use contract_new_project_tem.Social.Accounts.{
  internal_unwrap_account_or_create, internal_set_node, settle_bytes, use_more, take_from_pool,
  internal_set_account, internal_get_account, shared_used, assert_storage_covered,
}
use contract_new_project_tem.Social.Keys.{is_key_valid, split, path_of}
use contract_new_project_tem.Social.Permissions.{
  find_permission, permissions_of, internal_get_writeable_node_ids, permission_key,
  is_write_permission_granted,
}
use contract_new_project_tem.Social.Setting.{
  set, set_accounts, set_account, recursive_set, set_fields, set_entry, set_leaf, refund_unused,
}
use contract_new_project_tem.Social.Pools.{
  start, stop, available_shared, available_bytes, internal_unwrap_shared_storage_pool,
  internal_set_shared_storage_pool,
}
use contract_new_project_tem.Social.Nodes.{
  PartialNode, into_current_height, internal_get_node, internal_unwrap_node, set_value,
}
use contract_new_project_tem.Social.Reading.{
  get, get_paths, recursive_get, matched_entries, add_node_data, get_entries, get_entry,
}
use contract_new_project_tem.Social.Objects.{
  json_map_get_inner_object, json_map_set_key, put_field, find_field, json_map_recursive_cleanup,
}
use contract_new_project_tem.Social.Calls.{Call, sets, inits_nodes, grants, deposits, apply, run}
use contract_new_project_tem.Social.Genesis.{
  genesis_init_nodes, assert_genesis, init_nodes, init_node, populate_node,
}
use contract_new_project_tem.Social.Status.{apply-live}
use contract_new_project_tem.Social.Storage.{
  IsCovered, pool_use, saved, internal_set_account-charges,
}
use contract_new_project_tem.Social.Grants.{covers, is_write_permission_granted-covers}
use contract_new_project_tem.Social.Tree.{IsDescending}
use contract_new_project_tem.Social.Tree.Methods.{run-IsDescending}
use contract_new_project_tem.Social.Tree.Walks.{run-get-Succeeds}
use contract_new_project_tem.Social.Writes.{Marked, Spares, entries}
use contract_new_project_tem.Social.Writes.Methods.{set-Spares}
use contract_new_project_tem.Social.Returns.Stores.{set-get}

abbrev call_by : String → ℕ → Env
call_by caller deposit = record {
  current_account_id = "social";
  predecessor_account_id = caller;
  signer_account_pk = 7;
  attached_deposit = deposit;
  block_height = 50;
  storage_byte_cost = 10;
  is_valid_account_id = λ a. true;
  storage_usage = λ s. 100 * s.node_count;
}

abbrev leaf : String → NodeValue
leaf t = value (record { content = t; block_height = 20 })

abbrev account_on : NodeId → Account
account_on id = record {
  storage_balance = 9000;
  used_bytes = 300;
  node_id = id;
  storage_tracker = no_tracker;
  shared_storage = none;
}

abbrev forest : Contract
forest = record {
  accounts = (1, current (account_on 1)) ∷ (2, current (account_on 2)) ∷ [];
  root_node = record {
    node_id = 0;
    block_height = 20;
    children = ("alice", node 1) ∷ ("bob", node 2) ∷ [];
  };
  nodes =
      (
        1,
        record {
          node_id = 1;
          block_height = 20;
          children = ("profile", node 3) ∷ ("motto", leaf "hello") ∷ [];
        },
      )
      ∷ (2, record { node_id = 2; block_height = 20; children = [] })
      ∷ (3, record { node_id = 3; block_height = 20; children = ("name", leaf "Alice") ∷ [] })
      ∷ [];
  node_count = 4;
  status = live;
  shared_storage_pools = [];
  permissions = (1, (account_id "bob", 3 ∷ []) ∷ []) ∷ [];
  transfers = [];
}

-- `{"alice": {"profile": {"name": "Al"}}}`.
abbrev renaming : Json
renaming =
    object
      (field "alice" (object (field "profile" (object (field "name" (string "Al") end)) end)) end)

renaming_written :
    entries 3 (settle forest (set (call_by "bob" 0) renaming none forest))
    ≡ some (("name", value (record { content = "Al"; block_height = 50 })) ∷ [])
unfolding set assert_live set_accounts set_account internal_unwrap_account_or_create
    internal_get_account find put into_account lookup insert internal_unwrap_node internal_get_node
    start stop recursive_set set_fields set_entry set_value is_key_valid internal_set_node
    internal_set_account settle_bytes refund_unused internal_get_writeable_node_ids permissions_of
    find_permission same_key no_tracker
renaming_written = refl

profile_read :
    get ("alice/profile/*" ∷ []) none forest
    ≡ ok (
        object (
          field "alice"
            (object (field "profile" (object (field "name" (string "Alice") end)) end))
            end))
unfolding get get_paths path_of split recursive_get matched_entries find add_node_data get_entries
    get_entry internal_unwrap_node internal_get_node lookup json_map_get_inner_object
    json_map_set_key put_field find_field json_map_recursive_cleanup
profile_read = refl

abbrev bobs : NodeId → Bool
bobs id = id == 2 || id == 3 || leb 4 id

bobs-Marked : Marked (call_by "bob" 0) bobs forest
unfolding lookup find internal_get_writeable_node_ids permissions_of find_permission same_key
bobs-Marked = record {
  fresh = λ id h. ground arith;
  granted = λ account id h. ground arith;
  own = λ id h. ground arith;
  below = λ id c n h marked inside. ground arith;
}

set-Spares_example : Holds (Spares bobs forest) (set (call_by "bob" 0) renaming none forest)
set-Spares_example = set-Spares (call_by "bob" 0) bobs renaming none forest bobs-Marked

forest-IsDescending : IsDescending forest
unfolding lookup
forest-IsDescending = record {
  counted = omega arith;
  root = λ c inside. ground arith;
  below = λ id n h c inside. ground arith;
}

is_write_permission_granted-covers_example :
    is_write_permission_granted (some "bob") none "alice/profile/name" forest
    ≡ ok (
        covers
          (find_permission (account_id "bob") (permissions_of 1 forest))
          (account_on 1)
          ("profile" ∷ "name" ∷ [])
          forest)
unfolding permission_key split internal_get_account find into_account lookup
is_write_permission_granted-covers_example =
    is_write_permission_granted-covers (some "bob") none "alice/profile/name" forest
      (account_id "bob") "alice" ("profile" ∷ "name" ∷ []) (account_on 1) forest-IsDescending refl
      refl refl

-- The contract itself tries to plant a child that is not there: the genesis is over.
abbrev dangling : PartialNode
dangling = record {
  node_id = 1;
  block_height = 20;
  children = ("gone", node 77) ∷ [];
  from_index = 0;
  num_children = 1;
}

abbrev history : List (Env × Call)
history =
    (call_by "alice" 20_000, sets renaming none)
    ∷ (call_by "alice" 1, grants (some "bob") none ("alice/profile" ∷ []))
    ∷ (call_by "social" 0, inits_nodes (dangling ∷ []))
    ∷ (call_by "bob" 50_000, deposits none none)
    ∷ (call_by "bob" 0, sets renaming none)
    ∷ []

run-IsDescending_example :
    IsDescending (run forest history) × (is_genesis (run forest history).status ≡ false)
run-IsDescending_example = run-IsDescending history forest forest-IsDescending refl

run-get-Succeeds_example :
    Succeeds (get ("alice/**" ∷ "*/profile/name" ∷ []) none (run forest history))
unfolding split path_of
run-get-Succeeds_example =
    run-get-Succeeds history forest ("alice/**" ∷ "*/profile/name" ∷ []) none forest-IsDescending
      refl refl

-- In the genesis, the contract can plant such a child, and a walk then fails.
abbrev unready : Contract
unready = record forest { status = genesis }

genesis_dangles : IsPanic (
    get
      ("alice/gone/name" ∷ [])
      none
      (settle unready (genesis_init_nodes (call_by "social" 0) (dangling ∷ []) unready)))
unfolding genesis_init_nodes assert_genesis init_nodes init_node populate_node into_current_height
    internal_set_node get get_paths path_of split recursive_get matched_entries find put lookup
    insert add_node_data get_entries get_entry internal_unwrap_node internal_get_node
    json_map_get_inner_object find_field
genesis_dangles = tt

-- `{"alice": {"profile": "hi"}}`, where the profile is a node.
abbrev told : Json
told = object (field "alice" (object (field "profile" (string "hi") end)) end)

told_written :
    entries 3 (settle forest (set (call_by "alice" 0) told none forest))
    ≡ some
        (("name", leaf "Alice") ∷ ("", value (record { content = "hi"; block_height = 50 })) ∷ [])
unfolding set assert_live set_accounts set_account internal_unwrap_account_or_create
    internal_get_account find put into_account lookup insert internal_unwrap_node internal_get_node
    start stop recursive_set set_fields set_entry set_leaf set_value is_key_valid internal_set_node
    internal_set_account settle_bytes refund_unused internal_get_writeable_node_ids permissions_of
    find_permission same_key no_tracker
told_written = refl

set-get_example :
    Holds
      (λ r. get ("alice/profile" ∷ []) none r.1 ≡ ok told)
      (set (call_by "alice" 0) told none forest)
unfolding is_key_valid path_of split
set-get_example =
    set-get (call_by "alice" 0) "alice" "profile" "hi" "alice/profile" none forest
      forest-IsDescending refl refl refl

apply-live_example :
    IsPanic (apply (call_by "bob" 0) (sets renaming none) (record forest { status = read_only }))
    ⊎ ⊥
apply-live_example =
    apply-live (call_by "bob" 0) (sets renaming none) (record forest { status = read_only }) refl

-- Bob has a share of 80 bytes of alice's pool, in which 50 more are used; the pool pays for 200.
abbrev bobs_share : AccountSharedStorage
bobs_share = record { max_bytes = 80; used_bytes = 10; pool_id = "alice" }

abbrev grown : Account
grown = record (account_on 2) {
  storage_tracker = record { bytes_added = 120; bytes_released = 20; initial_storage_usage = none };
  shared_storage = some bobs_share;
}

abbrev pooled : Contract
pooled = record forest {
  shared_storage_pools =
      ("alice", record { storage_balance = 2000; used_bytes = 60; shared_bytes = 80 }) ∷ [];
}

internal_set_account-charges_example :
    Holds
      (λ r.
        (b : Account) × (saved 2 r.1 ≡ some (current b))
        × (b.used_bytes + 20 ≡ 300 + 120)
        × (pool_use (some bobs_share) r.1.shared_storage_pools + 10
            ≡ 60 + shared_used b.shared_storage)
        × (shared_used b.shared_storage ≡ 10 + min 70 100 - 0)
        × ((120 ≤ 20) ⊎ IsCovered (call_by "bob" 0) b)
        × (b.storage_balance ≡ 9000)
        × (b.storage_tracker.bytes_added ≡ 0)
        × (b.storage_tracker.bytes_released ≡ 0))
      (internal_set_account (call_by "bob" 0) grown pooled)
unfolding find
internal_set_account-charges_example = internal_set_account-charges (call_by "bob" 0) grown pooled

-- The account is charged 70 bytes of the pool and 30 of its own.
charges_pool :
    Holds
      (λ r. pool_use (some bobs_share) r.1.shared_storage_pools ≡ 130)
      (internal_set_account (call_by "bob" 0) grown pooled)
unfolding internal_set_account settle_bytes use_more take_from_pool available_shared available_bytes
    internal_unwrap_shared_storage_pool internal_set_shared_storage_pool assert_storage_covered find
    put insert lookup
charges_pool = refl
