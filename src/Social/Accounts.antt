-- ===== src/Social/Accounts.antt =====
-- account.rs of social-web3/contract/src.
use Prim.Native.Nat.{min}
use contract_new_project_tem.Prelude.{
  ℕ, ◌-◌, ◌*◌, Bool, false, not, Option, none, some, String, Outcome, ok, panic, bind, ensure,
  expect, Action, ◌>>=◌, ◌>>◌, gets, asks, lift, modify, require, fail, pure, checked_add,
  checked_sub, saturating_add, saturating_sub, u64_mod, u128_mod, ltb, leb, ◌==◌, if◌then◌else◌,
  ◌&&◌, length,
}
use contract_new_project_tem.Prelude.Map.{lookup, insert}
use contract_new_project_tem.Prelude.Dict.{find, put}
use contract_new_project_tem.Social.State.{
  Env, Contract, Account, AccountSharedStorage, no_tracker, current, into_account, NodeValue, value,
  node, deleted_entry, Node, NodeId, new_node, create_node_id, assert_live, send, min_storage_bytes,
}
use contract_new_project_tem.Social.Pools.{
  start, stop, available_shared, internal_unwrap_shared_storage_pool,
  internal_set_shared_storage_pool, is_some, unwrap_or,
}

-- `Account::new`.
unfoldable pub new_account : NodeId → Account
new_account node_id = record {
  storage_balance = 0;
  used_bytes = 0;
  node_id = node_id;
  storage_tracker = no_tracker;
  shared_storage = none;
}

abbrev pub shared_used : Option AccountSharedStorage → ℕ
shared_used none = 0
shared_used (some a) = a.used_bytes

-- `UncToken::saturating_mul`.
abbrev pub saturating_mul : ℕ → ℕ → ℕ
saturating_mul a b = if ltb (a * b) u128_mod then a * b else u128_mod - 1

unfoldable pub assert_storage_covered : Env → Account → Outcome (Unit {0})
assert_storage_covered e a =
    bind (checked_sub a.used_bytes (shared_used a.shared_storage)) λ own_bytes.
      ensure (leb (saturating_mul own_bytes e.storage_byte_cost) a.storage_balance)
        "Not enough storage balance"

-- The account under a node, as `internal_get_account` and `get_accounts` read it.
abbrev pub account_at : NodeId → Contract → Outcome Account
account_at node_id s =
    bind (expect (lookup node_id s.accounts) "called `Option::unwrap()` on a `None` value")
      λ v. bind (into_account v) λ a. ok (record a { node_id = node_id })

abbrev pub account_of : Option NodeValue → Contract → Outcome (Option Account)
account_of none s = ok none
account_of (some (node node_id)) s = bind (account_at node_id s) λ a. ok (some a)
account_of (some (value v)) s = panic "Unexpected account key. The value is not a node."
account_of (some (deleted_entry h)) s = panic "Unexpected account key. The value is not a node."

unfoldable pub internal_get_account : String → Contract → Outcome (Option Account)
internal_get_account account_id s = account_of (find account_id s.root_node.children) s

unfoldable pub internal_unwrap_account : String → Contract → Outcome Account
internal_unwrap_account account_id s =
    bind (internal_get_account account_id s) λ found. expect found "The account doesn't exist"

-- The two branches of `internal_set_account` that change the use of storage.
unfoldable pub take_from_pool :
    ℕ → Env → Option AccountSharedStorage → Action Contract (Option AccountSharedStorage)
take_from_pool extra e none = pure none
take_from_pool extra e (some shared) = do
  pool ← asks (internal_unwrap_shared_storage_pool shared.pool_id)
  free ← lift (available_shared e pool shared)
  let pool_bytes = min free extra
  pool_used ← lift (checked_add u64_mod pool.used_bytes pool_bytes)
  used ← lift (checked_add u64_mod shared.used_bytes pool_bytes)
  (if ltb 0 pool_bytes
      then internal_set_shared_storage_pool shared.pool_id (record pool { used_bytes = pool_used })
      else pure tt)
  pure (some (record shared { used_bytes = used }))

unfoldable pub use_more : Env → ℕ → Account → Action Contract Account
use_more e extra a = do
  used ← lift (checked_add u64_mod a.used_bytes extra)
  shared ← take_from_pool extra e a.shared_storage
  let grown = record a { used_bytes = used; shared_storage = shared }
  lift (assert_storage_covered e grown)
  pure grown

unfoldable pub give_to_pool :
    ℕ → Option AccountSharedStorage → Action Contract (Option AccountSharedStorage)
give_to_pool released none = pure none
give_to_pool released (some shared) = do
  let pool_bytes = min shared.used_bytes released
  (if ltb 0 pool_bytes
      then (asks (internal_unwrap_shared_storage_pool shared.pool_id) >>= λ pool.
          require (leb pool_bytes pool.used_bytes) "Internal storage accounting bug"
          >> internal_set_shared_storage_pool shared.pool_id
              (record pool { used_bytes = pool.used_bytes - pool_bytes }))
      else pure tt)
  pure (some (record shared { used_bytes = shared.used_bytes - pool_bytes }))

unfoldable pub use_less : ℕ → Account → Action Contract Account
use_less released a = do
  require (leb released a.used_bytes) "Internal storage accounting bug"
  shared ← give_to_pool released a.shared_storage
  pure (record a { used_bytes = a.used_bytes - released; shared_storage = shared })

unfoldable pub settle_bytes : Env → Account → Action Contract Account
settle_bytes e a =
    if ltb a.storage_tracker.bytes_released a.storage_tracker.bytes_added
    then use_more e (a.storage_tracker.bytes_added - a.storage_tracker.bytes_released) a
    else if ltb a.storage_tracker.bytes_added a.storage_tracker.bytes_released
    then use_less (a.storage_tracker.bytes_released - a.storage_tracker.bytes_added) a
    else pure a

-- The result says whether the account was there before.
unfoldable pub internal_set_account : Env → Account → Action Contract Bool
internal_set_account e account = do
  settled ← settle_bytes e account
  let saved = record settled {
    storage_tracker = record settled.storage_tracker { bytes_added = 0; bytes_released = 0 };
  }
  existed ← gets (λ s. is_some (lookup saved.node_id s.accounts))
  modify (λ s. record s { accounts = insert saved.node_id (current saved) s.accounts })
  pure existed

-- `internal_set_node` of node.rs.
unfoldable pub internal_set_node : Env → Node → Action Contract (Unit {0})
internal_set_node e n = modify (λ s. record s {
  nodes = insert n.node_id (record n { block_height = e.block_height }) s.nodes;
})

unfoldable pub internal_initial_set_account : Env → String → Account → Action Contract (Unit {0})
internal_initial_set_account e account_id account = do
  before ← gets e.storage_usage
  started ← lift (start before account.storage_tracker)
  fresh ← lift (new_node e account.node_id none)
  internal_set_node e fresh
  modify (λ s. record s {
    root_node = record s.root_node {
      block_height = e.block_height;
      children = put account_id (node account.node_id) s.root_node.children;
    };
  })
  existed ←
      internal_set_account e
        (record (new_account account.node_id) { shared_storage = account.shared_storage })
  require (not existed) "Internal bug. Account already exists."
  after ← gets e.storage_usage
  stopped ← lift (stop after started)
  known ← internal_set_account e (record account { storage_tracker = stopped })
  pure tt

unfoldable pub internal_create_account : Env → String → ℕ → Bool → Action Contract (Unit {0})
internal_create_account e account_id storage_deposit registration_only = do
  node_id ← create_node_id
  (if registration_only && ltb 0 storage_deposit
      then modify (send e.predecessor_account_id storage_deposit)
      else pure tt)
  internal_initial_set_account e account_id (record (new_account node_id) {
    storage_balance = if registration_only then 0 else storage_deposit;
  })

unfoldable pub internal_create_account_from_shared_storage :
    Env → String → ℕ → String → Action Contract (Unit {0})
internal_create_account_from_shared_storage e account_id max_bytes pool_id = do
  let shared : AccountSharedStorage = record {
    max_bytes = max_bytes;
    used_bytes = 0;
    pool_id = pool_id;
  }
  require (leb min_storage_bytes max_bytes)
      "The max bytes is less than the minimum storage required"
  pool ← asks (internal_unwrap_shared_storage_pool pool_id)
  free ← lift (available_shared e pool shared)
  require (leb min_storage_bytes free)
      "Not enough storage available in the shared storage pool to create an account"
  node_id ← create_node_id
  internal_initial_set_account e account_id
      (record (new_account node_id) { shared_storage = some shared })

unfoldable pub internal_unwrap_account_or_create : Env → String → ℕ → Action Contract Account
internal_unwrap_account_or_create e account_id storage_deposit = do
  require (e.is_valid_account_id account_id) "Invalid account id"
  found ← asks (internal_get_account account_id)
  elim found [
    | some a ↦
        pure
          (record a { storage_balance = saturating_add u128_mod a.storage_balance storage_deposit })
    | none ↦
        internal_create_account e account_id storage_deposit false
        >> asks (internal_unwrap_account account_id)
  ]

pub record StorageBalance : Type 0 where
  pub total : ℕ
  pub available : ℕ

-- The bytes that the account pays for itself.
abbrev pub balance_of : Env → Account → Outcome StorageBalance
balance_of e a = bind (checked_sub a.used_bytes (shared_used a.shared_storage)) λ own_bytes.
    ok (record {
      total = a.storage_balance;
      available = saturating_sub a.storage_balance (saturating_mul own_bytes e.storage_byte_cost);
    })

unfoldable pub internal_storage_balance_of :
    Env → String → Contract → Outcome (Option StorageBalance)
internal_storage_balance_of e account_id s =
    bind (internal_get_account account_id s)
      (elim [ none ↦ ok none | some a ↦ bind (balance_of e a) λ b. ok (some b) ])

unfoldable pub internal_storage_withdraw : Env → String → Option ℕ → Action Contract StorageBalance
internal_storage_withdraw e withdraw_from asked = do
  found ← asks (internal_storage_balance_of e withdraw_from)
  balance ← lift (expect found "The account is not registered")
  let amount = unwrap_or balance.available asked
  require (leb amount balance.available) "The amount is greater than the available storage balance"
  (if ltb 0 amount
      then (asks (internal_unwrap_account withdraw_from) >>= λ account.
          internal_set_account e
            (record account { storage_balance = saturating_sub account.storage_balance amount })
          >>= λ _. modify (send e.predecessor_account_id amount))
      else pure tt)
  left ← asks (internal_storage_balance_of e withdraw_from)
  lift (expect left "called `Option::unwrap()` on a `None` value")

-- The account is credited, or made.
unfoldable pub credit_or_create : Env → String → Bool → Option Account → Action Contract (Unit {0})
credit_or_create e account_id registration_only (some account) =
    if registration_only && ltb 0 e.attached_deposit
    then modify (send e.predecessor_account_id e.attached_deposit)
    else (internal_set_account e (record account {
      storage_balance = saturating_add u128_mod account.storage_balance e.attached_deposit;
    })
        >>= λ _. pure tt)
credit_or_create e account_id registration_only none =
    internal_create_account e account_id e.attached_deposit registration_only

unfoldable pub storage_deposit : Env → Option String → Option Bool → Action Contract StorageBalance
storage_deposit e to only = do
  assert_live
  let account_id = unwrap_or e.predecessor_account_id to
  let registration_only = unwrap_or false only
  found ← asks (internal_get_account account_id)
  credit_or_create e account_id registration_only found
  left ← asks (internal_storage_balance_of e account_id)
  lift (expect left "called `Option::unwrap()` on a `None` value")

-- `assert_one_atto` of the SDK wants exactly one.
unfoldable pub storage_withdraw : Env → Option ℕ → Action Contract StorageBalance
storage_withdraw e amount = do
  assert_live
  require (e.attached_deposit == 1) "Requires attached deposit of exactly 1 atto"
  internal_storage_withdraw e e.predecessor_account_id amount

unfoldable pub storage_unregister : Env → Option Bool → Action Contract Bool
storage_unregister e force = do assert_live; fail "The account can't be unregistered"

unfoldable pub storage_balance_of : Env → String → Contract → Outcome (Option StorageBalance)
storage_balance_of e account_id s = internal_storage_balance_of e account_id s

unfoldable pub get_account : String → Contract → Outcome (Option Account)
get_account account_id s = internal_get_account account_id s

unfoldable pub get_account_count : Contract → ℕ
get_account_count s = length s.root_node.children
