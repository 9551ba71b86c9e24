-- ===== src/Social/Sharing.antt =====
-- `share_storage` and `get_account_storage` of social-web3/contract/src/shared_storage.rs, and the
-- list of the accounts of account.rs.
use Prim.Native.Nat.{min}
use Prim.Native.String.{String}
use contract_new_project_tem.Prelude.{
  ℕ, ◌-◌, ◌%◌, Option, none, some, List, [], ◌∷◌, Outcome, ok, panic, bind, Action, ◌>>=◌, ◌>>◌,
  gets, asks, lift, require, pure, checked_add, checked_sub, u64_mod, ltb, leb, if◌then◌else◌,
  length, take, drop,
}
use contract_new_project_tem.Prelude.Dict.{Dict, same}
use contract_new_project_tem.Social.State.{
  Env, Contract, Account, AccountSharedStorage, SharedStoragePool, NodeValue, value, node,
  deleted_entry, no_tracker, min_storage_bytes,
}
use contract_new_project_tem.Social.Pools.{
  start, stop, consume, available_bytes, available_shared, internal_unwrap_shared_storage_pool,
  internal_set_shared_storage_pool, unwrap_or,
}
use contract_new_project_tem.Social.Accounts.{
  account_at, internal_get_account, internal_unwrap_account, internal_set_account,
  internal_create_account_from_shared_storage, shared_used,
}

-- The account leaves its pool for the caller's, and takes the bytes that it uses along.
unfoldable pub move_to_pool :
    Env
    → ℕ
    → String
    → AccountSharedStorage
    → SharedStoragePool
    → Action Contract AccountSharedStorage
move_to_pool e max_bytes pool_id old pool = do
  old_pool ← asks (internal_unwrap_shared_storage_pool old.pool_id)
  old_free ← lift (available_shared e old_pool old)
  let fresh : AccountSharedStorage = record {
    max_bytes = max_bytes;
    used_bytes = 0;
    pool_id = pool_id;
  }
  free ← lift (available_shared e pool fresh)
  taken ← lift (checked_add u64_mod old.used_bytes old_free)
  least ← lift (checked_add u64_mod taken min_storage_bytes)
  require (leb least free)
      "The difference between the new available bytes and the current available bytes is too small"
  old_used ← lift (checked_sub old_pool.used_bytes old.used_bytes)
  old_shared ← lift (checked_sub old_pool.shared_bytes old.max_bytes)
  internal_set_shared_storage_pool old.pool_id
      (record old_pool { used_bytes = old_used; shared_bytes = old_shared })
  used ← lift (checked_add u64_mod pool.used_bytes old.used_bytes)
  shared ← lift (checked_add u64_mod pool.shared_bytes max_bytes)
  internal_set_shared_storage_pool pool_id
      (record pool { used_bytes = used; shared_bytes = shared })
  pure (record fresh { used_bytes = old.used_bytes })

-- More of the pool that the account is in.
unfoldable pub extend_share :
    ℕ → String → AccountSharedStorage → SharedStoragePool → Action Contract AccountSharedStorage
extend_share max_bytes pool_id old pool = do
  require (ltb old.max_bytes max_bytes) "Max bytes must be greater than the current max bytes"
  shared ← lift (checked_add u64_mod pool.shared_bytes (max_bytes - old.max_bytes))
  internal_set_shared_storage_pool pool_id (record pool { shared_bytes = shared })
  pure (record { max_bytes = max_bytes; used_bytes = old.used_bytes; pool_id = pool_id })

-- The share of an account that is there, by the one that it has.
unfoldable pub share_with :
    Env
    → ℕ
    → String
    → Option AccountSharedStorage
    → SharedStoragePool
    → Action Contract AccountSharedStorage
share_with e max_bytes pool_id none pool = do
  shared ← lift (checked_add u64_mod pool.shared_bytes max_bytes)
  internal_set_shared_storage_pool pool_id (record pool { shared_bytes = shared })
  pure (record { max_bytes = max_bytes; used_bytes = 0; pool_id = pool_id })
share_with e max_bytes pool_id (some old) pool = do
  require (leb old.used_bytes max_bytes) "Max bytes must be greater than or equal to used bytes"
  (if same old.pool_id pool_id
      then extend_share max_bytes pool_id old pool
      else move_to_pool e max_bytes pool_id old pool)

-- The account is saved, and once more with the bytes that saving it took.
unfoldable pub save_measured : Env → String → Account → Action Contract (Unit {0})
save_measured e owner a = do
  before ← gets e.storage_usage
  started ← lift (start before no_tracker)
  existed ← internal_set_account e a
  after ← gets e.storage_usage
  stopped ← lift (stop after started)
  saved ← asks (internal_unwrap_account owner)
  tracker ← lift (consume stopped saved.storage_tracker)
  known ← internal_set_account e (record saved { storage_tracker = tracker })
  pure tt

-- The account gets the share, or is made with it.
unfoldable pub share_to :
    Env → String → ℕ → SharedStoragePool → Option Account → Action Contract (Unit {0})
share_to e owner max_bytes pool (some a) = do
  share ← share_with e max_bytes e.predecessor_account_id a.shared_storage pool
  save_measured e owner (record a { shared_storage = some share })
share_to e owner max_bytes pool none = do
  shared ← lift (checked_add u64_mod pool.shared_bytes max_bytes)
  internal_set_shared_storage_pool e.predecessor_account_id (record pool { shared_bytes = shared })
  internal_create_account_from_shared_storage e owner max_bytes e.predecessor_account_id

unfoldable pub share_storage : Env → String → ℕ → Action Contract (Unit {0})
share_storage e owner max_bytes = do
  require (leb min_storage_bytes max_bytes) "Max bytes must be at least 2000"
  found ← asks (internal_get_account owner)
  pool ← asks (internal_unwrap_shared_storage_pool e.predecessor_account_id)
  free ← lift (available_bytes e pool)
  require (leb max_bytes free) "Not enough storage available in the shared storage pool"
  share_to e owner max_bytes pool found

pub record StorageView : Type 0 where
  pub used_bytes : ℕ
  pub available_bytes : ℕ

abbrev pub free_of_share : Env → Option AccountSharedStorage → Contract → Outcome ℕ
free_of_share e none s = ok 0
free_of_share e (some share) s =
    bind (internal_unwrap_shared_storage_pool share.pool_id s) λ pool. available_shared e pool share

-- The balance, cut to 64 bits, is taken for bytes.
unfoldable pub view_of : Env → Contract → Account → Outcome StorageView
view_of e s a = bind (free_of_share e a.shared_storage s) λ shared_free.
    bind (checked_sub a.used_bytes (shared_used a.shared_storage)) λ own_bytes.
      bind (checked_sub (a.storage_balance % u64_mod) own_bytes) λ own_free.
        bind (checked_add u64_mod own_free shared_free)
          λ free. ok (record { used_bytes = a.used_bytes; available_bytes = free })

unfoldable pub get_account_storage : Env → String → Contract → Outcome (Option StorageView)
get_account_storage e owner s =
    bind (internal_get_account owner s)
      (elim [ none ↦ ok none | some a ↦ bind (view_of e s a) λ v. ok (some v) ])

-- The account of an entry of the root node.
abbrev pub account_in : String × NodeValue → Contract → Outcome (String × Account)
account_in (owner, node id) s = bind (account_at id s) λ a. ok (owner, a)
account_in (owner, value v) s = panic "internal error: entered unreachable code"
account_in (owner, deleted_entry h) s = panic "internal error: entered unreachable code"

abbrev pub accounts_in : Dict NodeValue → Contract → Outcome (List (String × Account))
accounts_in [] s = ok []
accounts_in (c ∷ cs) s = bind (account_in c s) λ a. bind (accounts_in cs s) λ rest. ok (a ∷ rest)

unfoldable pub get_accounts : Option ℕ → Option ℕ → Contract → Outcome (List (String × Account))
get_accounts from_index limit s =
    let children = s.root_node.children in
    let from = unwrap_or 0 from_index in
    bind (checked_add u64_mod from (unwrap_or (length children) limit))
      λ until. accounts_in (take (min (length children) until - from) (drop from children)) s
