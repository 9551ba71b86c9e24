-- ===== src/Social/Pools.antt =====
-- storage_tracker.rs, and the pools of shared_storage.rs, in social-web3/contract/src. The guard on
-- the drop of a tracker is left out: every path below ends with the tracker emptied.
use Prim.Native.Nat.{min}
use contract_new_project_tem.Prelude.{
  ℕ, ◌-◌, ◌/◌, ◌%◌, Bool, true, false, Option, none, some, String, Outcome, ok, panic, bind, ensure,
  expect, Action, ◌>>=◌, ◌>>◌, gets, lift, modify, require, pure, checked_add, checked_sub,
  saturating_add, u64_mod, u128_mod, ltb, leb, ◌==◌, if◌then◌else◌, ◌&&◌,
}
use contract_new_project_tem.Prelude.Dict.{find, put}
use contract_new_project_tem.Social.State.{
  Env, Contract, SharedStoragePool, AccountSharedStorage, StorageTracker, no_tracker,
}

abbrev pub minimum_shared_storage_balance : ℕ
minimum_shared_storage_balance = 100_000_000_000_000_000_000_000_000

abbrev pub is_some : {A : Type 0} → Option A → Bool
is_some none = false
is_some (some _) = true

abbrev pub is_none : {A : Type 0} → Option A → Bool
is_none none = true
is_none (some _) = false

-- `StorageTracker::start` and `stop`, on what is stored at that moment.
unfoldable pub start : ℕ → StorageTracker → Outcome StorageTracker
start usage t =
    bind (ensure (is_none t.initial_storage_usage) "The storage tracker is already tracking")
      λ _. ok (record t { initial_storage_usage = some usage })

unfoldable pub stop : ℕ → StorageTracker → Outcome StorageTracker
stop usage t =
    bind (expect t.initial_storage_usage "The storage tracker wasn't tracking") λ initial.
      if leb initial usage
      then (bind (checked_add u64_mod t.bytes_added (usage - initial))
          λ added. ok (record t { bytes_added = added; initial_storage_usage = none }))
      else (bind (checked_add u64_mod t.bytes_released (initial - usage))
          λ released. ok (record t { bytes_released = released; initial_storage_usage = none }))

-- `consume`: the tracker after it, the other one being emptied. The released bytes are replaced.
unfoldable pub consume : StorageTracker → StorageTracker → Outcome StorageTracker
consume other t = bind (checked_add u64_mod t.bytes_added other.bytes_added) λ added.
    bind
      (ensure (is_none other.initial_storage_usage)
        "Can't merge storage tracker that is tracking storage")
      λ _. ok (record t { bytes_added = added; bytes_released = other.bytes_released })

unfoldable pub clear : StorageTracker → Outcome StorageTracker
clear t =
    bind (ensure (is_none t.initial_storage_usage) "Can't clear storage tracker that is active")
      λ _. ok (record t { bytes_added = 0; bytes_released = 0 })

unfoldable pub is_empty : StorageTracker → Bool
is_empty t = t.bytes_added == 0 && t.bytes_released == 0 && is_none t.initial_storage_usage

unfoldable pub new_pool : SharedStoragePool
new_pool = record { storage_balance = 0; used_bytes = 0; shared_bytes = 0 }

abbrev pub divide : ℕ → ℕ → Outcome ℕ
divide a b = if b == 0 then panic "attempt to divide by zero" else ok (a / b)

-- `SharedStoragePool::available_bytes`; the quotient is cut to 64 bits.
unfoldable pub available_bytes : Env → SharedStoragePool → Outcome ℕ
available_bytes e p =
    bind (divide p.storage_balance e.storage_byte_cost)
      λ max_bytes. checked_sub (max_bytes % u64_mod) p.used_bytes

-- `AccountSharedStorage::available_bytes`.
unfoldable pub available_shared : Env → SharedStoragePool → AccountSharedStorage → Outcome ℕ
available_shared e p a =
    bind (checked_sub a.max_bytes a.used_bytes)
      λ left. bind (available_bytes e p) λ free. ok (min left free)

unfoldable pub internal_get_shared_storage_pool : String → Contract → Option SharedStoragePool
internal_get_shared_storage_pool owner_id s = find owner_id s.shared_storage_pools

unfoldable pub internal_unwrap_shared_storage_pool : String → Contract → Outcome SharedStoragePool
internal_unwrap_shared_storage_pool owner_id s =
    expect (find owner_id s.shared_storage_pools) "Shared storage pool not found"

unfoldable pub internal_set_shared_storage_pool :
    String → SharedStoragePool → Action Contract (Unit {0})
internal_set_shared_storage_pool owner_id p =
    modify (λ s. record s { shared_storage_pools = put owner_id p s.shared_storage_pools })

unfoldable pub get_shared_storage_pool : String → Contract → Option SharedStoragePool
get_shared_storage_pool owner_id s = internal_get_shared_storage_pool owner_id s

abbrev pub pool_or_default : Option SharedStoragePool → SharedStoragePool
pool_or_default none = new_pool
pool_or_default (some p) = p

abbrev pub unwrap_or : {A : Type 0} → A → Option A → A
unwrap_or a none = a
unwrap_or a (some b) = b

unfoldable pub shared_storage_pool_deposit : Env → Option String → Action Contract (Unit {0})
shared_storage_pool_deposit e owner = do
  let owner_id = unwrap_or e.predecessor_account_id owner
  require (leb minimum_shared_storage_balance e.attached_deposit)
      "Attached deposit is less than the minimum amount"
  pool ← gets (λ s. pool_or_default (find owner_id s.shared_storage_pools))
  before ← gets e.storage_usage
  tracker ← lift (start before no_tracker)
  internal_set_shared_storage_pool owner_id (record pool {
    storage_balance = saturating_add u128_mod pool.storage_balance e.attached_deposit;
  })
  after ← gets e.storage_usage
  stopped ← lift (stop after tracker)
  (if ltb stopped.bytes_released stopped.bytes_added
      then (gets (internal_unwrap_shared_storage_pool owner_id) >>= λ found.
          lift found >>= λ stored.
          lift (checked_sub stopped.bytes_added stopped.bytes_released) >>= λ extra.
          lift (checked_add u64_mod stored.used_bytes extra) >>= λ used.
          internal_set_shared_storage_pool owner_id (record stored { used_bytes = used }))
      else pure tt)
  cleared ← lift (clear stopped)
  pure tt
