-- ===== src/Social/Storage.antt =====
-- The accounts' books of the storage: account.rs of social-web3/contract/src.
use Prim.Native.Nat.{min}
use contract_new_project_tem.Prelude.{
  ℕ, ◌⊎◌, inl, inr, ◌/◌, ◌%◌, ◌*◌, ◌≤◌, u128_mod, Holds_both, ◌+◌, ◌-◌, ◌<◌, ◌≡◌, refl, Option,
  none, some, String, Holds, arith, seq-Holds, lift-Holds, require-Holds, if-pred, checked_add,
  u64_mod, ltb, leb, ltb→lt, leb→le,
}
use contract_new_project_tem.Prelude.Map.{lookup, lookup-insert}
use contract_new_project_tem.Prelude.Dict.{Dict, find, put, find-put, same_refl}
use contract_new_project_tem.Social.State.{
  Env, Contract, Account, AccountSharedStorage, SharedStoragePool, VAccount, current, NodeId,
}
use contract_new_project_tem.Social.Pools.{
  available_shared, available_bytes, internal_unwrap_shared_storage_pool,
  internal_set_shared_storage_pool,
}
use contract_new_project_tem.Social.Accounts.{
  take_from_pool, give_to_pool, use_more, use_less, settle_bytes, internal_set_account, shared_used,
  assert_storage_covered,
}

checked_add_lem : (bound a b : ℕ) → Holds (λ c. c ≡ a + b) (checked_add bound a b)
checked_add_lem bound a b = ground arith

-- The bytes of a pool that are in use.
abbrev pub used_of : Option SharedStoragePool → ℕ
used_of none = 0
used_of (some p) = p.used_bytes

-- The bytes in use of the pool that an account shares.
abbrev pub pool_use : Option AccountSharedStorage → Dict SharedStoragePool → ℕ
pool_use none pools = 0
pool_use (some share) pools = used_of (find share.pool_id pools)

put_used :
    (k : String) (p : SharedStoragePool) (m : Dict SharedStoragePool)
    → used_of (find k (put k p m)) ≡ p.used_bytes
put_used k p m = ground (arith, find-put k k p m, same_refl k)

take_from_pool-books :
    (extra : ℕ) (e : Env) (share : Option AccountSharedStorage) (s : Contract)
    → Holds
        (λ r.
          pool_use share r.1.shared_storage_pools + shared_used share
          ≡ pool_use share s.shared_storage_pools + shared_used r.0)
        (take_from_pool extra e share s)
unfolding take_from_pool internal_set_shared_storage_pool internal_unwrap_shared_storage_pool
take_from_pool-books extra e none s = refl
take_from_pool-books extra e (some share) s = grind (arith, put_used share.pool_id)

-- What an account may still take from its pool, of the bytes that the pool's balance pays for.
abbrev pub room_in : Env → Option SharedStoragePool → ℕ
room_in e none = 0
room_in e (some p) = p.storage_balance / e.storage_byte_cost % u64_mod - p.used_bytes

abbrev pub pool_room : Env → Option AccountSharedStorage → Dict SharedStoragePool → ℕ
pool_room e none pools = 0
pool_room e (some share) pools =
    min (share.max_bytes - share.used_bytes) (room_in e (find share.pool_id pools))

take_from_pool-share :
    (extra : ℕ) (e : Env) (share : Option AccountSharedStorage) (s : Contract)
    → Holds
        (λ r.
          shared_used r.0
          ≡ shared_used share + min (pool_room e share s.shared_storage_pools) extra)
        (take_from_pool extra e share s)
unfolding take_from_pool internal_set_shared_storage_pool internal_unwrap_shared_storage_pool
    available_shared available_bytes
take_from_pool-share extra e none s = omega arith
take_from_pool-share extra e (some share) s = ground arith

give_to_pool-share :
    (released : ℕ) (share : Option AccountSharedStorage) (s : Contract)
    → Holds
        (λ r. shared_used r.0 ≡ shared_used share - min (shared_used share) released)
        (give_to_pool released share s)
unfolding give_to_pool internal_set_shared_storage_pool internal_unwrap_shared_storage_pool
give_to_pool-share released none s = omega arith
give_to_pool-share released (some share) s = ground arith

give_to_pool-books :
    (released : ℕ) (share : Option AccountSharedStorage) (s : Contract)
    → Holds
        (λ r.
          pool_use share r.1.shared_storage_pools + shared_used share
          ≡ pool_use share s.shared_storage_pools + shared_used r.0)
        (give_to_pool released share s)
unfolding give_to_pool internal_set_shared_storage_pool internal_unwrap_shared_storage_pool
give_to_pool-books released none s = refl
give_to_pool-books released (some share) s = grind (arith, put_used share.pool_id)

-- The balance covers the bytes that an account uses beyond its share of a pool; a price beyond 128 bits
-- counts as the largest.
abbrev pub IsCovered : Env → Account → Type 0
IsCovered e b =
    (shared_used b.shared_storage ≤ b.used_bytes)
    × (min ((b.used_bytes - shared_used b.shared_storage) * e.storage_byte_cost) (u128_mod - 1)
        ≤ b.storage_balance)

-- What was added is taken from the pool as far as there is room, and what was released is given back
-- to it as far as the account has a share.
abbrev pub SharesBy : Env → Account → Contract → Account → Type 0
SharesBy e a s b =
    let added = a.storage_tracker.bytes_added in
    let released = a.storage_tracker.bytes_released in
    shared_used b.shared_storage
    ≡ shared_used a.shared_storage
      + min (pool_room e a.shared_storage s.shared_storage_pools) (added - released)
      - min (shared_used a.shared_storage) (released - added)

-- What an account is charged with after a change that its tracker has measured.
record Charged (e : Env) (a : Account) (s : Contract) (b : Account) (t : Contract) : Type 0 where
  pub node : b.node_id ≡ a.node_id
  pub balance : b.storage_balance ≡ a.storage_balance
  pub bytes :
      b.used_bytes + a.storage_tracker.bytes_released ≡ a.used_bytes + a.storage_tracker.bytes_added
  pub pool :
      pool_use a.shared_storage t.shared_storage_pools + shared_used a.shared_storage
      ≡ pool_use a.shared_storage s.shared_storage_pools + shared_used b.shared_storage
  pub share : SharesBy e a s b
  pub covered : (a.storage_tracker.bytes_added ≤ a.storage_tracker.bytes_released) ⊎ IsCovered e b

abbrev ChargedBy : Env → Account → Contract → Account × Contract → Type 0
ChargedBy e a s r = Charged e a s r.0 r.1

assert_storage_covered_lem :
    (e : Env) (a : Account) → Holds (λ _. IsCovered e a) (assert_storage_covered e a)
unfolding assert_storage_covered
assert_storage_covered_lem e a = ground arith

use_more-Charged :
    (e : Env) (a : Account) (s : Contract)
    → a.storage_tracker.bytes_released < a.storage_tracker.bytes_added
    → Holds
        (ChargedBy e a s)
        (use_more e (a.storage_tracker.bytes_added - a.storage_tracker.bytes_released) a s)
unfolding use_more
use_more-Charged e a s h =
    lift-Holds _ _ (checked_add u64_mod a.used_bytes _) _ s (checked_add_lem u64_mod a.used_bytes _)
      λ used sum.
        seq-Holds _ _ (take_from_pool _ e a.shared_storage) _ s
          (Holds_both _ _ (take_from_pool _ e a.shared_storage s)
            (take_from_pool-books _ e a.shared_storage s)
            (take_from_pool-share _ e a.shared_storage s))
          λ share t (books, taken).
            lift-Holds _ _
              (assert_storage_covered e (record a { used_bytes = used; shared_storage = share })) _
              t (assert_storage_covered_lem e _)
              λ _ covered. record {
                node = refl;
                balance = refl;
                bytes = omega (arith, sum, h);
                pool = books;
                share = omega (arith, taken, h);
                covered = inr covered;
              }

use_less-Charged :
    (e : Env) (a : Account) (s : Contract)
    → a.storage_tracker.bytes_added < a.storage_tracker.bytes_released
    → Holds
        (ChargedBy e a s)
        (use_less (a.storage_tracker.bytes_released - a.storage_tracker.bytes_added) a s)
unfolding use_less
use_less-Charged e a s h =
    require-Holds _
      (leb (a.storage_tracker.bytes_released - a.storage_tracker.bytes_added) a.used_bytes)
      "Internal storage accounting bug" _ s
      λ enough.
        seq-Holds _ _ (give_to_pool _ a.shared_storage) _ s
          (Holds_both _ _ (give_to_pool _ a.shared_storage s)
            (give_to_pool-books _ a.shared_storage s) (give_to_pool-share _ a.shared_storage s))
          λ share t (books, given). record {
            node = refl;
            balance = refl;
            bytes = omega (arith, h, leb→le _ a.used_bytes enough);
            pool = books;
            share = omega (arith, given, h);
            covered = inl (omega (arith, h));
          }

settle_bytes-Charged :
    (e : Env) (a : Account) (s : Contract) → Holds (ChargedBy e a s) (settle_bytes e a s)
unfolding settle_bytes
settle_bytes-Charged e a s =
    let added = a.storage_tracker.bytes_added in
    let released = a.storage_tracker.bytes_released in
    if-pred (Holds (ChargedBy e a s)) (ltb released added) _ _ s
      (λ more. use_more-Charged e a s (ltb→lt released added more))
      (λ no_more.
        if-pred (Holds (ChargedBy e a s)) (ltb added released) _ _ s
          (λ less. use_less-Charged e a s (ltb→lt added released less))
          (λ no_less. record {
            node = refl;
            balance = refl;
            bytes = ground arith;
            pool = refl;
            share = ground arith;
            covered = inl (ground arith);
          }))

-- The account that is saved for a node.
abbrev pub saved : NodeId → Contract → Option VAccount
saved id s = lookup id s.accounts

-- When an account is saved, after its tracker measured a change of the storage, then: its used bytes
-- have grown by what was added and fallen by what was released; the use of its shared pool has moved
-- by exactly as much as the account's share of it, which has taken what was added as far as the
-- share and the pool's balance have room, and has given back what was released as far as it goes; where
-- more was added than released, the balance, which is as it was, covers the bytes that the account
-- pays for itself; and its tracker is empty.
pub internal_set_account-charges :
    (e : Env) (a : Account) (s : Contract)
    → Holds
        (λ r.
          (b : Account) × (saved a.node_id r.1 ≡ some (current b))
          × (b.used_bytes + a.storage_tracker.bytes_released
              ≡ a.used_bytes + a.storage_tracker.bytes_added)
          × (pool_use a.shared_storage r.1.shared_storage_pools + shared_used a.shared_storage
              ≡ pool_use a.shared_storage s.shared_storage_pools + shared_used b.shared_storage)
          × SharesBy e a s b
          × ((a.storage_tracker.bytes_added ≤ a.storage_tracker.bytes_released) ⊎ IsCovered e b)
          × (b.storage_balance ≡ a.storage_balance)
          × (b.storage_tracker.bytes_added ≡ 0)
          × (b.storage_tracker.bytes_released ≡ 0))
        (internal_set_account e a s)
unfolding internal_set_account
internal_set_account-charges e a s =
    seq-Holds _ _ (settle_bytes e a) _ s (settle_bytes-Charged e a s) λ b t k.
      let emptied = record b.storage_tracker { bytes_added = 0; bytes_released = 0 } in
      let kept : Account = record b { storage_tracker = emptied } in
      (
        kept,
        ground (arith, k.node, lookup-insert a.node_id b.node_id (current kept) t.accounts),
        k.bytes,
        k.pool,
        k.share,
        k.covered,
        k.balance,
        refl,
        refl,
      )
