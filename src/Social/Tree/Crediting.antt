-- ===== src/Social/Tree/Crediting.antt =====
-- `storage_deposit` and `share_storage` of social-web3/contract/src keep the nodes descending.
use contract_new_project_tem.Prelude.{
  ℕ, Bool, Option, none, some, String, Holds, Holds_mono, seq-Holds, lift-Holds, asks-Holds,
  lift-Holds_last, require-Holds, checked_add, u64_mod, saturating_add, u128_mod, any_Holds,
  if-pred, expect, ◌&&◌, ltb, leb,
}
use contract_new_project_tem.Social.State.{
  min_storage_bytes, SharedStoragePool, assert_live, is_live, Env, Contract, Account,
}
use contract_new_project_tem.Social.Pools.{
  available_bytes, internal_unwrap_shared_storage_pool, internal_set_shared_storage_pool, unwrap_or,
}
use contract_new_project_tem.Social.Accounts.{
  credit_or_create, internal_get_account, storage_deposit, internal_set_account,
  internal_storage_balance_of,
}
use contract_new_project_tem.Social.Sharing.{share_storage, share_to, share_with, save_measured}
use contract_new_project_tem.Social.Tree.{IsDescending}
use contract_new_project_tem.Social.Tree.Accounts.{
  internal_create_account-Tended, internal_create_account_from_shared_storage-Tended, sent-same,
}
use contract_new_project_tem.Social.Tree.Same.{
  SameNodes-Grows, SameNodes-IsDescending, Leaves, internal_set_account-same, Tended, Leaves-Tended,
  then-Tended, SameNodes-trans,
}
use contract_new_project_tem.Social.Tree.Frames.{set_pool-same, share_with-same, save_measured-same}

credit_or_create-Tended :
    (e : Env) (owner : String) (only : Bool) (found : Option Account) (s : Contract)
    → IsDescending s
    → Holds (Tended s) (credit_or_create e owner only found s)
unfolding credit_or_create
credit_or_create-Tended e owner only none s v =
    internal_create_account-Tended e owner e.attached_deposit only s v
credit_or_create-Tended e owner only (some a) s v = Leaves-Tended s _ v (
    if-pred (Holds (Leaves s)) (only && ltb 0 e.attached_deposit) _ _ s
      (λ _. sent-same e e.attached_deposit s)
      (λ _.
        seq-Holds _ _
          (internal_set_account e (record a {
            storage_balance = saturating_add u128_mod a.storage_balance e.attached_deposit;
          }))
          _ s (internal_set_account-same e _ s) λ _ t frame. frame))

pub storage_deposit-Tended :
    (e : Env) (to : Option String) (only : Option Bool) (s : Contract)
    → IsDescending s
    → Holds (Tended s) (storage_deposit e to only s)
unfolding storage_deposit assert_live
storage_deposit-Tended e to only s v =
    require-Holds _ (is_live s.status) "The contract status is not Live" _ s λ _.
      asks-Holds (λ _. Unit) _ (internal_get_account (unwrap_or e.predecessor_account_id to)) _ s
        (any_Holds _)
        λ found _.
          seq-Holds _ _ (credit_or_create e _ _ found) _ s (credit_or_create-Tended e _ _ found s v)
            λ _ t tended.
              asks-Holds (λ _. Unit) _
                (internal_storage_balance_of e (unwrap_or e.predecessor_account_id to)) _ t
                (any_Holds _)
                λ left _.
                  lift-Holds_last (λ _. Unit) (Tended s)
                    (expect left "called `Option::unwrap()` on a `None` value") t (any_Holds _)
                    λ _ _. tended

share_to-Tended :
    (e : Env) (owner : String) (max_bytes : ℕ) (pool : SharedStoragePool) (found : Option Account)
    (s : Contract)
    → IsDescending s
    → Holds (Tended s) (share_to e owner max_bytes pool found s)
unfolding share_to
share_to-Tended e owner max_bytes pool (some a) s v = Leaves-Tended s _ v (
    seq-Holds _ _ (share_with e max_bytes e.predecessor_account_id a.shared_storage pool) _ s
      (share_with-same e max_bytes e.predecessor_account_id a.shared_storage pool s)
      λ share t frame.
        Holds_mono (save_measured e owner (record a { shared_storage = some share }) t)
          (λ r after. SameNodes-trans frame after)
          (save_measured-same e owner (record a { shared_storage = some share }) t))
share_to-Tended e owner max_bytes pool none s v =
    lift-Holds (λ _. Unit) _ (checked_add u64_mod pool.shared_bytes max_bytes) _ s (any_Holds _)
      λ shared _.
        seq-Holds _ _ (internal_set_shared_storage_pool e.predecessor_account_id _) _ s
          (set_pool-same e.predecessor_account_id _ s)
          λ _ t frame. then-Tended s t _ (SameNodes-Grows frame) (
            internal_create_account_from_shared_storage-Tended e owner max_bytes
              e.predecessor_account_id t (SameNodes-IsDescending frame v))

pub share_storage-Tended :
    (e : Env) (owner : String) (max_bytes : ℕ) (s : Contract)
    → IsDescending s
    → Holds (Tended s) (share_storage e owner max_bytes s)
unfolding share_storage
share_storage-Tended e owner max_bytes s v =
    require-Holds _ (leb min_storage_bytes max_bytes) "Max bytes must be at least 2000" _ s λ _.
      asks-Holds (λ _. Unit) _ (internal_get_account owner) _ s (any_Holds _)
        λ found _.
          asks-Holds (λ _. Unit) _ (internal_unwrap_shared_storage_pool e.predecessor_account_id) _
            s (any_Holds _)
            λ pool _.
              lift-Holds (λ _. Unit) _ (available_bytes e pool) _ s (any_Holds _)
                λ free _.
                  require-Holds _ (leb max_bytes free)
                    "Not enough storage available in the shared storage pool" _ s
                    λ _. share_to-Tended e owner max_bytes pool found s v
