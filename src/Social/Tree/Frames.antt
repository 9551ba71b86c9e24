-- ===== src/Social/Tree/Frames.antt =====
-- The methods of social-web3/contract/src that leave the nodes alone: the storage deposits, their
-- withdrawal, and the shared pools.
use Prim.Native.Nat.{min}
use contract_new_project_tem.Prelude.{
  inr, ℕ, refl, Bool, Option, none, some, String, Holds, seq-Holds, lift-Holds, asks-Holds,
  lift-Holds_last, require-Holds, any_Holds, if-pred, ◌>>=◌, asks, modify, pure, expect,
  saturating_sub, if◌then◌else◌, ◌&&◌, Action, arith, ltb, leb, ◌==◌,
}
use contract_new_project_tem.Social.State.{
  assert_live, is_live, ContractStatus, set_status, no_tracker, AccountSharedStorage,
  SharedStoragePool, Env, Contract, send, Account,
}
use contract_new_project_tem.Social.Pools.{
  internal_set_shared_storage_pool, shared_storage_pool_deposit, consume, unwrap_or, start, stop,
}
use contract_new_project_tem.Social.Accounts.{
  storage_withdraw, StorageBalance, internal_unwrap_account, internal_set_account,
  internal_storage_withdraw, internal_storage_balance_of,
}
use contract_new_project_tem.Social.Sharing.{move_to_pool, extend_share, share_with, save_measured}
use contract_new_project_tem.Social.Setting.{refund_unused}
use contract_new_project_tem.Social.Tree.Accounts.{sent-same}
use contract_new_project_tem.Social.Tree.Same.{
  Leaves, internal_set_account-same, SameNodes-refl, SameNodes-trans,
}

-- What a withdrawal pays out.
abbrev pay_out : Env → String → ℕ → Action Contract (Unit {0})
pay_out e from amount =
    if ltb 0 amount
    then (asks (internal_unwrap_account from) >>= λ account.
        internal_set_account e
          (record account { storage_balance = saturating_sub account.storage_balance amount })
        >>= λ _. modify (send e.predecessor_account_id amount))
    else pure tt

pay_out-same :
    (e : Env) (from : String) (amount : ℕ) (s : Contract)
    → Holds (Leaves s) (pay_out e from amount s)
pay_out-same e from amount s =
    if-pred (Holds (Leaves s)) (ltb 0 amount) _ _ s
      (λ _.
        asks-Holds (λ _. Unit) _ (internal_unwrap_account from) _ s (any_Holds _)
          λ account _.
            seq-Holds _ _
              (internal_set_account e (record account {
                storage_balance = saturating_sub account.storage_balance amount;
              }))
              _ s (internal_set_account-same e _ s)
              λ _ t frame. SameNodes-trans frame (sent-same e amount t))
      (λ _. SameNodes-refl s)

pub internal_storage_withdraw-same :
    (e : Env) (from : String) (asked : Option ℕ) (s : Contract)
    → Holds (Leaves s) (internal_storage_withdraw e from asked s)
unfolding internal_storage_withdraw
internal_storage_withdraw-same e from asked s =
    asks-Holds (λ _. Unit) _ (internal_storage_balance_of e from) _ s (any_Holds _)
      λ found _.
        lift-Holds (λ _. Unit) _ (expect found "The account is not registered") _ s (any_Holds _)
          λ balance _.
            require-Holds _ (leb (unwrap_or balance.available asked) balance.available)
              "The amount is greater than the available storage balance" _ s
              λ _.
                seq-Holds (Leaves s) _ (pay_out e from (unwrap_or balance.available asked)) _ s
                  (pay_out-same e from (unwrap_or balance.available asked) s)
                  λ _ t frame.
                    asks-Holds (λ _. Unit) _ (internal_storage_balance_of e from) _ t (any_Holds _)
                      λ left _.
                        lift-Holds_last (λ _. Unit) (Leaves s)
                          (expect left "called `Option::unwrap()` on a `None` value") t
                          (any_Holds _) λ _ _. frame

pub refund_unused-same :
    (e : Env) (owner : String) (refund : Bool) (balance : ℕ) (s : Contract)
    → Holds (Leaves s) (refund_unused e owner refund balance s)
unfolding refund_unused
refund_unused-same e owner refund balance s =
    if-pred (Holds (Leaves s)) (refund && ltb 0 balance) _ _ s
      (λ _.
        asks-Holds (λ _. Unit) _ (internal_storage_balance_of e owner) _ s (any_Holds _)
          λ found _. refunded found)
      (λ _. SameNodes-refl s)
  where
    refunded :
        (found : Option StorageBalance)
        → Holds (Leaves s) (
            (elim found as (λ _. Action Contract (Unit {0})) [
              | none ↦ pure tt
              | some b ↦ internal_storage_withdraw e owner (some (min b.available balance)) >>= λ _.
                  pure tt
            ])
              s)
    refunded none = SameNodes-refl s
    refunded (some b) =
        seq-Holds _ _ (internal_storage_withdraw e owner (some (min b.available balance))) _ s
          (internal_storage_withdraw-same e owner _ s) λ _ t frame. frame

pub set_status-same :
    (e : Env) (status : ContractStatus) (s : Contract) → Holds (Leaves s) (set_status e status s)
unfolding set_status
set_status-same e status s = ground arith

pub set_pool-same :
    (owner : String) (p : SharedStoragePool) (s : Contract)
    → Holds (Leaves s) (internal_set_shared_storage_pool owner p s)
unfolding internal_set_shared_storage_pool
set_pool-same owner p s = record {
  past = inr refl;
  root = refl;
  nodes = refl;
  count = refl;
  permissions = refl;
}

pub shared_storage_pool_deposit-same :
    (e : Env) (owner : Option String) (s : Contract)
    → Holds (Leaves s) (shared_storage_pool_deposit e owner s)
unfolding shared_storage_pool_deposit internal_set_shared_storage_pool
shared_storage_pool_deposit-same e owner s = ground arith

pub share_with-same :
    (e : Env) (max_bytes : ℕ) (pool_id : String) (old : Option AccountSharedStorage)
    (pool : SharedStoragePool) (s : Contract)
    → Holds (Leaves s) (share_with e max_bytes pool_id old pool s)
unfolding share_with move_to_pool extend_share internal_set_shared_storage_pool
share_with-same e max_bytes pool_id old pool s = ground arith

pub save_measured-same :
    (e : Env) (owner : String) (a : Account) (s : Contract)
    → Holds (Leaves s) (save_measured e owner a s)
unfolding save_measured
save_measured-same e owner a s =
    lift-Holds (λ _. Unit) _ (start (e.storage_usage s) no_tracker) _ s (any_Holds _)
      λ started _.
        seq-Holds _ _ (internal_set_account e a) _ s (internal_set_account-same e a s) λ _ t frame.
          lift-Holds (λ _. Unit) _ (stop (e.storage_usage t) started) _ t (any_Holds _)
            λ stopped _.
              asks-Holds (λ _. Unit) _ (internal_unwrap_account owner) _ t (any_Holds _)
                λ saved _.
                  lift-Holds (λ _. Unit) _ (consume stopped saved.storage_tracker) _ t (any_Holds _)
                    λ tracker _.
                      seq-Holds _ _
                        (internal_set_account e (record saved { storage_tracker = tracker })) _ t
                        (internal_set_account-same e _ t) λ _ u after. SameNodes-trans frame after

pub storage_withdraw-same :
    (e : Env) (amount : Option ℕ) (s : Contract) → Holds (Leaves s) (storage_withdraw e amount s)
unfolding storage_withdraw assert_live
storage_withdraw-same e amount s =
    require-Holds _ (is_live s.status) "The contract status is not Live" _ s λ _.
      require-Holds _ (e.attached_deposit == 1) "Requires attached deposit of exactly 1 atto" _ s
        λ _. internal_storage_withdraw-same e e.predecessor_account_id amount s
