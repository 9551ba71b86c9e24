-- ===== src/StakingPoolFactory.antt =====
-- staking-pool-factory/src: pools made on demand. Account ids are numbers, so what the source does to
-- their text is given: `has_dot` looks for a dot, `sub_account` puts an id before the factory's own.
use contract_new_project_tem.Prelude.{
  ℕ, suc, Bool, true, false, not, Option, none, some, List, [], ◌∷◌, ◌==◌, leb, if◌then◌else◌,
  Outcome, ok, bind, ensure, Action, ◌>>=◌, ◌>>◌, gets, lift, modify, require, pure,
}
use contract_new_project_tem.Prelude.Map.{Map, lookup, insert, remove}
use contract_new_project_tem.Host.{Env, AccountId, PublicKey, PromiseResult, successful, failed}
pub mod Creation
mod Examples

pub record RewardFeeFraction : Type 0 where
  pub numerator : ℕ
  pub denominator : ℕ

unfoldable pub assert_valid : RewardFeeFraction → Outcome (Unit {0})
assert_valid f =
    bind (ensure (not (f.denominator == 0)) "Denominator must be a positive number")
      λ _. ensure (leb f.numerator f.denominator) "The reward fee must be less or equal to 1"

pub record StakingPoolArgs : Type 0 where
  pub owner_id : AccountId
  pub stake_public_key : PublicKey
  pub reward_fee_fraction : RewardFeeFraction

-- What the factory asks for: a new account with a deposit, the pool's code and a call of `new`; an entry
-- in the whitelist; or a transfer back.
pub data Request : Type 0 where
  create_pool : ℕ → StakingPoolArgs → Request
  add_staking_pool : AccountId → Request
  transfer : ℕ → Request

-- The method of `ExtSelf`.
pub data Callback : Type 0 where
  staking_pool_create : AccountId → ℕ → AccountId → Callback

pub record Message : Type 0 where
  pub receiver_id : AccountId
  pub request : Request
  pub callback : Option Callback

pub record StakingPoolFactory : Type 0 where
  pub staking_pool_whitelist_account_id : AccountId
  pub staking_pool_account_ids : Map (Unit {0})
  pub promises : List Message

abbrev pub min_attached_balance : ℕ
min_attached_balance = 30_000_000_000_000_000_000_000_000

abbrev pub is_some : {A : Type 0} → Option A → Bool
is_some none = false
is_some (some _) = true

-- The factory made this pool, or is making it.
abbrev pub contains : AccountId → StakingPoolFactory → Bool
contains pool s = is_some (lookup pool s.staking_pool_account_ids)

-- A new promise is the head of the list.
abbrev pub create_promise :
    AccountId → Request → Option Callback → StakingPoolFactory → StakingPoolFactory
create_promise receiver_id request callback s = record s {
  promises =
      record { receiver_id = receiver_id; request = request; callback = callback } ∷ s.promises;
}

unfoldable pub new : Env → AccountId → Outcome StakingPoolFactory
new e whitelist = bind (ensure (not e.state_exists) "The contract is already initialized") λ _.
    bind
      (ensure (e.is_valid_account_id whitelist) "The staking pool whitelist account ID is invalid")
      λ _. ok (record {
        staking_pool_whitelist_account_id = whitelist;
        staking_pool_account_ids = [];
        promises = [];
      })

abbrev pub get_min_attached_balance : ℕ
get_min_attached_balance = min_attached_balance

unfoldable pub count : Map (Unit {0}) → ℕ
count [] = 0
count ((k, _) ∷ m) = suc (count m)

unfoldable pub get_number_of_staking_pools_created : StakingPoolFactory → ℕ
get_number_of_staking_pools_created s = count s.staking_pool_account_ids

module _ (has_dot : AccountId → Bool) (sub_account : AccountId → AccountId → AccountId) where
  unfoldable pub create_staking_pool :
      Env → AccountId → StakingPoolArgs → Action StakingPoolFactory (Unit {0})
  create_staking_pool e staking_pool_id args = do
    require (leb min_attached_balance e.attached_deposit)
        "Not enough attached deposit to complete staking pool creation"
    require (not (has_dot staking_pool_id)) "The staking pool ID can't contain `.`"
    let pool = sub_account staking_pool_id e.current_account_id
    require (e.is_valid_account_id pool) "The staking pool account ID is invalid"
    require (e.is_valid_account_id args.owner_id) "The owner account ID is invalid"
    lift (assert_valid args.reward_fee_fraction)
    known ← gets (contains pool)
    modify (λ s. record s { staking_pool_account_ids = insert pool tt s.staking_pool_account_ids })
    require (not known) "The staking pool account ID already exists"
    modify (
        create_promise pool (create_pool e.attached_deposit args)
          (some (staking_pool_create pool e.attached_deposit e.predecessor_account_id)))

unfoldable pub is_promise_success : List PromiseResult → Outcome Bool
is_promise_success (successful ∷ []) = ok true
is_promise_success (failed ∷ []) = ok false
is_promise_success _ =
    bind (ensure false "Contract expected a result on the callback") λ _. ok false

-- The result is `false` for a creation that failed; the promise to the whitelist is the result of one
-- that succeeded. That promise goes to the factory's own account.
unfoldable pub on_staking_pool_create :
    Env → AccountId → ℕ → AccountId → Action StakingPoolFactory Bool
on_staking_pool_create e pool attached_deposit predecessor_account_id = do
  require (e.predecessor_account_id == e.current_account_id) "assertion `left == right` failed"
  staking_pool_created ← lift (is_promise_success e.promise_results)
  (if staking_pool_created
      then modify (create_promise e.current_account_id (add_staking_pool pool) none)
      else (modify
            (λ s. record s { staking_pool_account_ids = remove pool s.staking_pool_account_ids })
          >> modify (create_promise predecessor_account_id (transfer attached_deposit) none)))
  pure staking_pool_created
