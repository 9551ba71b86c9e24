-- ===== src/LockupFactory.antt =====
-- lockup-factory/src: lockup contracts made on demand. The types of its types.rs that it uses are those
-- of the lockup contract. Account ids are numbers, so what the source does to their text is given:
-- `id_length` measures an id, `lockup_account` makes the id of a lockup from the hash of its owner's id.
use contract_new_project_tem.Prelude.{
  ℕ, Bool, true, false, not, Option, none, some, List, [], ◌∷◌, ◌==◌, leb, if◌then◌else◌, Outcome,
  ok, bind, ensure, Action, ◌>>=◌, ◌>>◌, lift, gets, modify, require, pure,
}
use contract_new_project_tem.Host.{Env, AccountId, PromiseResult, successful, failed}
use contract_new_project_tem.Lockup.State.{
  TransfersInformation, transfers_enabled, VestingScheduleOrHash,
}
pub mod Creation
mod Examples

-- The arguments of `new` of the lockup contract.
pub record LockupArgs : Type 0 where
  pub owner_account_id : AccountId
  pub lockup_duration : ℕ
  pub lockup_timestamp : Option ℕ
  pub transfers_information : TransfersInformation
  pub vesting_schedule : Option VestingScheduleOrHash
  pub release_duration : Option ℕ
  pub staking_pool_whitelist_account_id : AccountId
  pub foundation_account_id : Option AccountId

-- What the factory asks for: a new account with a deposit, the lockup's code and a call of `new`; or a
-- transfer back.
pub data Request : Type 0 where
  create_lockup : ℕ → LockupArgs → Request
  transfer : ℕ → Request

-- The method of `ExtSelf`.
pub data Callback : Type 0 where
  lockup_create : AccountId → ℕ → AccountId → Callback

pub record Message : Type 0 where
  pub receiver_id : AccountId
  pub request : Request
  pub callback : Option Callback

pub record LockupFactory : Type 0 where
  pub whitelist_account_id : AccountId
  pub foundation_account_id : AccountId
  pub promises : List Message

abbrev pub min_attached_balance : ℕ
min_attached_balance = 3_500_000_000_000_000_000_000_000

abbrev pub transfers_started : ℕ
transfers_started = 1_602_614_338_293_769_340

unfoldable pub new : (AccountId → ℕ) → Env → AccountId → AccountId → Outcome LockupFactory
new id_length e whitelist foundation =
    bind (ensure (not e.state_exists) "The contract is already initialized") λ _.
      bind
        (ensure (leb (id_length e.current_account_id) 23)
          "The account ID of this contract can't be more than 23 characters")
        λ _. ok (record {
          whitelist_account_id = whitelist;
          foundation_account_id = foundation;
          promises = [];
        })

unfoldable pub get_foundation_account_id : LockupFactory → AccountId
get_foundation_account_id s = s.foundation_account_id

unfoldable pub get_lockup_master_account_id : Env → AccountId
get_lockup_master_account_id e = e.current_account_id

abbrev pub get_min_attached_balance : ℕ
get_min_attached_balance = min_attached_balance

-- The foundation is named where there is a vesting.
abbrev pub foundation_for : Option VestingScheduleOrHash → AccountId → Option AccountId
foundation_for none foundation = none
foundation_for (some v) foundation = some foundation

abbrev pub or_default : AccountId → Option AccountId → AccountId
or_default a none = a
or_default a (some b) = b

-- A new promise is the head of the list.
abbrev pub create_promise : AccountId → Request → Option Callback → LockupFactory → LockupFactory
create_promise receiver_id request callback s = record s {
  promises =
      record { receiver_id = receiver_id; request = request; callback = callback } ∷ s.promises;
}

unfoldable pub create :
    (AccountId → AccountId → AccountId)
    → Env
    → AccountId
    → ℕ
    → Option ℕ
    → Option VestingScheduleOrHash
    → Option ℕ
    → Option AccountId
    → Action LockupFactory (Unit {0})
create lockup_account e owner lockup_duration lockup_timestamp vesting release_duration whitelist =
    do
      require (leb min_attached_balance e.attached_deposit) "Not enough attached deposit"
      let lockup = lockup_account owner e.current_account_id
      require (e.is_valid_account_id lockup) "called `Result::unwrap()` on an `Err` value"
      modify (λ s.
          create_promise lockup
            (create_lockup e.attached_deposit (record {
              owner_account_id = owner;
              lockup_duration = lockup_duration;
              lockup_timestamp = lockup_timestamp;
              transfers_information = transfers_enabled transfers_started;
              vesting_schedule = vesting;
              release_duration = release_duration;
              staking_pool_whitelist_account_id = or_default s.whitelist_account_id whitelist;
              foundation_account_id = foundation_for vesting s.foundation_account_id;
            }))
            (some (lockup_create lockup e.attached_deposit e.predecessor_account_id)) s)

unfoldable pub is_promise_success : List PromiseResult → Outcome Bool
is_promise_success (successful ∷ []) = ok true
is_promise_success (failed ∷ []) = ok false
is_promise_success _ =
    bind (ensure false "Contract expected a result on the callback") λ _. ok false

unfoldable pub on_lockup_create : Env → AccountId → ℕ → AccountId → Action LockupFactory Bool
on_lockup_create e lockup attached_deposit predecessor_account_id = do
  require (e.predecessor_account_id == e.current_account_id) "assertion `left == right` failed"
  lockup_account_created ← lift (is_promise_success e.promise_results)
  (if lockup_account_created
      then pure tt
      else modify (create_promise predecessor_account_id (transfer attached_deposit) none))
  pure lockup_account_created
