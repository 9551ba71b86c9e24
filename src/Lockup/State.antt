-- ===== src/Lockup/State.antt =====
-- The data of lockup/src/types.rs and lib.rs, and `new`.
use contract_new_project_tem.Prelude.{
  ℕ, Bool, true, false, Option, none, some, List, [], Outcome, ok, bind, ensure, leb, ltb,
}
use contract_new_project_tem.Host.{Env, AccountId, PublicKey}

pub data TransfersInformation : Type 0 where
  transfers_enabled : ℕ → TransfersInformation
  transfers_disabled : AccountId → TransfersInformation

pub record LockupInformation : Type 0 where
  pub lockup_amount : ℕ
  pub termination_withdrawn_tokens : ℕ
  pub lockup_duration : ℕ
  pub release_duration : Option ℕ
  pub lockup_timestamp : Option ℕ
  pub transfers_information : TransfersInformation

pub data TransactionStatus : Type 0 where
  idle : TransactionStatus
  busy : TransactionStatus

pub record StakingInformation : Type 0 where
  pub staking_pool_account_id : AccountId
  pub status : TransactionStatus
  pub deposit_amount : ℕ

pub record VestingSchedule : Type 0 where
  pub start_timestamp : ℕ
  pub cliff_timestamp : ℕ
  pub end_timestamp : ℕ

-- `VestingSchedule::assert_valid`.
unfoldable pub assert_valid : VestingSchedule → Outcome (Unit {0})
assert_valid v =
    bind
      (ensure (leb v.start_timestamp v.cliff_timestamp)
        "Cliff timestamp can't be earlier than vesting start timestamp")
      λ _.
        bind
          (ensure (leb v.cliff_timestamp v.end_timestamp)
            "Cliff timestamp can't be later than vesting end timestamp")
          λ _.
            ensure (ltb v.start_timestamp v.end_timestamp)
              "The total vesting time should be positive"

pub data VestingScheduleOrHash : Type 0 where
  hashed : ℕ → VestingScheduleOrHash
  explicit : VestingSchedule → VestingScheduleOrHash

pub data TerminationStatus : Type 0 where
  vesting_terminated_with_deficit : TerminationStatus
  unstaking_in_progress : TerminationStatus
  everything_unstaked : TerminationStatus
  withdrawing_from_staking_pool_in_progress : TerminationStatus
  ready_to_withdraw : TerminationStatus
  withdrawing_from_account_in_progress : TerminationStatus

pub record TerminationInformation : Type 0 where
  pub unvested_amount : ℕ
  pub status : TerminationStatus

pub data VestingInformation : Type 0 where
  no_vesting : VestingInformation
  vesting_hash : ℕ → VestingInformation
  vesting_schedule : VestingSchedule → VestingInformation
  terminating : TerminationInformation → VestingInformation

pub record VestingScheduleWithSalt : Type 0 where
  pub vesting_schedule : VestingSchedule
  pub salt : ℕ

-- The methods of `ExtStakingPool`, `ExtStakingPoolWhitelist` and `ExtTransferPoll`, and the actions
-- of a promise of its own.
pub data Request : Type 0 where
  get_account_staked_balance : AccountId → Request
  get_account_unstaked_balance : AccountId → Request
  get_account_total_balance : AccountId → Request
  deposit : Request
  deposit_and_stake : Request
  withdraw : ℕ → Request
  stake : ℕ → Request
  unstake : ℕ → Request
  unstake_all : Request
  is_whitelisted : AccountId → Request
  get_result : Request
  transfer : ℕ → Request
  add_full_access_key : PublicKey → Request

-- The methods of `ExtLockupContractOwner` and `ExtLockupContractFoundation`, with the arguments that
-- the contract gives them.
pub data Callback : Type 0 where
  on_whitelist_is_whitelisted : AccountId → Callback
  on_staking_pool_deposit : ℕ → Callback
  on_staking_pool_deposit_and_stake : ℕ → Callback
  on_staking_pool_withdraw : ℕ → Callback
  on_staking_pool_stake : ℕ → Callback
  on_staking_pool_unstake : ℕ → Callback
  on_staking_pool_unstake_all : Callback
  on_get_result_from_transfer_poll : Callback
  on_get_account_total_balance : Callback
  on_get_account_unstaked_balance_to_withdraw_by_owner : Callback
  on_withdraw_unvested_amount : ℕ → AccountId → Callback
  on_get_account_staked_balance_to_unstake : Callback
  on_staking_pool_unstake_for_termination : ℕ → Callback
  on_get_account_unstaked_balance_to_withdraw : Callback
  on_staking_pool_withdraw_for_termination : ℕ → Callback

-- A promise: one request to a receiver, with a deposit, and what is called when it has ended.
pub record Message : Type 0 where
  pub receiver_id : AccountId
  pub request : Request
  pub attached_deposit : ℕ
  pub callback : Option Callback

pub record LockupContract : Type 0 where
  pub owner_account_id : AccountId
  pub lockup_information : LockupInformation
  pub vesting_information : VestingInformation
  pub staking_pool_whitelist_account_id : AccountId
  pub staking_information : Option StakingInformation
  pub foundation_account_id : Option AccountId
  pub promises : List Message

abbrev pub min_balance_for_storage : ℕ
min_balance_for_storage = 3_500_000_000_000_000_000_000_000

abbrev pub is_some : {A : Type 0} → Option A → Bool
is_some none = false
is_some (some _) = true

abbrev pub is_none : {A : Type 0} → Option A → Bool
is_none none = true
is_none (some _) = false

abbrev pub unwrap_or_zero : Option ℕ → ℕ
unwrap_or_zero none = 0
unwrap_or_zero (some n) = n

-- The poll of disabled transfers has to be a valid account.
abbrev pub is_valid_poll : Env → TransfersInformation → Bool
is_valid_poll e (transfers_enabled _) = true
is_valid_poll e (transfers_disabled poll) = e.is_valid_account_id poll

abbrev pub is_valid_foundation : Env → Option AccountId → Outcome (Unit {0})
is_valid_foundation e none = ensure false "called `Option::unwrap()` on a `None` value"
is_valid_foundation e (some foundation) =
    ensure (e.is_valid_account_id foundation)
      "Foundation account should be added for vesting schedule"

-- The vesting of a new contract. No schedule is checked here.
unfoldable pub initial_vesting :
    Env → Option VestingScheduleOrHash → Option AccountId → Outcome VestingInformation
initial_vesting e none foundation =
    bind (ensure (is_none foundation) "Foundation account can't be added without vesting schedule")
      λ _. ok no_vesting
initial_vesting e (some (hashed h)) foundation =
    bind (is_valid_foundation e foundation) λ _. ok (vesting_hash h)
initial_vesting e (some (explicit v)) foundation =
    bind (is_valid_foundation e foundation) λ _. ok (vesting_schedule v)

unfoldable pub new :
    Env
    → AccountId
    → ℕ
    → Option ℕ
    → TransfersInformation
    → Option VestingScheduleOrHash
    → Option ℕ
    → AccountId
    → Option AccountId
    → Outcome LockupContract
new e owner lockup_duration lockup_timestamp transfers vesting release_duration whitelist
      foundation =
    bind (ensure (e.is_valid_account_id owner) "The account ID of the owner is invalid") λ _.
      bind
        (ensure (e.is_valid_account_id whitelist)
          "The staking pool whitelist account ID is invalid")
        λ _.
          bind (ensure (is_valid_poll e transfers) "The transfer poll account ID is invalid") λ _.
            bind (initial_vesting e vesting foundation) λ vesting_information. ok (record {
              owner_account_id = owner;
              lockup_information = record {
                lockup_amount = e.account_balance;
                termination_withdrawn_tokens = 0;
                lockup_duration = lockup_duration;
                release_duration = release_duration;
                lockup_timestamp = lockup_timestamp;
                transfers_information = transfers;
              };
              vesting_information = vesting_information;
              staking_pool_whitelist_account_id = whitelist;
              staking_information = none;
              foundation_account_id = foundation;
              promises = [];
            })
