-- ===== src/Lockup/Getters.antt =====
-- lockup/src/getters.rs: what is locked, unvested and free.
use Prim.Native.Nat.{max, min}
use contract_new_project_tem.Prelude.{
  ℕ, ◌*◌, ◌/◌, Bool, true, false, Option, none, some, Outcome, ok, panic, bind, checked_sub,
  saturating_add, saturating_sub, as_u128, u64_mod, u128_mod, leb, ltb, ◌==◌, if◌then◌else◌,
}
use contract_new_project_tem.Host.{Env, AccountId}
use contract_new_project_tem.Lockup.State.{
  TransfersInformation, transfers_enabled, transfers_disabled, LockupInformation, VestingSchedule,
  TerminationStatus, VestingInformation, no_vesting, vesting_hash, vesting_schedule, terminating,
  LockupContract, min_balance_for_storage, unwrap_or_zero,
}

-- `U256` division.
abbrev pub divide : ℕ → ℕ → Outcome ℕ
divide a b = if b == 0 then panic "division by zero" else ok (a / b)

unfoldable pub get_account_balance : Env → ℕ
get_account_balance e = saturating_sub e.account_balance min_balance_for_storage

unfoldable pub get_owner_account_id : LockupContract → AccountId
get_owner_account_id s = s.owner_account_id

unfoldable pub get_staking_pool_account_id : LockupContract → Option AccountId
get_staking_pool_account_id s = elim s.staking_information [
  | none ↦ none
  | some i ↦ some i.staking_pool_account_id
]

unfoldable pub get_known_deposited_balance : LockupContract → ℕ
get_known_deposited_balance s = elim s.staking_information [ none ↦ 0 | some i ↦ i.deposit_amount ]

abbrev pub status_of : VestingInformation → Option TerminationStatus
status_of no_vesting = none
status_of (vesting_hash _) = none
status_of (vesting_schedule _) = none
status_of (terminating t) = some t.status

unfoldable pub get_termination_status : LockupContract → Option TerminationStatus
get_termination_status s = status_of s.vesting_information

abbrev pub terminated : VestingInformation → ℕ
terminated no_vesting = 0
terminated (vesting_hash _) = 0
terminated (vesting_schedule _) = 0
terminated (terminating t) = t.unvested_amount

unfoldable pub get_terminated_unvested_balance : LockupContract → ℕ
get_terminated_unvested_balance s = terminated s.vesting_information

unfoldable pub get_terminated_unvested_balance_deficit : Env → LockupContract → ℕ
get_terminated_unvested_balance_deficit e s =
    saturating_sub (get_terminated_unvested_balance s) (get_account_balance e)

-- The schedule's part of `get_unvested_amount`, at a time.
unfoldable pub scheduled : ℕ → ℕ → VestingSchedule → Outcome ℕ
scheduled now amount v =
    if ltb now v.cliff_timestamp
    then ok amount
    else if leb v.end_timestamp now
    then ok 0
    else bind (checked_sub v.end_timestamp now) λ time_left.
      bind (checked_sub v.end_timestamp v.start_timestamp) λ total_time.
        bind (divide (amount * time_left) total_time) λ unvested_amount. as_u128 unvested_amount

abbrev pub unvested_of : ℕ → ℕ → VestingInformation → VestingSchedule → Outcome ℕ
unvested_of now amount no_vesting v = ok 0
unvested_of now amount (vesting_hash _) v = scheduled now amount v
unvested_of now amount (vesting_schedule _) v = scheduled now amount v
unvested_of now amount (terminating t) v = ok t.unvested_amount

unfoldable pub get_unvested_amount : Env → VestingSchedule → LockupContract → Outcome ℕ
get_unvested_amount e v s =
    unvested_of e.block_timestamp s.lockup_information.lockup_amount s.vesting_information v

-- What the release has not freed yet, from a time on and for a duration.
unfoldable pub unreleased : ℕ → ℕ → ℕ → Option ℕ → Outcome ℕ
unreleased now amount lockup_timestamp none = ok 0
unreleased now amount lockup_timestamp (some release_duration) =
    let end_timestamp = saturating_add u64_mod lockup_timestamp release_duration in
    if leb end_timestamp now
    then ok 0
    else bind (checked_sub end_timestamp now) λ time_left.
      bind (divide (amount * time_left) release_duration)
        λ unreleased_amount. as_u128 unreleased_amount

-- The unvested amount that a lock counts: a private schedule counts as vested.
abbrev pub known_unvested : ℕ → ℕ → VestingInformation → Outcome ℕ
known_unvested now amount no_vesting = ok 0
known_unvested now amount (vesting_hash _) = ok 0
known_unvested now amount (vesting_schedule v) = scheduled now amount v
known_unvested now amount (terminating t) = ok t.unvested_amount

abbrev pub locked_when :
    ℕ → LockupInformation → VestingInformation → TransfersInformation → Outcome ℕ
locked_when now l info (transfers_disabled _) =
    checked_sub l.lockup_amount l.termination_withdrawn_tokens
locked_when now l info (transfers_enabled transfers_timestamp) =
    let lockup_timestamp =
      max (saturating_add u64_mod transfers_timestamp l.lockup_duration)
        (unwrap_or_zero l.lockup_timestamp) in
    if leb lockup_timestamp now
    then (bind (unreleased now l.lockup_amount lockup_timestamp l.release_duration)
        λ unreleased_amount. bind (known_unvested now l.lockup_amount info) λ unvested_amount.
          ok
            (max (saturating_sub unreleased_amount l.termination_withdrawn_tokens) unvested_amount))
    else checked_sub l.lockup_amount l.termination_withdrawn_tokens

unfoldable pub get_locked_amount : Env → LockupContract → Outcome ℕ
get_locked_amount e s =
    locked_when e.block_timestamp s.lockup_information s.vesting_information
      s.lockup_information.transfers_information

unfoldable pub get_locked_vested_amount : Env → VestingSchedule → LockupContract → Outcome ℕ
get_locked_vested_amount e v s =
    bind (get_locked_amount e s)
      λ locked. bind (get_unvested_amount e v s) λ unvested. checked_sub locked unvested

unfoldable pub get_vesting_information : LockupContract → VestingInformation
get_vesting_information s = s.vesting_information

unfoldable pub get_balance : Env → LockupContract → ℕ
get_balance e s = saturating_add u128_mod e.account_balance (get_known_deposited_balance s)

unfoldable pub get_owners_balance : Env → LockupContract → Outcome ℕ
get_owners_balance e s = bind (get_locked_amount e s) λ locked. ok (
    saturating_sub (saturating_add u128_mod e.account_balance (get_known_deposited_balance s))
      locked)

unfoldable pub get_liquid_owners_balance : Env → LockupContract → Outcome ℕ
get_liquid_owners_balance e s =
    bind (get_owners_balance e s) λ balance. ok (min balance (get_account_balance e))

abbrev pub enabled : TransfersInformation → Bool
enabled (transfers_enabled _) = true
enabled (transfers_disabled _) = false

unfoldable pub are_transfers_enabled : LockupContract → Bool
are_transfers_enabled s = enabled s.lockup_information.transfers_information
