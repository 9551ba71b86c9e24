-- ===== src/Lockup/Locked.antt =====
-- `get_locked_amount` of lockup/src/getters.rs over time.
use Prim.Native.Nat.{max}
use contract_new_project_tem.Prelude.{
  ℕ, ◌+◌, ◌-◌, ◌≤◌, ◌<◌, ◌≡◌, refl, Succeeds, ok, arith, leb, if◌then◌else◌, saturating_add,
  u64_mod, u128_mod,
}
use contract_new_project_tem.Host.{Env}
use contract_new_project_tem.Lockup.State.{
  TransfersInformation, transfers_enabled, transfers_disabled, LockupInformation,
  VestingInformation, no_vesting, vesting_hash, vesting_schedule, terminating, LockupContract,
  assert_valid, unwrap_or_zero,
}
use contract_new_project_tem.Lockup.Getters.{known_unvested, locked_when, get_locked_amount}
use contract_new_project_tem.Lockup.Transfers.{amount_of}
use contract_new_project_tem.Lockup.Schedule.{
  plan, valid-IsOrdered, plan_le, plan_falls, scheduled-plan, release_plan, release_le,
  release_falls, unreleased_plan,
}

-- What the foundation has taken and may still take is a part of the lockup amount; it takes nothing
-- while a schedule runs, and the schedule is one that its check accepts.
abbrev pub Claimed : LockupInformation → VestingInformation → Type 0
Claimed l no_vesting = Unit
Claimed l (vesting_hash _) = l.termination_withdrawn_tokens ≡ 0
Claimed l (vesting_schedule v) = (assert_valid v ≡ ok tt) × (l.termination_withdrawn_tokens ≡ 0)
Claimed l (terminating t) = l.termination_withdrawn_tokens + t.unvested_amount ≤ l.lockup_amount

abbrev pub IsCovered : LockupInformation → VestingInformation → Type 0
IsCovered l info =
    (l.lockup_amount < u128_mod)
    × (l.termination_withdrawn_tokens ≤ l.lockup_amount)
    × Claimed l info

abbrev unvested_plan : ℕ → ℕ → VestingInformation → ℕ
unvested_plan now amount no_vesting = 0
unvested_plan now amount (vesting_hash _) = 0
unvested_plan now amount (vesting_schedule v) = plan now amount v
unvested_plan now amount (terminating t) = t.unvested_amount

known_plan :
    (now : ℕ) (l : LockupInformation) (info : VestingInformation)
    → IsCovered l info
    → known_unvested now l.lockup_amount info ≡ ok (unvested_plan now l.lockup_amount info)
known_plan now l no_vesting h = refl
known_plan now l (vesting_hash _) h = refl
known_plan now l (vesting_schedule v) h =
    scheduled-plan now l.lockup_amount v (valid-IsOrdered v h.2.0) h.0
known_plan now l (terminating t) h = refl

unvested_le :
    (now : ℕ) (l : LockupInformation) (info : VestingInformation)
    → IsCovered l info
    → unvested_plan now l.lockup_amount info + l.termination_withdrawn_tokens ≤ l.lockup_amount
unvested_le now l no_vesting h = omega arith
unvested_le now l (vesting_hash _) h = omega arith
unvested_le now l (vesting_schedule v) h =
    let p = plan_le now l.lockup_amount v (valid-IsOrdered v h.2.0) in omega arith
unvested_le now l (terminating t) h = omega arith

unvested_falls :
    (now later : ℕ) (l : LockupInformation) (info : VestingInformation)
    → IsCovered l info
    → now ≤ later
    → unvested_plan later l.lockup_amount info ≤ unvested_plan now l.lockup_amount info
unvested_falls now later l no_vesting h t = omega arith
unvested_falls now later l (vesting_hash _) h t = omega arith
unvested_falls now later l (vesting_schedule v) h t =
    plan_falls now later l.lockup_amount v (valid-IsOrdered v h.2.0) t
unvested_falls now later l (terminating _) h t = omega arith

abbrev start_of : ℕ → LockupInformation → ℕ
start_of timestamp l =
    max (saturating_add u64_mod timestamp l.lockup_duration) (unwrap_or_zero l.lockup_timestamp)

abbrev locked_plan : ℕ → LockupInformation → VestingInformation → TransfersInformation → ℕ
locked_plan now l info (transfers_disabled _) = l.lockup_amount - l.termination_withdrawn_tokens
locked_plan now l info (transfers_enabled timestamp) =
    if leb (start_of timestamp l) now
    then max
        (release_plan now l.lockup_amount (start_of timestamp l) l.release_duration
          - l.termination_withdrawn_tokens)
        (unvested_plan now l.lockup_amount info)
    else l.lockup_amount - l.termination_withdrawn_tokens

locked_when_plan :
    (now : ℕ) (l : LockupInformation) (info : VestingInformation) (transfers : TransfersInformation)
    → IsCovered l info
    → locked_when now l info transfers ≡ ok (locked_plan now l info transfers)
locked_when_plan now l info (transfers_disabled _) h = ground arith
locked_when_plan now l info (transfers_enabled timestamp) h = ground (
  arith,
  known_plan now l info h,
  unreleased_plan now l.lockup_amount (start_of timestamp l) l.release_duration,
)

locked_plan_le :
    (now : ℕ) (l : LockupInformation) (info : VestingInformation) (transfers : TransfersInformation)
    → IsCovered l info
    → locked_plan now l info transfers ≤ l.lockup_amount - l.termination_withdrawn_tokens
locked_plan_le now l info (transfers_disabled _) h = omega arith
locked_plan_le now l info (transfers_enabled timestamp) h = ground (
  arith,
  unvested_le now l info h,
  release_le now l.lockup_amount (start_of timestamp l) l.release_duration,
)

locked_plan_falls :
    (now later : ℕ) (l : LockupInformation) (info : VestingInformation)
    (transfers : TransfersInformation)
    → IsCovered l info
    → now ≤ later
    → locked_plan later l info transfers ≤ locked_plan now l info transfers
locked_plan_falls now later l info (transfers_disabled _) h t = omega arith
locked_plan_falls now later l info (transfers_enabled timestamp) h t = ground (
  arith,
  unvested_falls now later l info h t,
  release_falls now later l.lockup_amount (start_of timestamp l) l.release_duration,
  locked_plan_le later l info (transfers_enabled timestamp) h,
)

-- While what the foundation takes is covered by the lockup amount and the schedule is a valid one, the
-- locked amount is always known, never rises with time, and never exceeds the lockup amount less what
-- the foundation has taken.
pub get_locked_amount_falls :
    (e f : Env) (s : LockupContract)
    → IsCovered s.lockup_information s.vesting_information
    → e.block_timestamp ≤ f.block_timestamp
    → Succeeds (get_locked_amount e s)
      × (amount_of (get_locked_amount f s) ≤ amount_of (get_locked_amount e s))
      × (amount_of (get_locked_amount e s)
          ≤ s.lockup_information.lockup_amount - s.lockup_information.termination_withdrawn_tokens)
unfolding get_locked_amount
get_locked_amount_falls e f s h t =
    let l = s.lockup_information in
    let info = s.vesting_information in
    rw
      (
        locked_when_plan e.block_timestamp l info l.transfers_information h,
        locked_when_plan f.block_timestamp l info l.transfers_information h,
      )
      (
        tt,
        locked_plan_falls e.block_timestamp f.block_timestamp l info l.transfers_information h t,
        locked_plan_le e.block_timestamp l info l.transfers_information h,
      )
