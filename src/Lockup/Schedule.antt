-- ===== src/Lockup/Schedule.antt =====
-- How the amounts of lockup/src/getters.rs fall with time.
use contract_new_project_tem.Prelude.{
  ℕ, ◌-◌, ◌*◌, ◌/◌, ◌≤◌, ◌<◌, ◌≡◌, refl, Option, none, some, Succeeds, ok, arith, ltb, leb,
  if◌then◌else◌, saturating_add, u64_mod, u128_mod, part_le, part_mono,
}
use contract_new_project_tem.Lockup.State.{VestingSchedule, assert_valid}
use contract_new_project_tem.Lockup.Getters.{scheduled, unreleased}
use contract_new_project_tem.Lockup.Transfers.{amount_of}

-- The unvested amount of a valid schedule: all, then a linear part of all, then nothing.
abbrev pub plan : ℕ → ℕ → VestingSchedule → ℕ
plan now amount v =
    if ltb now v.cliff_timestamp
    then amount
    else if leb v.end_timestamp now
    then 0
    else amount * (v.end_timestamp - now) / (v.end_timestamp - v.start_timestamp)

abbrev pub IsOrdered : VestingSchedule → Type 0
IsOrdered v =
    (v.start_timestamp ≤ v.cliff_timestamp)
    × (v.cliff_timestamp ≤ v.end_timestamp)
    × (v.start_timestamp < v.end_timestamp)

pub valid-IsOrdered : (v : VestingSchedule) → assert_valid v ≡ ok tt → IsOrdered v
unfolding assert_valid
valid-IsOrdered v h = ground arith

pub plan_le : (now amount : ℕ) (v : VestingSchedule) → IsOrdered v → plan now amount v ≤ amount
plan_le now amount v h =
    ground (arith, part_le amount (v.end_timestamp - now) (v.end_timestamp - v.start_timestamp))

pub plan_falls :
    (now later amount : ℕ) (v : VestingSchedule)
    → IsOrdered v
    → now ≤ later
    → plan later amount v ≤ plan now amount v
plan_falls now later amount v h t = ground (
  arith,
  plan_le later amount v h,
  part_mono amount (v.end_timestamp - later) (v.end_timestamp - now)
      (v.end_timestamp - v.start_timestamp),
)

pub scheduled-plan :
    (now amount : ℕ) (v : VestingSchedule)
    → IsOrdered v
    → amount < u128_mod
    → scheduled now amount v ≡ ok (plan now amount v)
unfolding scheduled
scheduled-plan now amount v h a = ground (arith, plan_le now amount v h)

-- Under a schedule that its check accepts, the unvested amount is always known, is all before the cliff,
-- never rises, never exceeds the lockup amount, and is nothing from the end on.
pub scheduled_falls :
    (now later amount : ℕ) (v : VestingSchedule)
    → assert_valid v ≡ ok tt
    → amount < u128_mod
    → now ≤ later
    → Succeeds (scheduled now amount v)
      × (amount_of (scheduled now amount v) ≤ amount)
      × (amount_of (scheduled later amount v) ≤ amount_of (scheduled now amount v))
      × (if ltb now v.cliff_timestamp then scheduled now amount v ≡ ok amount else Unit)
      × (if leb v.end_timestamp later then scheduled later amount v ≡ ok 0 else Unit)
scheduled_falls now later amount v valid a t =
    let o = valid-IsOrdered v valid in
    rw (scheduled-plan now amount v o a, scheduled-plan later amount v o a)
      (tt, plan_le now amount v o, plan_falls now later amount v o t, ground arith, ground arith)

-- What of the lockup amount is not released: a linear part of it, then nothing.
abbrev pub release_plan : ℕ → ℕ → ℕ → Option ℕ → ℕ
release_plan now amount start none = 0
release_plan now amount start (some duration) =
    if leb (saturating_add u64_mod start duration) now
    then 0
    else amount * (saturating_add u64_mod start duration - now) / duration

pub release_le :
    (now amount start : ℕ) (d : Option ℕ) → start ≤ now → release_plan now amount start d ≤ amount
release_le now amount start none h = omega arith
release_le now amount start (some d) h =
    ground (arith, part_le amount (saturating_add u64_mod start d - now) d)

pub release_falls :
    (now later amount start : ℕ) (d : Option ℕ)
    → start ≤ now
    → now ≤ later
    → release_plan later amount start d ≤ release_plan now amount start d
release_falls now later amount start none h t = omega arith
release_falls now later amount start (some d) h t = ground (
  arith,
  part_mono amount (saturating_add u64_mod start d - later) (saturating_add u64_mod start d - now)
      d,
)

pub unreleased_plan :
    (now amount start : ℕ) (d : Option ℕ)
    → start ≤ now
    → amount < u128_mod
    → unreleased now amount start d ≡ ok (release_plan now amount start d)
unfolding unreleased
unreleased_plan now amount start none h a = refl
unreleased_plan now amount start (some d) h a =
    ground (arith, release_le now amount start (some d) h)
