-- ===== src/Lockup/Termination.antt =====
-- The early termination of a vesting, in lockup/src/foundation.rs and foundation_callbacks.rs.
use contract_new_project_tem.Prelude.{
  ℕ, ◌+◌, ◌-◌, ◌≤◌, ◌<◌, ◌≡◌, ◌⊎◌, [], Option, none, some, ◌∷◌, Holds, Outcome-cases, inl, inr, ok,
  arith,
}
use contract_new_project_tem.Host.{Env, AccountId, successful, failed}
use contract_new_project_tem.Lockup.State.{
  LockupContract, LockupInformation, VestingSchedule, VestingScheduleWithSalt, VestingInformation,
  no_vesting, vesting_hash, vesting_schedule, terminating, assert_valid,
}
use contract_new_project_tem.Lockup.Getters.{
  get_terminated_unvested_balance, get_unvested_amount, unvested_of,
}
use contract_new_project_tem.Lockup.Internal.{
  set_termination_status, assert_vesting, assert_called_by_foundation, revealed,
}
use contract_new_project_tem.Lockup.Foundation.{terminate_vesting}
use contract_new_project_tem.Lockup.FoundationCallbacks.{withdraw_unvested_amount}
use contract_new_project_tem.Lockup.Schedule.{scheduled-plan, plan_le, valid-IsOrdered}
use contract_new_project_tem.Lockup.Locked.{IsCovered}

-- The callback of a withdrawal of no more than is unvested, which goes through only for the contract
-- itself and with the one result of the transfer, moves the amount from the unvested to the withdrawn
-- tokens if the transfer succeeded, and changes neither if it failed; the claims stay covered.
pub withdraw_unvested_amount_moves :
    (e : Env) (amount : ℕ) (receiver_id : AccountId) (s : LockupContract)
    → IsCovered s.lockup_information s.vesting_information
    → amount ≤ get_terminated_unvested_balance s
    → Holds
        (λ r.
          IsCovered r.1.lockup_information r.1.vesting_information
          × (r.1.lockup_information.termination_withdrawn_tokens
                + get_terminated_unvested_balance r.1
              ≡ s.lockup_information.termination_withdrawn_tokens
                + get_terminated_unvested_balance s)
          × (e.predecessor_account_id ≡ e.current_account_id)
          × (((e.promise_results ≡ successful ∷ [])
                × (get_terminated_unvested_balance r.1
                    ≡ get_terminated_unvested_balance s - amount))
              ⊎ ((e.promise_results ≡ failed ∷ [])
                  × (get_terminated_unvested_balance r.1 ≡ get_terminated_unvested_balance s))))
        (withdraw_unvested_amount e amount receiver_id s)
unfolding withdraw_unvested_amount set_termination_status get_terminated_unvested_balance
withdraw_unvested_amount_moves e amount receiver_id s h a = ground arith

-- A schedule that the foundation reveals is a valid one.
abbrev pub GivenValid : Option VestingScheduleWithSalt → Type 0
GivenValid none = Unit
GivenValid (some v) = assert_valid v.vesting_schedule ≡ ok tt

-- What a schedule leaves unvested is covered.
revealed_covered :
    (hash : VestingScheduleWithSalt → ℕ) (now : ℕ) (given : Option VestingScheduleWithSalt)
    (l : LockupInformation) (info : VestingInformation) (v : VestingSchedule) (u : ℕ)
    → IsCovered l info
    → GivenValid given
    → revealed hash given info ≡ ok v
    → unvested_of now l.lockup_amount info v ≡ ok u
    → l.termination_withdrawn_tokens + u ≤ l.lockup_amount
revealed_covered hash now given l no_vesting v u h g r w = ground arith
revealed_covered hash now none l (vesting_hash k) v u h g r w = ground arith
revealed_covered hash now (some z) l (vesting_hash k) v u h g r w =
    let o = valid-IsOrdered z.vesting_schedule g in
    ground (
      arith,
      scheduled-plan now l.lockup_amount z.vesting_schedule o h.0,
      plan_le now l.lockup_amount z.vesting_schedule o,
    )
revealed_covered hash now given l (vesting_schedule z) v u h g r w =
    let o = valid-IsOrdered z h.2.0 in
    ground (arith, scheduled-plan now l.lockup_amount z o h.0, plan_le now l.lockup_amount z o)
revealed_covered hash now given l (terminating t) v u h g r w = ground arith

-- A termination that goes through, with a valid schedule if one has to be revealed, makes a positive
-- amount unvested and leaves the lockup information; the claims stay covered.
pub terminate_vesting-IsCovered :
    (hash : VestingScheduleWithSalt → ℕ) (e : Env) (given : Option VestingScheduleWithSalt)
    (s : LockupContract)
    → IsCovered s.lockup_information s.vesting_information
    → GivenValid given
    → Holds
        (λ r.
          IsCovered r.1.lockup_information r.1.vesting_information
          × (0 < get_terminated_unvested_balance r.1)
          × (r.1.lockup_information ≡ s.lockup_information))
        (terminate_vesting hash e given s)
unfolding terminate_vesting assert_vesting assert_called_by_foundation get_unvested_amount
    get_terminated_unvested_balance
terminate_vesting-IsCovered hash e given s h g =
    elim (Outcome-cases (revealed hash given s.vesting_information)) [
      | inr (m, stopped) ↦ ground arith
      | inl (v, shown) ↦
          elim (Outcome-cases (
            unvested_of e.block_timestamp s.lockup_information.lockup_amount s.vesting_information
              v)) [
                | inr (m, stopped) ↦ ground arith
                | inl (u, left) ↦ ground (
                  arith,
                  revealed_covered hash e.block_timestamp given s.lockup_information
                      s.vesting_information v u h g shown left,
                )
              ]
    ]
