-- ===== src/Lockup/Questions.antt =====
-- The questions that lockup/src asks of its own account instead of the pool or the poll.
use contract_new_project_tem.Prelude.{
  ◌≡◌, true, false, Option, none, some, List, [], ◌∷◌, Holds, Holds_of_ok, Holds-ok, Outcome-cases,
  inl, inr, IsPanic, ok, arith,
}
use contract_new_project_tem.Host.{Env, AccountId}
use contract_new_project_tem.Lockup.State.{LockupContract, Message}
use contract_new_project_tem.Lockup.Internal.{
  none_or_idle, set_staking_pool_status, assert_no_termination, assert_staking_pool_is_idle,
  assert_owner,
}
use contract_new_project_tem.Lockup.Owner.{withdraw_all_from_staking_pool}
use contract_new_project_tem.Lockup.OwnerCallbacks.{unstaked_balance_to_withdraw_by_owner}
use contract_new_project_tem.Lockup.Calls.{OwnerCall, apply_owner}
use contract_new_project_tem.Lockup.Guards.{may_act, is_question, apply_owner_guarded}

-- The receiver of the newest promise.
abbrev pub asked : List Message → Option AccountId
asked [] = none
asked (m ∷ ms) = some m.receiver_id

-- A busy contract lets the owner do nothing but ask about the vote.
busy_blocks :
    (e : Env) (c : OwnerCall) (s : LockupContract)
    → is_question c ≡ false
    → none_or_idle s.staking_information ≡ false
    → IsPanic (apply_owner e c s)
busy_blocks e c s q b = elim (Outcome-cases (apply_owner e c s)) [
  | inl (r, went) ↦
      let m = Holds-ok (λ _. may_act e c s ≡ true) went (apply_owner_guarded e c s) in ground arith
  | inr (m, stopped) ↦ rw stopped tt
]

-- A withdrawal of everything that goes through asks the contract's own account and makes the contract
-- busy, in the same way.
pub withdraw_all_deadlocks :
    (e f g : Env) (c : OwnerCall) (s : LockupContract)
    → is_question c ≡ false
    → Holds
        (λ r.
          (asked r.1.promises ≡ some e.current_account_id)
          × IsPanic (unstaked_balance_to_withdraw_by_owner f none r.1)
          × IsPanic (apply_owner g c r.1))
        (withdraw_all_from_staking_pool e s)
unfolding withdraw_all_from_staking_pool unstaked_balance_to_withdraw_by_owner assert_owner
    assert_staking_pool_is_idle assert_no_termination set_staking_pool_status
withdraw_all_deadlocks e f g c s q =
    Holds_of_ok _ _
      λ r went. let h = sent r.1 went in (h.0, unanswered r.1, busy_blocks g c r.1 q h.1)
  where
    sent :
        (t : LockupContract)
        → withdraw_all_from_staking_pool e s ≡ ok (tt, t)
        → (asked t.promises ≡ some e.current_account_id)
          × (none_or_idle t.staking_information ≡ false)
    sent t h = ground arith

    unanswered : (t : LockupContract) → IsPanic (unstaked_balance_to_withdraw_by_owner f none t)
    unanswered t = ground arith
