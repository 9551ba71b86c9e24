-- ===== src/StakingPool/Frame.antt =====
-- Whom a call on staking-pool/src can affect, and who may make it.
use contract_new_project_tem.Prelude.{
  ℕ, ◌-◌, ◌≡◌, ◌≢◌, refl, ◌∙◌, inl, inr, Bool, true, false, Holds, Holds_of_ok, IsPanic, ==_ne,
  Bool-cases, ltb,
}
use contract_new_project_tem.Host.{Env, AccountId}
use contract_new_project_tem.StakingPool.State.{Account, StakingContract, internal_get_account}
use contract_new_project_tem.StakingPool.Internal.{assert_owner}
use contract_new_project_tem.StakingPool.Balance.{account-save_ne}
use contract_new_project_tem.StakingPool.Effects.{
  after_epoch, after_reward, after_reward_cases, total_balance, PingEffect, internal_ping_effect,
  internal_stake_effect, inner_unstake_effect, internal_withdraw_effect, internal_deposit_effect,
}
use contract_new_project_tem.StakingPool.Methods.{
  Call, pauses, resumes, updates_key, updates_fee, votes, apply, pause_staking, resume_staking,
  update_staking_key, update_reward_fee_fraction, vote,
}
use contract_new_project_tem.StakingPool.Preserve.{IsKept, apply-kept}

module _ (j owner : AccountId) (account : Account) where
  -- The entry of `j` and the owner of the pool are these.
  abbrev Untouched : StakingContract → Type 0
  Untouched s = (internal_get_account j s ≡ account) × (s.owner_id ≡ owner)

  module _ (not_owner : j ≢ owner) (s : StakingContract) (v : Untouched s) where
    after_reward-Untouched : (reward : ℕ) → Untouched (after_reward reward s)
    after_reward-Untouched reward =
        after_reward_cases Untouched reward s
          (account-save_ne j s.owner_id _ s.accounts (λ e. not_owner (e ∙ v.1)) ∙ v.0, v.1) v

  after_epoch-Untouched :
      (e : Env) (s : StakingContract) → j ≢ owner → Untouched s → Untouched (after_epoch e s)
  unfolding after_epoch
  after_epoch-Untouched e s not_owner v =
      elim (Bool-cases (ltb 0 (total_balance e - s.last_total_balance))) [
        | inl h ↦
            rw h (
              after_reward-Untouched not_owner (record s { last_epoch_height = e.epoch_height }) v
                _)
        | inr h ↦ rw h v
      ]

  Untouched-IsKept : (e : Env) → j ≢ e.predecessor_account_id → j ≢ owner → IsKept e Untouched
  Untouched-IsKept e ne not_owner = record {
    ping = λ s v. Holds_of_ok _ _ λ r h. pinged s v r.0 r.1 (internal_ping_effect e s h);
    deposit = λ s v.
        rw (internal_deposit_effect e s, Holds)
          (account-save_ne j e.predecessor_account_id _ s.accounts ne ∙ v.0, v.1);
    withdraw = λ n s v. Holds_of_ok _ _ λ r h.
        rw ((internal_withdraw_effect e n s h).3)
          (account-save_ne j e.predecessor_account_id _ s.accounts ne ∙ v.0, v.1);
    stake = λ n s v. Holds_of_ok _ _ λ r h.
        rw ((internal_stake_effect e n s h).4)
          (account-save_ne j e.predecessor_account_id _ s.accounts ne ∙ v.0, v.1);
    unstake = λ n s v. Holds_of_ok _ _ λ r h.
        rw ((inner_unstake_effect e n s h).4)
          (account-save_ne j e.predecessor_account_id _ s.accounts ne ∙ v.0, v.1);
    settings = λ s key fee paused promises v. v;
  }
    where
      pinged :
          (s : StakingContract)
          → Untouched s
          → (b : Bool) (t : StakingContract) → PingEffect e s b t
          → Untouched t
      pinged s v b t (inl (_, _, same)) = rw same v
      pinged s v b t (inr (_, _, _, same)) = rw same (after_epoch-Untouched e s not_owner v)

-- A method that goes through changes no entry but the caller's and, by its fee, the owner's; and
-- nobody can change the owner.
pub apply_untouched :
    (e : Env) (call : Call) (s : StakingContract) (j : AccountId)
    → j ≢ e.predecessor_account_id
    → j ≢ s.owner_id
    → Holds
        (λ r. (internal_get_account j r.1 ≡ internal_get_account j s) × (r.1.owner_id ≡ s.owner_id))
        (apply e call s)
apply_untouched e call s j ne not_owner =
    apply-kept e (Untouched j s.owner_id (internal_get_account j s))
      (Untouched-IsKept j s.owner_id (internal_get_account j s) e ne not_owner) s (refl, refl) call

-- The methods that only the owner may call.
abbrev pub is_owners : Call → Bool
is_owners pauses = true
is_owners resumes = true
is_owners (updates_key _) = true
is_owners (updates_fee _) = true
is_owners (votes _ _ _) = true
is_owners _ = false

-- Whoever is not the owner cannot pause or resume staking, change the key or the fee, or vote.
pub apply_owners :
    (e : Env) (call : Call) (s : StakingContract)
    → e.predecessor_account_id ≢ s.owner_id
    → is_owners call ≡ true
    → IsPanic (apply e call s)
unfolding apply pause_staking resume_staking update_staking_key update_reward_fee_fraction vote
    assert_owner
apply_owners e pauses s ne h = rw (==_ne _ _ ne, IsPanic) tt
apply_owners e resumes s ne h = rw (==_ne _ _ ne, IsPanic) tt
apply_owners e (updates_key key) s ne h = rw (==_ne _ _ ne, IsPanic) tt
apply_owners e (updates_fee fee) s ne h = rw (==_ne _ _ ne, IsPanic) tt
apply_owners e (votes encode a b) s ne h = rw (==_ne _ _ ne, IsPanic) tt
apply_owners e _ s ne h = cc
