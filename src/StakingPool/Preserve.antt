-- ===== src/StakingPool/Preserve.antt =====
-- An invariant that the parts of the methods of staking-pool/src/lib.rs keep is kept by every method.
use contract_new_project_tem.Prelude.{
  ℕ, ◌≡◌, refl, inl, inr, Bool, true, false, not, ◌&&◌, if◌then◌else◌, ltb, ◌==◌, Outcome, ok,
  panic, Holds, Bool-cases, seq-Holds, require-Holds, lift, asks, modify, pure, ◌>>◌, List,
}
use contract_new_project_tem.Host.{Env, PublicKey, Promise}
use contract_new_project_tem.StakingPool.State.{
  StakingContract, Callback, RewardFeeFraction, internal_get_account, assert_valid,
  staked_amount_from_num_shares_rounded_down,
}
use contract_new_project_tem.StakingPool.Internal.{
  internal_restake, internal_deposit, internal_withdraw, internal_stake, inner_unstake,
  assert_owner, internal_ping,
}
use contract_new_project_tem.StakingPool.Methods.{
  Call, pings, deposits, deposits_and_stakes, withdraws_all, stakes_all, unstakes_all, withdraws,
  stakes, unstakes, stake_action_done, pauses, resumes, updates_key, updates_fee, votes, apply,
  ping, deposit, deposit_and_stake, withdraw_all, withdraw, stake_all, stake_some, unstake_all,
  unstake, on_stake_action, update_staking_key, update_reward_fee_fraction, vote, pause_staking,
  resume_staking, restake_if, stake_nothing, stake_action_succeeded,
}

-- A method that goes through keeps the invariant.
abbrev pub Keeping :
    (StakingContract → Type 0) → {A : Type 0} → Outcome (A × StakingContract) → Type 0
Keeping Inv m = Holds (λ r. Inv r.1) m

pub record IsKept (e : Env) (Inv : StakingContract → Type 0) : Type 0 where
  pub ping : (s : StakingContract) → Inv s → Keeping Inv (internal_ping e s)
  pub deposit : (s : StakingContract) → Inv s → Keeping Inv (internal_deposit e s)
  pub withdraw : (n : ℕ) (s : StakingContract) → Inv s → Keeping Inv (internal_withdraw e n s)
  pub stake : (n : ℕ) (s : StakingContract) → Inv s → Keeping Inv (internal_stake e n s)
  pub unstake : (n : ℕ) (s : StakingContract) → Inv s → Keeping Inv (inner_unstake e n s)
  pub settings :
      (s : StakingContract) (key : PublicKey) (fee : RewardFeeFraction) (paused : Bool)
      (promises : List (Promise Callback))
      → Inv s
      → Inv (record s {
        stake_public_key = key;
        reward_fee_fraction = fee;
        paused = paused;
        promises = promises;
      })

asks-same :
    {A : Type 0} (m : Outcome A) (s : StakingContract)
    → Holds (λ r. r.1 ≡ s) (lift {S = StakingContract} m s)
asks-same (ok a) s = refl
asks-same (panic m) s = tt

module _ (e : Env) (Inv : StakingContract → Type 0) (p : IsKept e Inv) where
  promised :
      (s : StakingContract)
      → Inv s
      → (promises : List (Promise Callback)) → Inv (record s { promises = promises })
  promised s v promises = p.settings s s.stake_public_key s.reward_fee_fraction s.paused promises v

  restake : (s : StakingContract) → Inv s → Keeping Inv (internal_restake e s)
  unfolding internal_restake
  restake s v = elim (Bool-cases s.paused) [
    | inl h ↦
        rw (h, Holds) (p.settings s s.stake_public_key s.reward_fee_fraction true s.promises v)
    | inr h ↦ rw (h, Holds) (p.settings s s.stake_public_key s.reward_fee_fraction false _ v)
  ]

  restaked_if : (b : Bool) (s : StakingContract) → Inv s → Keeping Inv (restake_if e b s)
  restaked_if true s v = restake s v
  restaked_if false s v = v

  module _ (s : StakingContract) (v : Inv s) where
    pinged :
        {B : Type 0} (rest : Bool → StakingContract → Outcome (B × StakingContract))
        → ((b : Bool) (t : StakingContract) → Inv t → Keeping Inv (rest b t))
        → Keeping Inv (elim (internal_ping e s) [ ok (b, t) ↦ rest b t | panic m ↦ panic m ])
    pinged rest h = seq-Holds (λ r. Inv r.1) _ (internal_ping e) rest s (p.ping s v) h

    then_restake :
        (m : StakingContract → Outcome (Unit {0} × StakingContract)) (t : StakingContract)
        → Keeping Inv (m t)
        → Keeping Inv ((m >> internal_restake e) t)
    then_restake m t h = seq-Holds (λ r. Inv r.1) _ m _ t h (λ _ u w. restake u w)

    then_restake_if :
        (m : StakingContract → Outcome (Unit {0} × StakingContract)) (b : Bool)
        (t : StakingContract)
        → Keeping Inv (m t)
        → Keeping Inv ((m >> restake_if e b) t)
    then_restake_if m b t h = seq-Holds (λ r. Inv r.1) _ m _ t h (λ _ u w. restaked_if b u w)

    owned :
        (rest : Unit {0} → StakingContract → Outcome (Unit {0} × StakingContract))
        → Keeping Inv (rest tt s)
        → Keeping Inv (elim (assert_owner e s) [ ok (a, t) ↦ rest a t | panic m ↦ panic m ])
    unfolding assert_owner
    owned rest h = require-Holds _ (e.predecessor_account_id == s.owner_id) _ rest s (λ _. h)

    unstake_all-kept : Keeping Inv (unstake_all e s)
    unfolding unstake_all
    unstake_all-kept = pinged _ λ b t w.
        let shares = (internal_get_account e.predecessor_account_id t).stake_shares in
        seq-Holds (λ r. r.1 ≡ t) _ (asks (staked_amount_from_num_shares_rounded_down shares)) _ t
          (asks-same (staked_amount_from_num_shares_rounded_down shares t) t)
          (λ n u same. rw same (then_restake (inner_unstake e n) t (p.unstake n t w)))

    deposit_and_stake-kept : Keeping Inv (deposit_and_stake e s)
    unfolding deposit_and_stake
    deposit_and_stake-kept = pinged _ λ b t w.
        seq-Holds (λ r. Inv r.1) _ (internal_deposit e) _ t (p.deposit t w)
          (λ n u x. then_restake (internal_stake e n) u (p.stake n u x))

    on_stake_action-kept : Keeping Inv (on_stake_action e s)
    unfolding on_stake_action
    on_stake_action-kept =
        require-Holds _ (e.current_account_id == e.predecessor_account_id) _ _ s λ _.
          seq-Holds (λ r. r.1 ≡ s) _ (lift (stake_action_succeeded e.promise_results)) _ s
            (asks-same (stake_action_succeeded e.promise_results) s) (λ b t same. rw same (told b))
      where
        told :
            (b : Bool)
            → Keeping Inv (
                (if not b && ltb 0 e.account_locked_balance
                    then modify (stake_nothing e)
                    else pure tt)
                  s)
        told b = elim (Bool-cases (not b && ltb 0 e.account_locked_balance)) [
          | inl h ↦ rw (h, Holds) (promised s v _)
          | inr h ↦ rw (h, Holds) v
        ]

    update_fee-kept : (fee : RewardFeeFraction) → Keeping Inv (update_reward_fee_fraction e fee s)
    unfolding update_reward_fee_fraction
    update_fee-kept fee = owned _ (
        seq-Holds (λ r. r.1 ≡ s) _ (lift (assert_valid fee)) _ s (asks-same (assert_valid fee) s)
          (λ _ t same. rw same (
            pinged _ λ b u w.
              restaked_if b _ (p.settings u u.stake_public_key fee u.paused u.promises w))))

    pub apply-kept : (call : Call) → Keeping Inv (apply e call s)
    unfolding apply ping deposit withdraw_all withdraw stake_all stake_some unstake
        update_staking_key vote pause_staking resume_staking
    apply-kept pings = pinged _ λ b t w. restaked_if b t w
    apply-kept deposits = pinged _ λ b t w.
        seq-Holds (λ r. Inv r.1) _ (internal_deposit e) _ t (p.deposit t w)
          (λ _ u x. restaked_if b u x)
    apply-kept deposits_and_stakes = deposit_and_stake-kept
    apply-kept withdraws_all = pinged _ λ b t w.
        then_restake_if
          (internal_withdraw e (internal_get_account e.predecessor_account_id t).unstaked) b t
          (p.withdraw (internal_get_account e.predecessor_account_id t).unstaked t w)
    apply-kept stakes_all = pinged _ λ b t w.
        then_restake (internal_stake e (internal_get_account e.predecessor_account_id t).unstaked) t
          (p.stake (internal_get_account e.predecessor_account_id t).unstaked t w)
    apply-kept unstakes_all = unstake_all-kept
    apply-kept (withdraws n) =
        pinged _ λ b t w. then_restake_if (internal_withdraw e n) b t (p.withdraw n t w)
    apply-kept (stakes n) = pinged _ λ b t w. then_restake (internal_stake e n) t (p.stake n t w)
    apply-kept (unstakes n) = pinged _ λ b t w. then_restake (inner_unstake e n) t (p.unstake n t w)
    apply-kept stake_action_done = on_stake_action-kept
    apply-kept pauses = owned _ (
        require-Holds _ (not s.paused) _ _ s
          λ _. pinged _ λ b t w. p.settings t t.stake_public_key t.reward_fee_fraction true _ w)
    apply-kept resumes = owned _ (
        require-Holds _ s.paused _ _ s λ _. pinged _ λ b t w.
          restake _ (p.settings t t.stake_public_key t.reward_fee_fraction false t.promises w))
    apply-kept (updates_key key) =
        owned _ (
          pinged _
            λ b t w. restake _ (p.settings t key t.reward_fee_fraction t.paused t.promises w))
    apply-kept (updates_fee fee) = update_fee-kept fee
    apply-kept (votes encode a b) =
        owned _ (require-Holds _ (e.is_valid_account_id a) _ _ s λ _. promised s v _)
