-- ===== src/StakingPool/Keeps.antt =====
-- Each method of staking-pool/src/lib.rs keeps the books and the shares, or only the books.
use contract_new_project_tem.Prelude.{
  ℕ, ◌+◌, ◌<◌, ◌≤◌, ◌≡◌, refl, inl, inr, Bool, true, false, Outcome, ok, panic, Holds,
  Outcome-cases, seq-Holds, ◌>>◌, lift, asks, modify, pure, ltb, not, ◌&&◌, if◌then◌else◌,
  require-Holds, Bool-cases, ◌==◌, arith, List, u128_mod,
}
use contract_new_project_tem.Host.{Env, AccountId, PublicKey, Promise}
use contract_new_project_tem.StakingPool.State.{
  StakingContract, Callback, RewardFeeFraction, stake_share_price_guarantee_fund,
  internal_get_account, assert_valid, staked_amount_from_num_shares_rounded_down,
}
use contract_new_project_tem.StakingPool.Internal.{
  internal_restake, internal_deposit, internal_withdraw, internal_stake, inner_unstake,
  assert_owner, internal_ping,
}
use contract_new_project_tem.StakingPool.Methods.{
  ping, deposit, deposit_and_stake, withdraw_all, withdraw, stake_all, stake_some, unstake_all,
  unstake, on_stake_action, update_staking_key, update_reward_fee_fraction, vote, pause_staking,
  resume_staking, restake_if, stake_nothing, stake_action_succeeded,
}
use contract_new_project_tem.StakingPool.Solvency.{IsSolvent}
use contract_new_project_tem.StakingPool.Rounds.{
  IsSound, Fits, IsSound-suc, unrelated-IsSound, internal_ping-IsSound, internal_deposit-IsSound,
  internal_withdraw-IsSound, internal_stake-IsSound, inner_unstake-IsSolvent,
  internal_restake-IsSound, restake_if-IsSound,
}

internal_restake-IsSolvent :
    (k : ℕ) (e : Env) (s : StakingContract)
    → IsSolvent k s
    → Holds (λ r. IsSolvent k r.1) (internal_restake e s)
unfolding internal_restake
internal_restake-IsSolvent k e s v = elim (Bool-cases s.paused) [
  | inl p ↦
      rw (p, Holds)
        (record {
          unique = v.unique;
          backed = v.backed;
          bounded = v.bounded;
          fee = v.fee;
          priced = v.priced;
        })
  | inr p ↦
      rw (p, Holds)
        (record {
          unique = v.unique;
          backed = v.backed;
          bounded = v.bounded;
          fee = v.fee;
          priced = v.priced;
        })
]

asks-same :
    {A : Type 0} (f : StakingContract → Outcome A) (s : StakingContract)
    → Holds (λ r. r.1 ≡ s) (asks f s)
asks-same f s = elim (Outcome-cases (f s)) [
  | inl (a, eq) ↦ rw (eq, Holds) refl
  | inr (m, eq) ↦ rw (eq, Holds) tt
]

module _ (k c : ℕ) (few : k < stake_share_price_guarantee_fund) (e : Env) (s : StakingContract)
    (v : IsSound k c s) (f : Fits e s) where
  abbrev Sound : {A : Type 0} → Outcome (A × StakingContract) → Type 0
  Sound = Holds (λ r. IsSound (k + 1) c r.1)

  later : (t : StakingContract) → IsSound k c t → IsSound (k + 1) c t
  later t w = IsSound-suc k c t w

  -- The ping comes first in every method.
  after_ping :
      {B : Type 0} (Q : B × StakingContract → Type 0)
      (rest : Bool → StakingContract → Outcome (B × StakingContract))
      → ((b : Bool) (t : StakingContract)
          → IsSound k c t
          → t.last_total_balance + e.attached_deposit < u128_mod
          → Holds Q (rest b t))
      → Holds Q (elim (internal_ping e s) [ ok (b, t) ↦ rest b t | panic m ↦ panic m ])
  after_ping Q rest h =
      seq-Holds (λ r. IsSound k c r.1 × (r.1.last_total_balance + e.attached_deposit < u128_mod)) Q
        (internal_ping e) rest s (internal_ping-IsSound k c few e s v f) (λ b t p. h b t p.0 p.1)

  pub ping-IsSound : Sound (ping e s)
  unfolding ping
  ping-IsSound = after_ping _ _ λ b t w _. restake_if-IsSound (k + 1) c e b t (later t w)

  pub deposit-IsSound : Sound (deposit e s)
  unfolding deposit
  deposit-IsSound = after_ping _ _ λ b t w room.
      seq-Holds (λ r. IsSound k c r.1) _ (internal_deposit e) _ t
        (internal_deposit-IsSound k c few e t w room)
        (λ _ u x. restake_if-IsSound (k + 1) c e b u (later u x))

  -- What follows a stake of either kind.
  staked :
      (amount : ℕ) (t : StakingContract)
      → IsSound k c t
      → Sound ((internal_stake e amount >> internal_restake e) t)
  staked amount t w =
      seq-Holds (λ r. IsSound (k + 1) c r.1) _ (internal_stake e amount) _ t
        (internal_stake-IsSound k c few e amount t w)
        (λ _ u x. internal_restake-IsSound (k + 1) c e u x)

  pub deposit_and_stake-IsSound : Sound (deposit_and_stake e s)
  unfolding deposit_and_stake
  deposit_and_stake-IsSound = after_ping _ _ λ b t w room.
      seq-Holds (λ r. IsSound k c r.1) _ (internal_deposit e) _ t
        (internal_deposit-IsSound k c few e t w room) (λ amount u x. staked amount u x)

  withdrawn :
      (amount : ℕ) (b : Bool) (t : StakingContract)
      → IsSound k c t
      → Sound ((internal_withdraw e amount >> restake_if e b) t)
  withdrawn amount b t w =
      seq-Holds (λ r. IsSound k c r.1) _ (internal_withdraw e amount) _ t
        (internal_withdraw-IsSound k c few e amount t w)
        (λ _ u x. restake_if-IsSound (k + 1) c e b u (later u x))

  pub withdraw-IsSound : (amount : ℕ) → Sound (withdraw e amount s)
  unfolding withdraw
  withdraw-IsSound amount = after_ping _ _ λ b t w _. withdrawn amount b t w

  pub withdraw_all-IsSound : Sound (withdraw_all e s)
  unfolding withdraw_all
  withdraw_all-IsSound = after_ping _ _ λ b t w _. withdrawn _ b t w

  pub stake_some-IsSound : (amount : ℕ) → Sound (stake_some e amount s)
  unfolding stake_some
  stake_some-IsSound amount = after_ping _ _ λ b t w _. staked amount t w

  pub stake_all-IsSound : Sound (stake_all e s)
  unfolding stake_all
  stake_all-IsSound = after_ping _ _ λ b t w _. staked _ t w

  -- The promises are no part of the books.
  promised :
      (promises : List (Promise Callback)) → IsSound (k + 1) c (record s { promises = promises })
  promised promises = later _ (unrelated-IsSound k c s v s.stake_public_key s.paused promises)

  pub on_stake_action-IsSound : Sound (on_stake_action e s)
  unfolding on_stake_action
  on_stake_action-IsSound =
      require-Holds _ (e.current_account_id == e.predecessor_account_id) _ _ s λ _.
        seq-Holds (λ r. r.1 ≡ s) _ (lift (stake_action_succeeded e.promise_results)) _ s
          (lift-same (stake_action_succeeded e.promise_results)) (λ b t same. rw same (told b))
    where
      lift-same : (m : Outcome Bool) → Holds (λ r. r.1 ≡ s) (lift {S = StakingContract} m s)
      lift-same (ok b) = refl
      lift-same (panic m) = tt

      told :
          (b : Bool)
          → Sound (
              (if not b && ltb 0 e.account_locked_balance
                  then modify (stake_nothing e)
                  else pure tt)
                s)
      told b = elim (Bool-cases (not b && ltb 0 e.account_locked_balance)) [
        | inl t ↦ rw (t, Holds) (promised _)
        | inr t ↦ rw (t, Holds) (later s v)
      ]

  pub update_staking_key-IsSound : (key : PublicKey) → Sound (update_staking_key e key s)
  unfolding update_staking_key assert_owner
  update_staking_key-IsSound key =
      require-Holds _ (e.predecessor_account_id == s.owner_id) _ _ s λ _. after_ping _ _ λ b t w _.
        internal_restake-IsSound (k + 1) c e _
          (later _ (unrelated-IsSound k c t w key t.paused t.promises))

  pub vote-IsSound : (encode : Bool → ℕ) (a : AccountId) (b : Bool) → Sound (vote e encode a b s)
  unfolding vote assert_owner
  vote-IsSound encode a b =
      require-Holds _ (e.predecessor_account_id == s.owner_id) _ _ s
        λ _. require-Holds _ (e.is_valid_account_id a) _ _ s λ _. promised _

  pub pause_staking-IsSound : Sound (pause_staking e s)
  unfolding pause_staking assert_owner
  pause_staking-IsSound = require-Holds _ (e.predecessor_account_id == s.owner_id) _ _ s λ _.
      require-Holds _ (not s.paused) _ _ s
        λ _. after_ping _ _ λ b t w _. later _ (unrelated-IsSound k c t w t.stake_public_key true _)

  pub resume_staking-IsSound : Sound (resume_staking e s)
  unfolding resume_staking assert_owner
  resume_staking-IsSound = require-Holds _ (e.predecessor_account_id == s.owner_id) _ _ s λ _.
      require-Holds _ s.paused _ _ s λ _. after_ping _ _ λ b t w _.
        internal_restake-IsSound (k + 1) c e _
          (later _ (unrelated-IsSound k c t w t.stake_public_key false t.promises))

  checked :
      (fee : RewardFeeFraction)
      → Holds
          (λ r. (r.1 ≡ s) × (fee.numerator ≤ fee.denominator))
          (lift {S = StakingContract} (assert_valid fee) s)
  unfolding assert_valid
  checked fee = ground arith

  refunded :
      (fee : RewardFeeFraction) (t : StakingContract)
      → fee.numerator ≤ fee.denominator
      → IsSound k c t
      → IsSound (k + 1) c (record t { reward_fee_fraction = fee })
  refunded fee t le w = later _ (record {
    solvent = record {
      unique = w.solvent.unique;
      backed = w.solvent.backed;
      bounded = w.solvent.bounded;
      fee = le;
      priced = w.solvent.priced;
    };
    conserved = w.conserved;
  })

  pub update_fee-IsSound : (fee : RewardFeeFraction) → Sound (update_reward_fee_fraction e fee s)
  unfolding update_reward_fee_fraction assert_owner
  update_fee-IsSound fee = require-Holds _ (e.predecessor_account_id == s.owner_id) _ _ s λ _.
      seq-Holds (λ r. (r.1 ≡ s) × (fee.numerator ≤ fee.denominator)) _ (lift (assert_valid fee)) _ s
        (checked fee)
        (λ _ t p.
          rw p.0
            (after_ping _ _ λ b u w _. restake_if-IsSound (k + 1) c e b _ (refunded fee u p.1 w)))

  -- An unstake keeps the books, not the shares.
  unstaked :
      (amount : ℕ) (t : StakingContract)
      → IsSound k c t
      → Holds (λ r. IsSolvent (k + 1) r.1) ((inner_unstake e amount >> internal_restake e) t)
  unstaked amount t w =
      seq-Holds (λ r. IsSolvent (k + 1) r.1) _ (inner_unstake e amount) _ t
        (inner_unstake-IsSolvent k c few e amount t w)
        (λ _ u x. internal_restake-IsSolvent (k + 1) e u x)

  pub unstake-IsSolvent : (amount : ℕ) → Holds (λ r. IsSolvent (k + 1) r.1) (unstake e amount s)
  unfolding unstake
  unstake-IsSolvent amount = after_ping _ _ λ b t w _. unstaked amount t w

  pub unstake_all-IsSolvent : Holds (λ r. IsSolvent (k + 1) r.1) (unstake_all e s)
  unfolding unstake_all
  unstake_all-IsSolvent = after_ping _ _ λ b t w _.
      seq-Holds (λ r. r.1 ≡ t) _
        (asks (
          staked_amount_from_num_shares_rounded_down
            (internal_get_account e.predecessor_account_id t).stake_shares))
        _ t
        (asks-same
          (staked_amount_from_num_shares_rounded_down
            (internal_get_account e.predecessor_account_id t).stake_shares)
          t)
        (λ amount u same. rw same (unstaked amount t w))
