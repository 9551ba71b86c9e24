-- ===== src/StakingPool/Examples.antt =====
-- Runs of staking-pool/src on concrete pools.
use contract_new_project_tem.Prelude.{
  ℕ, ◌<◌, ◌≤◌, ◌≡◌, refl, true, false, some, [], ◌∷◌, ◌>>◌, Holds, IsPanic, arith,
}
use contract_new_project_tem.Prelude.Map.{sum, lookup, insert}
use contract_new_project_tem.Host.{Env, successful, stake}
use contract_new_project_tem.StakingPool.State.{
  StakingContract, Callback, RewardFeeFraction, internal_get_account, account_in, saved_accounts,
  multiply, assert_valid, num_shares_from_staked_amount_rounded_down,
  num_shares_from_staked_amount_rounded_up, staked_amount_from_num_shares_rounded_down,
  staked_amount_from_num_shares_rounded_up,
}
use contract_new_project_tem.StakingPool.Internal.{
  internal_withdraw, internal_stake, inner_unstake, internal_restake, internal_ping, enter_epoch,
  distribute_reward, buy_owner_shares,
}
use contract_new_project_tem.StakingPool.Balance.{shares_in}
use contract_new_project_tem.StakingPool.Methods.{stakes, deposits, apply, new, fresh_pool}
use contract_new_project_tem.StakingPool.Effects.{
  floor_staked, after_stake, after_unstake, after_epoch, after_reward,
}
use contract_new_project_tem.StakingPool.Solvency.{IsSolvent}
use contract_new_project_tem.StakingPool.Shares.{inner_unstake-inflates}
use contract_new_project_tem.StakingPool.Worth.{
  PriceRises, internal_stake-fair, inner_unstake-fair, internal_ping-PriceRises,
}
use contract_new_project_tem.StakingPool.Delay.{unstake_delays}
use contract_new_project_tem.StakingPool.Frame.{apply_untouched}
use contract_new_project_tem.StakingPool.Rounds.{IsSound, Fits}
use contract_new_project_tem.StakingPool.History.{run, new-run-IsSound}

abbrev tenth : RewardFeeFraction
tenth = record { numerator = 1; denominator = 10 }

-- Account 5 has 10 of the 1010 shares, at a price of two tokens.
abbrev pool : StakingContract
pool = record {
  owner_id = 1;
  stake_public_key = 9;
  last_epoch_height = 3;
  last_total_balance = 1_000_000_002_060;
  total_stake_shares = 1010;
  total_staked_balance = 2020;
  reward_fee_fraction = tenth;
  accounts =
      (5, record { unstaked = 40; stake_shares = 10; unstaked_available_epoch_height = 0 }) ∷ [];
  paused = false;
  promises = [];
}

abbrev call_by : ℕ → ℕ → Env
call_by caller epoch = record {
  current_account_id = 100;
  predecessor_account_id = caller;
  signer_account_pk = 0;
  attached_deposit = 0;
  account_balance = 1_000_000_000_240;
  account_locked_balance = 2020;
  block_timestamp = 0;
  epoch_height = epoch;
  validator_stake = λ _. 0;
  validator_total_stake = 0;
  promise_results = successful ∷ [];
  is_valid_account_id = λ _. true;
  state_exists = false;
}

pool-IsSolvent : IsSolvent 0 pool
unfolding sum lookup
pool-IsSolvent = record {
  unique = (refl, tt);
  backed = omega arith;
  bounded = omega arith;
  fee = omega arith;
  priced = omega arith;
}

pool-IsSound : IsSound 0 1000 pool
unfolding sum
pool-IsSound = record { solvent = pool-IsSolvent; conserved = refl }

call-Fits : Fits (call_by 5 3) pool
call-Fits = record { included = omega arith; supply = omega arith; room = omega arith }

internal_stake-fair_example :
    PriceRises pool (after_stake 5 5 pool)
    × (10 ≤ 10)
    × ((internal_get_account 5 (after_stake 5 5 pool)).unstaked ≡ 30)
    × ((internal_get_account 5 (after_stake 5 5 pool)).stake_shares ≡ 15)
    × (0 < 5)
    × (10 ≤ floor_staked 5 (after_stake 5 5 pool))
unfolding internal_stake num_shares_from_staked_amount_rounded_down
    staked_amount_from_num_shares_rounded_up staked_amount_from_num_shares_rounded_down account_in
    saved_accounts lookup insert
internal_stake-fair_example =
    internal_stake-fair 0 (call_by 5 3) 10 pool {t = after_stake 5 5 pool} (omega arith)
      pool-IsSolvent refl

inner_unstake-fair_example :
    PriceRises pool (after_unstake (call_by 5 3) 4 pool)
    × (47 ≤ (internal_get_account 5 (after_unstake (call_by 5 3) 4 pool)).unstaked)
unfolding inner_unstake num_shares_from_staked_amount_rounded_up
    staked_amount_from_num_shares_rounded_up staked_amount_from_num_shares_rounded_down account_in
    saved_accounts lookup insert
inner_unstake-fair_example =
    inner_unstake-fair (call_by 5 3) 7 pool {t = after_unstake (call_by 5 3) 4 pool} refl
      (omega arith)

-- The account had 10 shares and paid 4 of them; now it has 14.
inner_unstake-inflates_example :
    let t = after_unstake (call_by 5 3) 4 pool in
    (0 < 4)
    × ((internal_get_account 5 t).stake_shares ≡ 14)
    × (shares_in t.accounts ≡ 14)
    × (t.total_stake_shares ≡ 1006)
unfolding inner_unstake num_shares_from_staked_amount_rounded_up
    staked_amount_from_num_shares_rounded_up staked_amount_from_num_shares_rounded_down account_in
    saved_accounts lookup insert sum
inner_unstake-inflates_example =
    inner_unstake-inflates 0 (call_by 5 3) 7 pool {t = after_unstake (call_by 5 3) 4 pool}
      pool-IsSolvent refl (omega arith)

internal_ping-PriceRises_example : PriceRises pool (after_epoch (call_by 5 4) pool)
unfolding internal_ping enter_epoch distribute_reward buy_owner_shares multiply
    num_shares_from_staked_amount_rounded_down after_epoch after_reward account_in saved_accounts
    lookup insert
internal_ping-PriceRises_example =
    internal_ping-PriceRises 0 (call_by 5 4) pool {b = true} {t = after_epoch (call_by 5 4) pool}
      (omega arith) pool-IsSolvent (omega arith) refl

unstake_delays_example :
    IsPanic (internal_withdraw (call_by 5 6) 20 (after_unstake (call_by 5 3) 4 pool))
unfolding inner_unstake num_shares_from_staked_amount_rounded_up
    staked_amount_from_num_shares_rounded_up staked_amount_from_num_shares_rounded_down account_in
    lookup
unstake_delays_example =
    unstake_delays (call_by 5 3) (call_by 5 6) 7 20 pool (after_unstake (call_by 5 3) 4 pool)
      {t = after_unstake (call_by 5 3) 4 pool} refl refl refl (omega arith)

apply_untouched_example :
    Holds
      (λ r. (internal_get_account 6 r.1 ≡ internal_get_account 6 pool) × (r.1.owner_id ≡ 1))
      (apply (call_by 5 4) (stakes 10) pool)
apply_untouched_example =
    apply_untouched (call_by 5 4) (stakes 10) pool 6 (omega arith) (omega arith)

-- The pool made with a balance of the fund and 1000 tokens, and its first stake.
abbrev maker : Env
maker = record (call_by 1 3) { account_balance = 1_000_000_001_000; account_locked_balance = 0 }

abbrev made : StakingContract
made = record pool {
  last_total_balance = 1_000_000_001_000;
  total_stake_shares = 1000;
  total_staked_balance = 1000;
  accounts = [];
  promises =
      record {
        receiver_id = 100;
        actions = stake 1000 9 ∷ [];
        callback = some Callback.on_stake_action;
      }
      ∷ [];
}

abbrev depositor : Env
depositor = record (call_by 5 3) {
  attached_deposit = 70;
  account_balance = 1_000_000_000_070;
  account_locked_balance = 1000;
}

new-run-IsSound_example : IsSound 1 1000 (run made ((depositor, deposits) ∷ []))
unfolding new fresh_pool assert_valid internal_restake
new-run-IsSound_example =
    new-run-IsSound maker 1 9 tenth ((depositor, deposits) ∷ []) {s = made} refl (omega arith)
      (omega arith) (omega arith)
      (record { included = omega arith; supply = omega arith; room = omega arith }, refl, tt)

-- A pool of 15 shares at two tokens, ten of them account 5's.
abbrev small : StakingContract
small = record pool {
  last_total_balance = 1_000_000_000_030;
  total_stake_shares = 15;
  total_staked_balance = 30;
  accounts =
      (5, record { unstaked = 0; stake_shares = 10; unstaked_available_epoch_height = 0 }) ∷ [];
}

-- Its stake of 20 tokens, unstaked twice, becomes an unstaked balance of 60: more than the pool has.
unstake_twice :
    Holds
      (λ r. (internal_get_account 5 r.1).unstaked ≡ 60)
      ((inner_unstake (call_by 5 3) 20 >> inner_unstake (call_by 5 3) 40) small)
unfolding inner_unstake num_shares_from_staked_amount_rounded_up
    staked_amount_from_num_shares_rounded_up staked_amount_from_num_shares_rounded_down account_in
    saved_accounts lookup insert
unstake_twice = refl
