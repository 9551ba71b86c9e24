-- ===== src/StakingPool/Solvency.antt =====
-- The books of staking-pool/src: what the pool owes its accounts and its stake against what it has.
use contract_new_project_tem.Prelude.{
  floor_bounds, le_of_mul_le, ceil_floor, ℕ, ◌+◌, ◌-◌, ◌*◌, ◌/◌, ◌<◌, ◌≤◌, ◌≡◌, ap, ◌∙◌, arith,
  u128_mod,
}
use contract_new_project_tem.Prelude.Map.{IsMap}
use contract_new_project_tem.Host.{Env, AccountId}
use contract_new_project_tem.StakingPool.State.{
  Account, StakingContract, num_epochs_to_unlock, stake_share_price_guarantee_fund,
  internal_get_account,
}
use contract_new_project_tem.StakingPool.Internal.{add128}
use contract_new_project_tem.StakingPool.Balance.{unstaked_in, save-IsMap, unstaked-save}
use contract_new_project_tem.StakingPool.Effects.{
  floor_staked, ceil_staked, after_stake, after_unstake, after_withdraw, after_deposit,
  after_reward, after_reward_cases, fee_of,
}
use contract_new_project_tem.StakingPool.Price.{priced_up, priced_down, priced_reward}

-- After `k` roundings: every account's unstaked balance, the stake, and what is left of the
-- guarantee fund are covered by the balance; the fee is at most the reward; a share is worth at
-- least one token.
pub record IsSolvent (k : ℕ) (s : StakingContract) : Type 0 where
  pub unique : IsMap s.accounts
  pub backed :
      s.total_staked_balance + unstaked_in s.accounts + stake_share_price_guarantee_fund
      ≤ s.last_total_balance + k
  pub bounded : s.last_total_balance < u128_mod
  pub fee : s.reward_fee_fraction.numerator ≤ s.reward_fee_fraction.denominator
  pub priced : s.total_stake_shares ≤ s.total_staked_balance

pub add128-exact : (a b : ℕ) → a + b < u128_mod → add128 a b ≡ a + b
add128-exact a b h = ground arith

pub add128-le : (a b : ℕ) → add128 a b ≤ a + b
add128-le a b = ground arith

-- The value of at most all shares is at most the whole stake.
floor_staked-le : (t s n : ℕ) → 0 < s → n ≤ s → t * n / s ≤ t
floor_staked-le t s n pos le =
    let f = floor_bounds (t * n) s pos in le_of_mul_le (t * n / s) t s pos (grind arith)

module _ (k : ℕ) (s : StakingContract) (v : IsSolvent k s) where
  pub after_stake-IsSolvent :
      (a : AccountId) (n : ℕ)
      → k < stake_share_price_guarantee_fund
      → 0 < s.total_stake_shares
      → floor_staked n s ≤ (internal_get_account a s).unstaked
      → IsSolvent (k + 1) (after_stake a n s)
  after_stake-IsSolvent a n few pos covered =
      let account = internal_get_account a s in
      let saved : Account = record account {
        unstaked = account.unstaked - floor_staked n s;
        stake_shares = add128 account.stake_shares n;
      } in
      let books = unstaked-save a saved s.accounts v.unique in
      let rounded = ceil_floor (s.total_staked_balance * n) s.total_stake_shares pos in
      let price = priced_up s.total_staked_balance s.total_stake_shares n pos v.priced in
      record {
        unique = save-IsMap a saved s.accounts v.unique;
        backed = ground arith;
        bounded = v.bounded;
        fee = v.fee;
        priced = ground arith;
      }

  pub after_unstake-IsSolvent :
      (e : Env) (n : ℕ)
      → k < stake_share_price_guarantee_fund
      → 0 < s.total_stake_shares
      → n ≤ s.total_stake_shares
      → IsSolvent (k + 1) (after_unstake e n s)
  after_unstake-IsSolvent e n few pos held =
      let a = e.predecessor_account_id in
      let account = internal_get_account a s in
      let saved : Account = record {
        unstaked = add128 account.unstaked (ceil_staked n s);
        stake_shares = add128 account.stake_shares n;
        unstaked_available_epoch_height = e.epoch_height + num_epochs_to_unlock;
      } in
      let books = unstaked-save a saved s.accounts v.unique in
      let rounded = ceil_floor (s.total_staked_balance * n) s.total_stake_shares pos in
      let price = priced_down s.total_staked_balance s.total_stake_shares n pos v.priced in
      record {
        unique = save-IsMap a saved s.accounts v.unique;
        backed =
            let below = floor_staked-le s.total_staked_balance s.total_stake_shares n pos held in
            ground arith;
        bounded = v.bounded;
        fee = v.fee;
        priced = price;
      }

  pub after_withdraw-IsSolvent :
      (a : AccountId) (amount : ℕ)
      → k < stake_share_price_guarantee_fund
      → amount ≤ (internal_get_account a s).unstaked
      → IsSolvent k (after_withdraw a amount s)
  after_withdraw-IsSolvent a amount few covered =
      let account = internal_get_account a s in
      let saved : Account = record account { unstaked = account.unstaked - amount } in
      let books = unstaked-save a saved s.accounts v.unique in
      record {
        unique = save-IsMap a saved s.accounts v.unique;
        backed = ground arith;
        bounded = ground arith;
        fee = v.fee;
        priced = v.priced;
      }

  pub after_deposit-IsSolvent :
      (e : Env)
      → s.last_total_balance + e.attached_deposit < u128_mod
      → IsSolvent k (after_deposit e s)
  after_deposit-IsSolvent e fits =
      let a = e.predecessor_account_id in
      let account = internal_get_account a s in
      let saved : Account = record account {
        unstaked = add128 account.unstaked e.attached_deposit;
      } in
      let books = unstaked-save a saved s.accounts v.unique in
      record {
        unique = save-IsMap a saved s.accounts v.unique;
        backed = ground arith;
        bounded = ground arith;
        fee = v.fee;
        priced = v.priced;
      }

  pub fee-le : (reward : ℕ) → 0 < s.reward_fee_fraction.denominator → fee_of reward s ≤ reward
  fee-le reward pos =
      let f =
        floor_bounds (s.reward_fee_fraction.numerator * reward) s.reward_fee_fraction.denominator
          pos in
      le_of_mul_le _ reward s.reward_fee_fraction.denominator pos (grind (arith, v.fee))

  pub after_reward-IsSolvent :
      (reward new_balance : ℕ)
      → k < stake_share_price_guarantee_fund
      → reward ≡ new_balance - s.last_total_balance
      → s.last_total_balance ≤ new_balance
      → new_balance < u128_mod
      → 0 < s.reward_fee_fraction.denominator
      → 0 < add128 s.total_staked_balance (reward - fee_of reward s)
      → IsSolvent k (record (after_reward reward s) { last_total_balance = new_balance })
  after_reward-IsSolvent reward new_balance few grown le fits pos staked =
      let fee = fee_of reward s in
      let small = fee-le reward pos in
      let n = s.total_stake_shares * fee / add128 s.total_staked_balance (reward - fee) in
      let account = internal_get_account s.owner_id s in
      let saved : Account = record account { stake_shares = add128 account.stake_shares n } in
      let books = unstaked-save s.owner_id saved s.accounts v.unique in
      let map = save-IsMap s.owner_id saved s.accounts v.unique in
      let exact : add128 s.total_staked_balance (reward - fee)
          ≡ s.total_staked_balance + (reward - fee) =
        omega (arith, add128-exact s.total_staked_balance (reward - fee), v.backed) in
      let price : s.total_stake_shares + n ≤ s.total_staked_balance + (reward - fee) + fee =
        rw exact (
          priced_reward s.total_staked_balance s.total_stake_shares (reward - fee) fee v.priced
            (omega arith)) in
      let total : add128 (add128 s.total_staked_balance (reward - fee)) fee
          ≡ s.total_staked_balance + reward =
        ap (λ x. add128 x fee) exact
        ∙ (add128-exact (s.total_staked_balance + (reward - fee)) fee (omega arith)
            ∙ omega arith) in
      after_reward_cases (λ t. IsSolvent k (record t { last_total_balance = new_balance })) reward s
        (record {
          unique = map;
          backed = omega arith;
          bounded = fits;
          fee = v.fee;
          priced = omega (arith, add128-le s.total_stake_shares n);
        })
        (record {
          unique = v.unique;
          backed = omega arith;
          bounded = fits;
          fee = v.fee;
          priced = omega arith;
        })
