-- ===== src/StakingPool/Shares.antt =====
-- The shares of the accounts of staking-pool/src against `total_stake_shares`.
use contract_new_project_tem.Prelude.{
  ceil_floor, ℕ, ◌+◌, ◌-◌, ◌*◌, ◌/◌, ◌<◌, ◌≤◌, ◌≡◌, refl, ◌∙◌, ok, arith, u128_mod,
}
use contract_new_project_tem.Host.{Env, AccountId}
use contract_new_project_tem.StakingPool.State.{
  Account, StakingContract, stake_share_price_guarantee_fund, num_epochs_to_unlock,
  internal_get_account,
}
use contract_new_project_tem.StakingPool.Internal.{add128, inner_unstake}
use contract_new_project_tem.StakingPool.Balance.{
  shares_in, shares-save, shares_of-le, unstaked_of-le, account-save_self,
}
use contract_new_project_tem.StakingPool.Price.{priced_up, priced_reward}
use contract_new_project_tem.StakingPool.Effects.{
  floor_staked, ceil_staked, ceil_shares, after_stake, after_withdraw, after_deposit, after_reward,
  after_reward_cases, fee_of, inner_unstake_effect,
}
use contract_new_project_tem.StakingPool.Solvency.{IsSolvent, add128-exact, fee-le}

-- The accounts' shares and the `c` shares of the pool itself make up the total.
abbrev pub IsConserved : ℕ → StakingContract → Type 0
IsConserved c s = shares_in s.accounts + c ≡ s.total_stake_shares

module _ (k c : ℕ) (s : StakingContract) (v : IsSolvent k s) (w : IsConserved c s) where
  pub after_stake-IsConserved :
      (a : AccountId) (n : ℕ)
      → k < stake_share_price_guarantee_fund
      → 0 < s.total_stake_shares
      → floor_staked n s ≤ (internal_get_account a s).unstaked
      → IsConserved c (after_stake a n s)
  after_stake-IsConserved a n few pos covered =
      let account = internal_get_account a s in
      let saved : Account = record account {
        unstaked = account.unstaked - floor_staked n s;
        stake_shares = add128 account.stake_shares n;
      } in
      let books = shares-save a saved s.accounts v.unique in
      let owned = unstaked_of-le a s.accounts in
      let held = shares_of-le a s.accounts in
      let rounded = ceil_floor (s.total_staked_balance * n) s.total_stake_shares pos in
      let price = priced_up s.total_staked_balance s.total_stake_shares n pos v.priced in
      omega (
        arith,
        v.backed,
        v.bounded,
        add128-exact s.total_stake_shares n,
        add128-exact account.stake_shares n,
      )

  pub after_withdraw-IsConserved :
      (a : AccountId) (amount : ℕ) → IsConserved c (after_withdraw a amount s)
  after_withdraw-IsConserved a amount =
      let account = internal_get_account a s in
      omega (
        arith,
        shares-save a (record account { unstaked = account.unstaked - amount }) s.accounts v.unique,
      )

  pub after_deposit-IsConserved : (e : Env) → IsConserved c (after_deposit e s)
  after_deposit-IsConserved e =
      let account = internal_get_account e.predecessor_account_id s in
      omega (
        arith,
        shares-save e.predecessor_account_id
            (record account { unstaked = add128 account.unstaked e.attached_deposit }) s.accounts
            v.unique,
      )

  pub after_reward-IsConserved :
      (reward new_balance : ℕ)
      → k < stake_share_price_guarantee_fund
      → reward ≡ new_balance - s.last_total_balance
      → s.last_total_balance ≤ new_balance
      → new_balance < u128_mod
      → 0 < s.reward_fee_fraction.denominator
      → 0 < add128 s.total_staked_balance (reward - fee_of reward s)
      → IsConserved c (after_reward reward s)
  after_reward-IsConserved reward new_balance few grown le fits pos staked =
      let fee = fee_of reward s in
      let small = fee-le k s v reward pos in
      let n = s.total_stake_shares * fee / add128 s.total_staked_balance (reward - fee) in
      let account = internal_get_account s.owner_id s in
      let saved : Account = record account { stake_shares = add128 account.stake_shares n } in
      let books = shares-save s.owner_id saved s.accounts v.unique in
      let held = shares_of-le s.owner_id s.accounts in
      let exact : add128 s.total_staked_balance (reward - fee)
          ≡ s.total_staked_balance + (reward - fee) =
        omega (arith, add128-exact s.total_staked_balance (reward - fee), v.backed) in
      let price : s.total_stake_shares + n ≤ s.total_staked_balance + (reward - fee) + fee =
        rw exact (
          priced_reward s.total_staked_balance s.total_stake_shares (reward - fee) fee v.priced
            (omega arith)) in
      after_reward_cases (λ t. IsConserved c t) reward s
        (omega (
          arith,
          v.backed,
          add128-exact s.total_stake_shares n,
          add128-exact account.stake_shares n,
        ))
        w

-- What the source does where it means to take the shares away: an unstake of `n` shares that goes
-- through leaves the accounts together with `n` more shares, and the total with `n` fewer.
pub inner_unstake-inflates :
    (k : ℕ) (e : Env) (amount : ℕ) (s : StakingContract) {t : StakingContract}
    → IsSolvent k s
    → inner_unstake e amount s ≡ ok (tt, t)
    → (internal_get_account e.predecessor_account_id s).stake_shares + ceil_shares amount s
      < u128_mod
    → let a = e.predecessor_account_id in
      let n = ceil_shares amount s in
      (0 < n)
      × ((internal_get_account a t).stake_shares ≡ (internal_get_account a s).stake_shares + n)
      × (shares_in t.accounts ≡ shares_in s.accounts + n)
      × (t.total_stake_shares ≡ s.total_stake_shares - n)
inner_unstake-inflates k e amount s {t} v h fits =
    let a = e.predecessor_account_id in
    let n = ceil_shares amount s in
    let account = internal_get_account a s in
    let (some_shares, _, _, _, after) = inner_unstake_effect e amount s h in
    let saved : Account = record {
      unstaked = add128 account.unstaked (ceil_staked n s);
      stake_shares = add128 account.stake_shares n;
      unstaked_available_epoch_height = e.epoch_height + num_epochs_to_unlock;
    } in
    let books = shares-save a saved s.accounts v.unique in
    let exact = add128-exact account.stake_shares n fits in
    rw after (some_shares, (account-save_self a saved s.accounts).1 ∙ exact, omega arith, refl)
