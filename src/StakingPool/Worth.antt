-- ===== src/StakingPool/Worth.antt =====
-- What staking-pool/src promises its delegators: the price of a share never falls, a stake is not
-- overcharged, an unstake is not underpaid, and an unstaked balance is locked for four epochs.
use native.Mathlib.Nat.{le_trans}
use contract_new_project_tem.Prelude.{
  ceil_floor, mul_le_left, ℕ, ◌+◌, ◌-◌, ◌*◌, ◌/◌, ◌<◌, ◌≤◌, ◌≡◌, refl, ap, ◌∙◌, inl, inr, Bool, ok,
  Bool-cases, arith, ltb, ltb→lt, u128_mod,
}
use contract_new_project_tem.Host.{Env, AccountId}
use contract_new_project_tem.StakingPool.State.{
  Account, StakingContract, stake_share_price_guarantee_fund, num_epochs_to_unlock,
  internal_get_account,
}
use contract_new_project_tem.StakingPool.Internal.{
  add128, internal_stake, inner_unstake, internal_ping,
}
use contract_new_project_tem.StakingPool.Balance.{unstaked_of-le, account-save_self}
use contract_new_project_tem.StakingPool.Price.{
  price_up, price_down, price_reward, bought_worth, sold_worth, worth_mono,
}
use contract_new_project_tem.StakingPool.Effects.{
  floor_shares, ceil_shares, floor_staked, ceil_staked, after_stake, after_reward,
  after_reward_cases, after_epoch, total_balance, fee_of, IsNewEpoch, PingEffect,
  internal_stake_effect, inner_unstake_effect, internal_ping_effect,
}
use contract_new_project_tem.StakingPool.Solvency.{IsSolvent, add128-exact, add128-le, fee-le}

-- The price of a share, `total_staked_balance / total_stake_shares`, is at `t` at least what it is
-- at `s`; both sides are multiplied out.
abbrev pub PriceRises : StakingContract → StakingContract → Type 0
PriceRises s t =
    s.total_staked_balance * t.total_stake_shares ≤ t.total_staked_balance * s.total_stake_shares

IsSolvent-epoch :
    (k : ℕ) (s : StakingContract) (height : ℕ)
    → IsSolvent k s
    → IsSolvent k (record s { last_epoch_height = height })
IsSolvent-epoch k s height v = record {
  unique = v.unique;
  backed = v.backed;
  bounded = v.bounded;
  fee = v.fee;
  priced = v.priced;
}

-- The stake stays within 128 bits.
stake_fits :
    (k : ℕ) (s : StakingContract) (a : AccountId) (n : ℕ)
    → k < stake_share_price_guarantee_fund
    → IsSolvent k s
    → 0 < s.total_stake_shares
    → floor_staked n s ≤ (internal_get_account a s).unstaked
    → s.total_staked_balance + ceil_staked n s < u128_mod
stake_fits k s a n few v pos covered =
    let owned = unstaked_of-le a s.accounts in
    let rounded = ceil_floor (s.total_staked_balance * n) s.total_stake_shares pos in
    omega (arith, v.backed, v.bounded)

add128-pos : (a b : ℕ) → 0 < a → 0 < add128 a b
add128-pos a b h = ground arith

after_reward-PriceRises :
    (k : ℕ) (s : StakingContract) (reward new_balance : ℕ)
    → k < stake_share_price_guarantee_fund
    → IsSolvent k s
    → reward ≡ new_balance - s.last_total_balance
    → s.last_total_balance ≤ new_balance
    → new_balance < u128_mod
    → 0 < s.reward_fee_fraction.denominator
    → 0 < add128 s.total_staked_balance (reward - fee_of reward s)
    → PriceRises s (after_reward reward s)
after_reward-PriceRises k s reward new_balance few v grown le fits pos staked =
    let fee = fee_of reward s in
    let small = fee-le k s v reward pos in
    let rest = s.total_staked_balance + (reward - fee) in
    let n = s.total_stake_shares * fee / add128 s.total_staked_balance (reward - fee) in
    let exact : add128 s.total_staked_balance (reward - fee) ≡ rest =
      omega (arith, add128-exact s.total_staked_balance (reward - fee), v.backed) in
    let total : add128 (add128 s.total_staked_balance (reward - fee)) fee ≡ rest + fee =
      ap (λ x. add128 x fee) exact ∙ add128-exact rest fee (omega (arith, v.backed)) in
    let price : s.total_staked_balance * (s.total_stake_shares + n)
        ≤ (rest + fee) * s.total_stake_shares =
      rw exact (
        price_reward s.total_staked_balance s.total_stake_shares (reward - fee) fee
          (omega arith)) in
    let fewer =
      mul_le_left s.total_staked_balance (add128 s.total_stake_shares n) (s.total_stake_shares + n)
        (add128-le s.total_stake_shares n) in
    after_reward_cases (PriceRises s) reward s (rw total (le_trans fewer price))
      (rw total (omega arith))

after_epoch-PriceRises :
    (k : ℕ) (e : Env) (s : StakingContract)
    → k < stake_share_price_guarantee_fund
    → IsSolvent k s
    → total_balance e < u128_mod
    → IsNewEpoch e s
    → PriceRises s (after_epoch e s)
unfolding after_epoch
after_epoch-PriceRises k e s few v fits new =
    elim (Bool-cases (ltb 0 (total_balance e - s.last_total_balance))) [
      | inl some_left ↦ rw some_left (rewarded new (ltb→lt _ _ some_left))
      | inr none_left ↦ rw none_left (omega arith)
    ]
  where
    rewarded :
        IsNewEpoch e s
        → 0 < total_balance e - s.last_total_balance
        → PriceRises s (
            after_reward
              (total_balance e - s.last_total_balance)
              (record s { last_epoch_height = e.epoch_height }))
    rewarded (le, inl none_left) more = absurd (omega arith)
    rewarded (le, inr (den, staked)) more =
        after_reward-PriceRises k (record s { last_epoch_height = e.epoch_height }) _
          (total_balance e) few (IsSolvent-epoch k s e.epoch_height v) refl le fits den staked

-- A stake that goes through on a solvent pool does not lower the price of a share. It charges the
-- account no more than the amount asked for, and the shares that it gives are worth at least the
-- charge at the price after it. They are added to the account's shares, up to 128 bits.
pub internal_stake-fair :
    (k : ℕ) (e : Env) (amount : ℕ) (s : StakingContract) {t : StakingContract}
    → k < stake_share_price_guarantee_fund
    → IsSolvent k s
    → internal_stake e amount s ≡ ok (tt, t)
    → let a = e.predecessor_account_id in
      let n = floor_shares amount s in
      let charge = floor_staked n s in
      PriceRises s t
      × (charge ≤ amount)
      × ((internal_get_account a t).unstaked ≡ (internal_get_account a s).unstaked - charge)
      × ((internal_get_account a t).stake_shares ≡ add128 (internal_get_account a s).stake_shares n)
      × (0 < n)
      × (charge ≤ floor_staked n t)
internal_stake-fair k e amount s {t} few v h =
    let a = e.predecessor_account_id in
    let n = floor_shares amount s in
    let (some_shares, pt, ps, covered, same) = internal_stake_effect e amount s h in
    let account = internal_get_account a s in
    let saved : Account = record account {
      unstaked = account.unstaked - floor_staked n s;
      stake_shares = add128 account.stake_shares n;
    } in
    let exact =
      add128-exact s.total_staked_balance (ceil_staked n s) (stake_fits k s a n few v ps covered) in
    let up = price_up s.total_staked_balance s.total_stake_shares n ps in
    let fewer =
      mul_le_left s.total_staked_balance (add128 s.total_stake_shares n) (s.total_stake_shares + n)
        (add128-le s.total_stake_shares n) in
    let rises : PriceRises s (after_stake a n s) = rw exact (le_trans fewer up) in
    let still =
      worth_mono s.total_staked_balance s.total_stake_shares _ (add128 s.total_stake_shares n) n ps
        (add128-pos s.total_stake_shares n ps) rises in
    rw same (
      rises,
      bought_worth s.total_staked_balance s.total_stake_shares amount pt ps,
      (account-save_self a saved s.accounts).0,
      (account-save_self a saved s.accounts).1,
      some_shares,
      still,
    )

-- An unstake that goes through does not lower the price of a share, and it credits the account with
-- at least the amount asked for, if the sum fits in 128 bits.
pub inner_unstake-fair :
    (e : Env) (amount : ℕ) (s : StakingContract) {t : StakingContract}
    → inner_unstake e amount s ≡ ok (tt, t)
    → (internal_get_account e.predecessor_account_id s).unstaked
        + ceil_staked (ceil_shares amount s) s
      < u128_mod
    → let a = e.predecessor_account_id in
      PriceRises s t
      × ((internal_get_account a s).unstaked + amount ≤ (internal_get_account a t).unstaked)
inner_unstake-fair e amount s h fits =
    let a = e.predecessor_account_id in
    let n = ceil_shares amount s in
    let account = internal_get_account a s in
    let (_, pt, ps, _, same) = inner_unstake_effect e amount s h in
    let saved : Account = record {
      unstaked = add128 account.unstaked (ceil_staked n s);
      stake_shares = add128 account.stake_shares n;
      unstaked_available_epoch_height = e.epoch_height + num_epochs_to_unlock;
    } in
    let paid = sold_worth s.total_staked_balance s.total_stake_shares amount pt ps in
    rw same (
      price_down s.total_staked_balance s.total_stake_shares n ps,
      omega (
        arith,
        (account-save_self a saved s.accounts).0,
        add128-exact account.unstaked (ceil_staked n s) fits,
      ),
    )

-- Nor does a ping on a solvent pool, which distributes the reward of a new epoch.
pub internal_ping-PriceRises :
    (k : ℕ) (e : Env) (s : StakingContract) {b : Bool} {t : StakingContract}
    → k < stake_share_price_guarantee_fund
    → IsSolvent k s
    → total_balance e < u128_mod
    → internal_ping e s ≡ ok (b, t)
    → PriceRises s t
internal_ping-PriceRises k e s {b} {t} few v fits h = after (internal_ping_effect e s h)
  where
    after : PingEffect e s b t → PriceRises s t
    after (inl (_, _, same)) = rw same (omega arith)
    after (inr (_, _, new, same)) = rw same (after_epoch-PriceRises k e s few v fits new)
