-- ===== src/StakingPool/Internal.antt =====
-- staking-pool/src/internal.rs: the methods that change the state. Logging is left out.
use contract_new_project_tem.Prelude.{
  ℕ, Bool, true, false, none, some, [], ◌∷◌, Action, ◌>>=◌, ◌>>◌, gets, asks, lift, modify, require,
  pure, checked_add, saturating_add, saturating_sub, u64_mod, u128_mod, ltb, leb, ◌==◌,
  if◌then◌else◌,
}
use contract_new_project_tem.Host.{Env, transfer, stake}
use contract_new_project_tem.StakingPool.State.{
  StakingContract, on_stake_action, num_epochs_to_unlock, multiply,
  num_shares_from_staked_amount_rounded_down, num_shares_from_staked_amount_rounded_up,
  staked_amount_from_num_shares_rounded_down, staked_amount_from_num_shares_rounded_up,
  internal_get_account, internal_save_account,
}

-- `UncToken::saturating_add`.
abbrev pub add128 : ℕ → ℕ → ℕ
add128 a b = saturating_add u128_mod a b

unfoldable pub internal_restake : Env → Action StakingContract (Unit {0})
internal_restake e = modify λ s. if s.paused then s else record s {
  promises =
      record {
        receiver_id = e.current_account_id;
        actions = stake s.total_staked_balance s.stake_public_key ∷ [];
        callback = some on_stake_action;
      }
      ∷ s.promises;
}

unfoldable pub internal_deposit : Env → Action StakingContract ℕ
internal_deposit e = do
  let account_id = e.predecessor_account_id
  account ← gets (internal_get_account account_id)
  let amount = e.attached_deposit
  modify (
      internal_save_account account_id
        (record account { unstaked = add128 account.unstaked amount }))
  modify (λ s. record s { last_total_balance = add128 s.last_total_balance amount })
  pure amount

unfoldable pub internal_withdraw : Env → ℕ → Action StakingContract (Unit {0})
internal_withdraw e amount = do
  require (ltb 0 amount) "Withdrawal amount should be positive"
  let account_id = e.predecessor_account_id
  account ← gets (internal_get_account account_id)
  require (leb amount account.unstaked) "Not enough unstaked balance to withdraw"
  require (leb account.unstaked_available_epoch_height e.epoch_height)
      "The unstaked balance is not yet available due to unstaking delay"
  modify (
      internal_save_account account_id
        (record account { unstaked = saturating_sub account.unstaked amount }))
  modify (λ s. record s {
    promises =
        record { receiver_id = account_id; actions = transfer amount ∷ []; callback = none }
        ∷ s.promises;
  })
  modify (λ s. record s { last_total_balance = saturating_sub s.last_total_balance amount })

unfoldable pub internal_stake : Env → ℕ → Action StakingContract (Unit {0})
internal_stake e amount = do
  require (ltb 0 amount) "Staking amount should be positive"
  let account_id = e.predecessor_account_id
  account ← gets (internal_get_account account_id)
  num_shares ← asks (num_shares_from_staked_amount_rounded_down amount)
  require (ltb 0 num_shares)
      "The calculated number of \"stake\" shares received for staking should be positive"
  charge_amount ← asks (staked_amount_from_num_shares_rounded_down num_shares)
  require (ltb 0 charge_amount)
      "Invariant violation. Calculated staked amount must be positive, because \"stake\" share price should be at least 1"
  require (leb charge_amount account.unstaked) "Not enough unstaked balance to stake"
  modify (
      internal_save_account account_id (record account {
        unstaked = saturating_sub account.unstaked charge_amount;
        stake_shares = add128 account.stake_shares num_shares;
      }))
  stake_amount ← asks (staked_amount_from_num_shares_rounded_up num_shares)
  modify (λ s. record s {
    total_staked_balance = add128 s.total_staked_balance stake_amount;
    total_stake_shares = add128 s.total_stake_shares num_shares;
  })

-- The shares that are paid are added to the account, as in the source.
unfoldable pub inner_unstake : Env → ℕ → Action StakingContract (Unit {0})
inner_unstake e amount = do
  require (ltb 0 amount) "Unstaking amount should be positive"
  let account_id = e.predecessor_account_id
  account ← gets (internal_get_account account_id)
  staked ← gets (λ s. s.total_staked_balance)
  require (ltb 0 staked) "The contract doesn't have staked balance"
  num_shares ← asks (num_shares_from_staked_amount_rounded_up amount)
  require (ltb 0 num_shares)
      "Invariant violation. The calculated number of \"stake\" shares for unstaking should be positive"
  require (leb num_shares account.stake_shares) "Not enough staked balance to unstake"
  receive_amount ← asks (staked_amount_from_num_shares_rounded_up num_shares)
  require (ltb 0 receive_amount)
      "Invariant violation. Calculated staked amount must be positive, because \"stake\" share price should be at least 1"
  available ← lift (checked_add u64_mod e.epoch_height num_epochs_to_unlock)
  modify (
      internal_save_account account_id (record {
        stake_shares = add128 account.stake_shares num_shares;
        unstaked = add128 account.unstaked receive_amount;
        unstaked_available_epoch_height = available;
      }))
  unstake_amount ← asks (staked_amount_from_num_shares_rounded_down num_shares)
  modify (λ s. record s {
    total_staked_balance = saturating_sub s.total_staked_balance unstake_amount;
    total_stake_shares = saturating_sub s.total_stake_shares num_shares;
  })

unfoldable pub assert_owner : Env → Action StakingContract (Unit {0})
assert_owner e = do
  owner_id ← gets (λ s. s.owner_id)
  require (e.predecessor_account_id == owner_id) "Can only be called by the owner"

-- The owner's fee is paid in shares, at the price after the delegators' part of the reward.
unfoldable pub buy_owner_shares : ℕ → Action StakingContract (Unit {0})
buy_owner_shares owners_fee = do
  num_shares ← asks (num_shares_from_staked_amount_rounded_down owners_fee)
  if ltb 0 num_shares
      then modify (λ s.
        let account = internal_get_account s.owner_id s in
        let saved =
          internal_save_account s.owner_id
            (record account { stake_shares = add128 account.stake_shares num_shares }) s in
        record saved { total_stake_shares = add128 saved.total_stake_shares num_shares })
      else pure tt

unfoldable pub distribute_reward : ℕ → Action StakingContract (Unit {0})
distribute_reward total_reward = do
  fraction ← gets (λ s. s.reward_fee_fraction)
  owners_fee ← lift (multiply fraction total_reward)
  let remaining_reward = saturating_sub total_reward owners_fee
  modify (λ s. record s { total_staked_balance = add128 s.total_staked_balance remaining_reward })
  buy_owner_shares owners_fee
  modify (λ s. record s { total_staked_balance = add128 s.total_staked_balance owners_fee })

-- What `internal_ping` does in a new epoch.
unfoldable pub enter_epoch : Env → Action StakingContract (Unit {0})
enter_epoch e = do
  modify (λ s. record s { last_epoch_height = e.epoch_height })
  let total_balance =
      saturating_sub (add128 e.account_locked_balance e.account_balance) e.attached_deposit
  last ← gets (λ s. s.last_total_balance)
  require (leb last total_balance)
      "The new total balance should not be less than the old total balance"
  let total_reward = saturating_sub total_balance last
  if ltb 0 total_reward then distribute_reward total_reward else pure tt
  modify (λ s. record s { last_total_balance = total_balance })

unfoldable pub internal_ping : Env → Action StakingContract Bool
internal_ping e = do
  last ← gets (λ s. s.last_epoch_height)
  if last == e.epoch_height then pure false else (enter_epoch e >> pure true)
