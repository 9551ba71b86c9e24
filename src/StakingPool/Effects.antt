-- ===== src/StakingPool/Effects.antt =====
-- What a call of internal.rs that goes through has checked, and the state that it leaves.
use contract_new_project_tem.Prelude.{
  ℕ, ◌+◌, ◌-◌, ◌*◌, ◌/◌, ◌<◌, ◌≤◌, ◌≡◌, refl, ◌≢◌, ◌⊎◌, inl, inr, Bool, true, false, none, [], ◌∷◌,
  ok, Outcome-cases, Bool-cases, arith, ltb, if◌then◌else◌,
}
use contract_new_project_tem.Host.{Env, AccountId, transfer}
use contract_new_project_tem.StakingPool.State.{
  StakingContract, num_epochs_to_unlock, multiply, num_shares_from_staked_amount_rounded_down,
  num_shares_from_staked_amount_rounded_up, staked_amount_from_num_shares_rounded_down,
  staked_amount_from_num_shares_rounded_up, internal_get_account, internal_save_account,
}
use contract_new_project_tem.StakingPool.Internal.{
  add128, internal_stake, inner_unstake, internal_withdraw, internal_deposit, buy_owner_shares,
  distribute_reward, enter_epoch, internal_ping,
}

abbrev pub floor_shares : ℕ → StakingContract → ℕ
floor_shares amount s = s.total_stake_shares * amount / s.total_staked_balance

abbrev pub ceil_shares : ℕ → StakingContract → ℕ
ceil_shares amount s =
    (s.total_stake_shares * amount + (s.total_staked_balance - 1)) / s.total_staked_balance

abbrev pub floor_staked : ℕ → StakingContract → ℕ
floor_staked num_shares s = s.total_staked_balance * num_shares / s.total_stake_shares

abbrev pub ceil_staked : ℕ → StakingContract → ℕ
ceil_staked num_shares s =
    (s.total_staked_balance * num_shares + (s.total_stake_shares - 1)) / s.total_stake_shares

-- The state after `n` shares were bought.
abbrev pub after_stake : AccountId → ℕ → StakingContract → StakingContract
after_stake a n s =
    let account = internal_get_account a s in
    let saved =
      internal_save_account a
        (record account {
          unstaked = account.unstaked - floor_staked n s;
          stake_shares = add128 account.stake_shares n;
        })
        s in
    record saved {
      total_staked_balance = add128 s.total_staked_balance (ceil_staked n s);
      total_stake_shares = add128 s.total_stake_shares n;
    }

pub internal_stake_effect :
    (e : Env) (amount : ℕ) (s : StakingContract) {t : StakingContract}
    → internal_stake e amount s ≡ ok (tt, t)
    → let n = floor_shares amount s in
      (0 < n)
      × (0 < s.total_staked_balance)
      × (0 < s.total_stake_shares)
      × (floor_staked n s ≤ (internal_get_account e.predecessor_account_id s).unstaked)
      × (t ≡ after_stake e.predecessor_account_id n s)
unfolding internal_stake num_shares_from_staked_amount_rounded_down
    staked_amount_from_num_shares_rounded_up staked_amount_from_num_shares_rounded_down
internal_stake_effect e amount s h = ground arith

-- The state after an unstake that takes `n` shares. They are added to the account, as in the source.
abbrev pub after_unstake : Env → ℕ → StakingContract → StakingContract
after_unstake e n s =
    let account = internal_get_account e.predecessor_account_id s in
    let saved =
      internal_save_account e.predecessor_account_id
        (record {
          unstaked = add128 account.unstaked (ceil_staked n s);
          stake_shares = add128 account.stake_shares n;
          unstaked_available_epoch_height = e.epoch_height + num_epochs_to_unlock;
        })
        s in
    record saved {
      total_staked_balance = s.total_staked_balance - floor_staked n s;
      total_stake_shares = s.total_stake_shares - n;
    }

pub inner_unstake_effect :
    (e : Env) (amount : ℕ) (s : StakingContract) {t : StakingContract}
    → inner_unstake e amount s ≡ ok (tt, t)
    → let n = ceil_shares amount s in
      (0 < n)
      × (0 < s.total_staked_balance)
      × (0 < s.total_stake_shares)
      × (n ≤ (internal_get_account e.predecessor_account_id s).stake_shares)
      × (t ≡ after_unstake e n s)
unfolding inner_unstake num_shares_from_staked_amount_rounded_up
    staked_amount_from_num_shares_rounded_up staked_amount_from_num_shares_rounded_down
inner_unstake_effect e amount s h = ground arith

abbrev pub after_withdraw : AccountId → ℕ → StakingContract → StakingContract
after_withdraw a amount s =
    let account = internal_get_account a s in
    let saved =
      internal_save_account a (record account { unstaked = account.unstaked - amount }) s in
    record saved {
      promises =
          record { receiver_id = a; actions = transfer amount ∷ []; callback = none } ∷ s.promises;
      last_total_balance = s.last_total_balance - amount;
    }

pub internal_withdraw_effect :
    (e : Env) (amount : ℕ) (s : StakingContract) {t : StakingContract}
    → internal_withdraw e amount s ≡ ok (tt, t)
    → let account = internal_get_account e.predecessor_account_id s in
      (0 < amount)
      × (amount ≤ account.unstaked)
      × (account.unstaked_available_epoch_height ≤ e.epoch_height)
      × (t ≡ after_withdraw e.predecessor_account_id amount s)
unfolding internal_withdraw
internal_withdraw_effect e amount s h = ground arith

abbrev pub after_deposit : Env → StakingContract → StakingContract
after_deposit e s =
    let account = internal_get_account e.predecessor_account_id s in
    let saved =
      internal_save_account e.predecessor_account_id
        (record account { unstaked = add128 account.unstaked e.attached_deposit }) s in
    record saved { last_total_balance = add128 s.last_total_balance e.attached_deposit }

pub internal_deposit_effect :
    (e : Env) (s : StakingContract)
    → internal_deposit e s ≡ ok (e.attached_deposit, after_deposit e s)
unfolding internal_deposit
internal_deposit_effect e s = refl

abbrev pub fee_of : ℕ → StakingContract → ℕ
fee_of reward s = s.reward_fee_fraction.numerator * reward / s.reward_fee_fraction.denominator

-- The state after the owner's fee has bought `n` shares and the reward was added to the stake.
unfoldable pub after_reward : ℕ → StakingContract → StakingContract
after_reward reward s =
    let fee = fee_of reward s in
    let staked = add128 s.total_staked_balance (reward - fee) in
    let n = s.total_stake_shares * fee / staked in
    let account = internal_get_account s.owner_id s in
    let saved =
      internal_save_account s.owner_id
        (record account { stake_shares = add128 account.stake_shares n }) s in
    if ltb 0 n
    then record saved {
      total_staked_balance = add128 staked fee;
      total_stake_shares = add128 s.total_stake_shares n;
    }
    else record s { total_staked_balance = add128 staked fee }

pub after_reward_cases :
    (P : StakingContract → Type 0) (reward : ℕ) (s : StakingContract)
    → let fee = fee_of reward s in
      let staked = add128 s.total_staked_balance (reward - fee) in
      let n = s.total_stake_shares * fee / staked in
      let account = internal_get_account s.owner_id s in
      let saved =
        internal_save_account s.owner_id
          (record account { stake_shares = add128 account.stake_shares n })
          s in
      P (record saved {
        total_staked_balance = add128 staked fee;
        total_stake_shares = add128 s.total_stake_shares n;
      })
      → P (record s {
        total_staked_balance =
            add128 (add128 s.total_staked_balance (reward - fee_of reward s)) (fee_of reward s);
      })
      → P (after_reward reward s)
unfolding after_reward
after_reward_cases P reward s bought kept =
    elim (Bool-cases (
      ltb 0 (
        s.total_stake_shares
        * fee_of reward s
        / add128 s.total_staked_balance (reward - fee_of reward s)))) [
          | inl e ↦ rw e bought
          | inr e ↦ rw e kept
        ]

pub distribute_reward_effect :
    (reward : ℕ) (s : StakingContract) {t : StakingContract}
    → distribute_reward reward s ≡ ok (tt, t)
    → (0 < s.reward_fee_fraction.denominator)
      × (0 < add128 s.total_staked_balance (reward - fee_of reward s))
      × (t ≡ after_reward reward s)
unfolding distribute_reward buy_owner_shares multiply num_shares_from_staked_amount_rounded_down
    after_reward
distribute_reward_effect reward s h = ground arith

abbrev pub total_balance : Env → ℕ
total_balance e = add128 e.account_locked_balance e.account_balance - e.attached_deposit

-- The state after a `ping` in a new epoch: the reward is what the balance grew by.
unfoldable pub after_epoch : Env → StakingContract → StakingContract
after_epoch e s =
    let reward = total_balance e - s.last_total_balance in
    let begun = record s { last_epoch_height = e.epoch_height } in
    if ltb 0 reward
    then record (after_reward reward begun) { last_total_balance = total_balance e }
    else record begun { last_total_balance = total_balance e }

-- What a new epoch has checked.
abbrev pub IsNewEpoch : Env → StakingContract → Type 0
IsNewEpoch e s =
    let reward = total_balance e - s.last_total_balance in
    (s.last_total_balance ≤ total_balance e)
    × ((reward ≡ 0)
        ⊎ ((0 < s.reward_fee_fraction.denominator)
            × (0 < add128 s.total_staked_balance (reward - fee_of reward s))))

enter_epoch_effect :
    (e : Env) (s : StakingContract) {t : StakingContract}
    → enter_epoch e s ≡ ok (tt, t)
    → IsNewEpoch e s × (t ≡ after_epoch e s)
unfolding enter_epoch after_epoch
enter_epoch_effect e s h =
    let reward = total_balance e - s.last_total_balance in
    let begun = record s { last_epoch_height = e.epoch_height } in
    elim (Outcome-cases (distribute_reward reward begun)) [
      | inl ((_, u), eq) ↦
          let (den, staked, same) = distribute_reward_effect reward begun eq in ground arith
      | inr (m, eq) ↦ ground arith
    ]

-- The two ways in which `internal_ping` can return.
abbrev pub PingEffect : Env → StakingContract → Bool → StakingContract → Type 0
PingEffect e s b t =
    ((s.last_epoch_height ≡ e.epoch_height) × (b ≡ false) × (t ≡ s))
    ⊎ ((s.last_epoch_height ≢ e.epoch_height) × (b ≡ true) × IsNewEpoch e s × (t ≡ after_epoch e s))

pub internal_ping_effect :
    (e : Env) (s : StakingContract) {b : Bool} {t : StakingContract}
    → internal_ping e s ≡ ok (b, t)
    → PingEffect e s b t
unfolding internal_ping
internal_ping_effect e s h = elim (Outcome-cases (enter_epoch e s)) [
  | inl ((_, u), eq) ↦ let d = enter_epoch_effect e s eq in ground arith
  | inr (m, eq) ↦ ground arith
]
