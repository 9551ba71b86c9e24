-- ===== src/StakingPool/State.antt =====
-- The state of staking-pool/src/lib.rs, and the helpers of internal.rs that only read it or save
-- one account: share conversions, `internal_get_account`, `internal_save_account`.
use contract_new_project_tem.Prelude.{
  ℕ, ◌+◌, ◌-◌, ◌*◌, ◌/◌, Bool, not, ◌||◌, Option, none, some, List, Outcome, bind, ensure, as_u128,
  ltb, leb, ◌==◌, if◌then◌else◌,
}
use contract_new_project_tem.Prelude.Map.{Map, lookup, insert, remove}
use contract_new_project_tem.Host.{AccountId, PublicKey, Promise}

pub record Account : Type 0 where
  pub unstaked : ℕ
  pub stake_shares : ℕ
  pub unstaked_available_epoch_height : ℕ

abbrev pub default_account : Account
default_account = record { unstaked = 0; stake_shares = 0; unstaked_available_epoch_height = 0 }

pub record RewardFeeFraction : Type 0 where
  pub numerator : ℕ
  pub denominator : ℕ

unfoldable pub assert_valid : RewardFeeFraction → Outcome (Unit {0})
assert_valid f =
    bind (ensure (not (f.denominator == 0)) "Denominator must be a positive number")
      λ _. ensure (leb f.numerator f.denominator) "The reward fee must be less or equal to 1"

-- The products of this file are 256 bits wide, so they do not overflow.
unfoldable pub multiply : RewardFeeFraction → ℕ → Outcome ℕ
multiply f value =
    bind (ensure (not (f.denominator == 0)) "division by zero")
      λ _. as_u128 (f.numerator * value / f.denominator)

-- The calls that the pool leaves to be made on itself.
pub data Callback : Type 0 where
  on_stake_action : Callback

-- `promises` are those that the methods have created so far, the newest first. It is no field of
-- the source: it stands for what the host is told.
pub record StakingContract : Type 0 where
  pub owner_id : AccountId
  pub stake_public_key : PublicKey
  pub last_epoch_height : ℕ
  pub last_total_balance : ℕ
  pub total_stake_shares : ℕ
  pub total_staked_balance : ℕ
  pub reward_fee_fraction : RewardFeeFraction
  pub accounts : Map Account
  pub paused : Bool
  pub promises : List (Promise Callback)

abbrev pub stake_share_price_guarantee_fund : ℕ
stake_share_price_guarantee_fund = 1_000_000_000_000

abbrev pub num_epochs_to_unlock : ℕ
num_epochs_to_unlock = 4

unfoldable pub num_shares_from_staked_amount_rounded_down : ℕ → StakingContract → Outcome ℕ
num_shares_from_staked_amount_rounded_down amount s =
    bind (ensure (ltb 0 s.total_staked_balance) "The total staked balance can't be 0")
      λ _. as_u128 (s.total_stake_shares * amount / s.total_staked_balance)

unfoldable pub num_shares_from_staked_amount_rounded_up : ℕ → StakingContract → Outcome ℕ
num_shares_from_staked_amount_rounded_up amount s =
    bind (ensure (ltb 0 s.total_staked_balance) "The total staked balance can't be 0") λ _.
      as_u128
        ((s.total_stake_shares * amount + (s.total_staked_balance - 1)) / s.total_staked_balance)

unfoldable pub staked_amount_from_num_shares_rounded_down : ℕ → StakingContract → Outcome ℕ
staked_amount_from_num_shares_rounded_down num_shares s =
    bind (ensure (ltb 0 s.total_stake_shares) "The total number of stake shares can't be 0")
      λ _. as_u128 (s.total_staked_balance * num_shares / s.total_stake_shares)

unfoldable pub staked_amount_from_num_shares_rounded_up : ℕ → StakingContract → Outcome ℕ
staked_amount_from_num_shares_rounded_up num_shares s =
    bind (ensure (ltb 0 s.total_stake_shares) "The total number of stake shares can't be 0") λ _.
      as_u128
        ((s.total_staked_balance * num_shares + (s.total_stake_shares - 1)) / s.total_stake_shares)

abbrev pub account_or_default : Option Account → Account
account_or_default none = default_account
account_or_default (some a) = a

unfoldable pub account_in : AccountId → Map Account → Account
account_in account_id accounts = account_or_default (lookup account_id accounts)

abbrev pub internal_get_account : AccountId → StakingContract → Account
internal_get_account account_id s = account_in account_id s.accounts

-- An account without balances is deleted.
unfoldable pub saved_accounts : AccountId → Account → Map Account → Map Account
saved_accounts account_id account accounts =
    if ltb 0 account.unstaked || ltb 0 account.stake_shares
    then insert account_id account accounts
    else remove account_id accounts

abbrev pub internal_save_account : AccountId → Account → StakingContract → StakingContract
internal_save_account account_id account s = record s {
  accounts = saved_accounts account_id account s.accounts;
}
