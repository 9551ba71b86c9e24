-- ===== src/StakingPool/Views.antt =====
-- The view methods of staking-pool/src/lib.rs.
use contract_new_project_tem.Prelude.{
  ℕ, ◌-◌, Bool, List, [], ◌∷◌, Outcome, ok, bind, checked_add, u64_mod, u128_mod, leb, length, take,
  drop,
}
use contract_new_project_tem.Prelude.Map.{Map}
use contract_new_project_tem.Host.{Env, AccountId, PublicKey}
use contract_new_project_tem.StakingPool.State.{
  Account, StakingContract, RewardFeeFraction, staked_amount_from_num_shares_rounded_down,
  internal_get_account,
}
use Prim.Native.Nat.{min}

pub record HumanReadableAccount : Type 0 where
  pub account_id : AccountId
  pub unstaked_balance : ℕ
  pub staked_balance : ℕ
  pub can_withdraw : Bool

unfoldable pub get_account : Env → AccountId → StakingContract → Outcome HumanReadableAccount
get_account e account_id s =
    let account = internal_get_account account_id s in
    bind (staked_amount_from_num_shares_rounded_down account.stake_shares s) λ staked. ok (record {
      account_id = account_id;
      unstaked_balance = account.unstaked;
      staked_balance = staked;
      can_withdraw = leb account.unstaked_available_epoch_height e.epoch_height;
    })

unfoldable pub get_account_unstaked_balance : Env → AccountId → StakingContract → Outcome ℕ
get_account_unstaked_balance e a s = bind (get_account e a s) λ account. ok account.unstaked_balance

unfoldable pub get_account_staked_balance : Env → AccountId → StakingContract → Outcome ℕ
get_account_staked_balance e a s = bind (get_account e a s) λ account. ok account.staked_balance

unfoldable pub get_account_total_balance : Env → AccountId → StakingContract → Outcome ℕ
get_account_total_balance e a s =
    bind (get_account e a s)
      λ account. checked_add u128_mod account.unstaked_balance account.staked_balance

unfoldable pub is_account_unstaked_balance_available :
    Env → AccountId → StakingContract → Outcome Bool
is_account_unstaked_balance_available e a s =
    bind (get_account e a s) λ account. ok account.can_withdraw

unfoldable pub get_total_staked_balance : StakingContract → ℕ
get_total_staked_balance s = s.total_staked_balance

unfoldable pub get_owner_id : StakingContract → AccountId
get_owner_id s = s.owner_id

unfoldable pub get_reward_fee_fraction : StakingContract → RewardFeeFraction
get_reward_fee_fraction s = s.reward_fee_fraction

unfoldable pub get_staking_key : StakingContract → PublicKey
get_staking_key s = s.stake_public_key

unfoldable pub is_staking_paused : StakingContract → Bool
is_staking_paused s = s.paused

unfoldable pub get_number_of_accounts : StakingContract → ℕ
get_number_of_accounts s = length s.accounts

-- The accounts of a range of the map's entries, in the map's order.
unfoldable pub get_each : Env → StakingContract → Map Account → Outcome (List HumanReadableAccount)
get_each e s [] = ok []
get_each e s ((account_id, _) ∷ entries) =
    bind (get_account e account_id s)
      λ account. bind (get_each e s entries) λ accounts. ok (account ∷ accounts)

unfoldable pub get_accounts : Env → ℕ → ℕ → StakingContract → Outcome (List HumanReadableAccount)
get_accounts e from_index limit s = bind (checked_add u64_mod from_index limit) λ end.
    get_each e s (take (min end (length s.accounts) - from_index) (drop from_index s.accounts))
