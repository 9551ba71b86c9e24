-- ===== src/StakingPool/Balance.antt =====
-- The sums over the accounts of staking-pool/src under `internal_save_account`.
use contract_new_project_tem.Prelude.{ℕ, ◌+◌, ◌≡◌, ◌≤◌, ◌<◌, ◌≢◌, arith}
use contract_new_project_tem.Prelude.Map.{
  Map, lookup-insert, lookup-remove, IsMap, insert-IsMap, remove-IsMap, sum, sum-insert, sum-remove,
  at_key-le-sum,
}
use contract_new_project_tem.Host.{AccountId}
use contract_new_project_tem.StakingPool.State.{Account, account_in, saved_accounts}

abbrev pub unstaked_in : Map Account → ℕ
unstaked_in = sum (λ a. a.unstaked)

abbrev pub shares_in : Map Account → ℕ
shares_in = sum (λ a. a.stake_shares)

module _ (k : AccountId) (a : Account) (accounts : Map Account) (m : IsMap accounts) where
  pub save-IsMap : IsMap (saved_accounts k a accounts)
  unfolding saved_accounts
  save-IsMap = ground (arith, insert-IsMap k a accounts m, remove-IsMap k accounts m)

  -- Saving moves a sum by the difference at that account, also where the account is deleted.
  pub unstaked-save :
      unstaked_in (saved_accounts k a accounts) + (account_in k accounts).unstaked
      ≡ unstaked_in accounts + a.unstaked
  unfolding saved_accounts account_in
  unstaked-save =
      ground (
        arith,
        sum-insert (λ x. x.unstaked) k a accounts,
        sum-remove (λ x. x.unstaked) k accounts m,
      )

  pub shares-save :
      shares_in (saved_accounts k a accounts) + (account_in k accounts).stake_shares
      ≡ shares_in accounts + a.stake_shares
  unfolding saved_accounts account_in
  shares-save = ground (
    arith,
    sum-insert (λ x. x.stake_shares) k a accounts,
    sum-remove (λ x. x.stake_shares) k accounts m,
  )

-- The balances that an account has after a save: those that were saved.
pub account-save_self :
    (k : AccountId) (a : Account) (accounts : Map Account)
    → ((account_in k (saved_accounts k a accounts)).unstaked ≡ a.unstaked)
      × ((account_in k (saved_accounts k a accounts)).stake_shares ≡ a.stake_shares)
unfolding saved_accounts account_in
account-save_self k a accounts =
    ground (arith, lookup-insert k k a accounts, lookup-remove k k accounts)

pub account-save_ne :
    (j k : AccountId) (a : Account) (accounts : Map Account)
    → j ≢ k
    → account_in j (saved_accounts k a accounts) ≡ account_in j accounts
unfolding saved_accounts account_in
account-save_ne j k a accounts ne =
    ground (arith, lookup-insert j k a accounts, lookup-remove j k accounts)

pub unstaked_of-le :
    (k : AccountId) (accounts : Map Account)
    → (account_in k accounts).unstaked ≤ unstaked_in accounts
unfolding account_in
unstaked_of-le k accounts = ground (arith, at_key-le-sum (λ a. a.unstaked) k accounts)

pub shares_of-le :
    (k : AccountId) (accounts : Map Account)
    → (account_in k accounts).stake_shares ≤ shares_in accounts
unfolding account_in
shares_of-le k accounts = ground (arith, at_key-le-sum (λ a. a.stake_shares) k accounts)

-- An account with shares is stored as it is.
pub account-save_kept :
    (k : AccountId) (a : Account) (accounts : Map Account)
    → 0 < a.stake_shares
    → account_in k (saved_accounts k a accounts) ≡ a
unfolding saved_accounts account_in
account-save_kept k a accounts pos = ground (arith, lookup-insert k k a accounts)
