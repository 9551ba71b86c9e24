-- ===== src/StakingPool/Delay.antt =====
-- Withdrawals of staking-pool/src: what they pay, and how long an unstake delays them.
use contract_new_project_tem.Prelude.{
  ℕ, ◌+◌, ◌-◌, ◌<◌, ◌≡◌, ◌≢◌, refl, ap, Bool, ◌∙◌, ok, IsPanic, ◌&&◌, none, [], ◌∷◌, arith, ltb,
  leb, if◌then◌else◌,
}
use contract_new_project_tem.Host.{Env, AccountId, transfer}
use contract_new_project_tem.StakingPool.State.{
  Account, StakingContract, num_epochs_to_unlock, internal_get_account,
}
use contract_new_project_tem.StakingPool.Internal.{add128, inner_unstake, internal_withdraw}
use contract_new_project_tem.StakingPool.Balance.{
  account-save_self, account-save_ne, account-save_kept,
}
use contract_new_project_tem.StakingPool.Effects.{
  ceil_shares, ceil_staked, after_withdraw, inner_unstake_effect,
}

-- The three conditions of a withdrawal.
abbrev pub may_withdraw : Env → ℕ → StakingContract → Bool
may_withdraw e amount s =
    let account = internal_get_account e.predecessor_account_id s in
    ltb 0 amount
    && leb amount account.unstaked
    && leb account.unstaked_available_epoch_height e.epoch_height

-- A withdrawal goes through exactly when the amount is positive, unstaked and past its delay. Then
-- it takes the amount from the caller's account, leaves its shares and every other account alone,
-- lowers the recorded balance by the amount and sends it to the caller, and no more.
pub internal_withdraw_exact :
    (e : Env) (amount : ℕ) (s : StakingContract) (j : AccountId)
    → j ≢ e.predecessor_account_id
    → let a = e.predecessor_account_id in
      let t = after_withdraw a amount s in
      (if may_withdraw e amount s
        then internal_withdraw e amount s ≡ ok (tt, t)
        else IsPanic (internal_withdraw e amount s))
      × ((internal_get_account a t).unstaked ≡ (internal_get_account a s).unstaked - amount)
      × ((internal_get_account a t).stake_shares ≡ (internal_get_account a s).stake_shares)
      × (internal_get_account j t ≡ internal_get_account j s)
      × (t.last_total_balance ≡ s.last_total_balance - amount)
      × (t.promises
          ≡ record { receiver_id = a; actions = transfer amount ∷ []; callback = none }
            ∷ s.promises)
unfolding internal_withdraw
internal_withdraw_exact e amount s j ne =
    let a = e.predecessor_account_id in
    let account = internal_get_account a s in
    let saved : Account = record account { unstaked = account.unstaked - amount } in
    let self = account-save_self a saved s.accounts in
    (ground arith, self.0, self.1, account-save_ne j a saved s.accounts ne, refl, refl)

add128-pos : (a b : ℕ) → 0 < b → 0 < add128 a b
add128-pos a b h = ground arith

-- After an unstake the account cannot withdraw anything before the fourth epoch from then, whatever
-- the rest of the chain does in between, as long as its entry stays as the unstake left it.
pub unstake_delays :
    (e later : Env) (amount withdrawal : ℕ) (s u : StakingContract) {t : StakingContract}
    → inner_unstake e amount s ≡ ok (tt, t)
    → internal_get_account e.predecessor_account_id u
      ≡ internal_get_account e.predecessor_account_id t
    → later.predecessor_account_id ≡ e.predecessor_account_id
    → later.epoch_height < e.epoch_height + num_epochs_to_unlock
    → IsPanic (internal_withdraw later withdrawal u)
unfolding internal_withdraw
unstake_delays e later amount withdrawal s u {t} h untouched caller early =
    let a = e.predecessor_account_id in
    let n = ceil_shares amount s in
    let account = internal_get_account a s in
    let (pos, _, _, _, same) = inner_unstake_effect e amount s h in
    let saved : Account = record {
      unstaked = add128 account.unstaked (ceil_staked n s);
      stake_shares = add128 account.stake_shares n;
      unstaked_available_epoch_height = e.epoch_height + num_epochs_to_unlock;
    } in
    let kept = account-save_kept a saved s.accounts (add128-pos account.stake_shares n pos) in
    let entry : internal_get_account a u ≡ saved =
      untouched ∙ (ap (internal_get_account a) same ∙ kept) in
    let delayed = ap (λ (x : Account). x.unstaked_available_epoch_height) entry in
    rw caller (ground arith)
