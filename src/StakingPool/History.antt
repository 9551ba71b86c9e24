-- ===== src/StakingPool/History.antt =====
-- Every method of staking-pool/src/lib.rs, and every history of calls, against the pool's books.
use contract_new_project_tem.Prelude.{
  ℕ, ◌-◌, length, add-zero, zero-add, Holds_mono, Holds-ok, ◌+◌, ◌<◌, ◌≤◌, ◌≡◌, inl, inr, Bool,
  true, false, Outcome, ok, panic, Holds, settle, Bool-cases, arith, List, [], ◌∷◌, suc, u128_mod,
}
use contract_new_project_tem.Prelude.Map.{sum}
use contract_new_project_tem.Host.{Env}
use contract_new_project_tem.StakingPool.State.{
  StakingContract, RewardFeeFraction, stake_share_price_guarantee_fund, assert_valid,
}
use contract_new_project_tem.StakingPool.Internal.{internal_restake}
use contract_new_project_tem.StakingPool.Methods.{
  Call, pings, deposits, deposits_and_stakes, withdraws_all, stakes_all, unstakes_all, withdraws,
  stakes, unstakes, stake_action_done, pauses, resumes, updates_key, updates_fee, votes, apply, new,
  fresh_pool,
}
use contract_new_project_tem.StakingPool.Solvency.{IsSolvent}
use contract_new_project_tem.StakingPool.Keeps.{
  ping-IsSound, deposit-IsSound, deposit_and_stake-IsSound, withdraw-IsSound, withdraw_all-IsSound,
  stake_some-IsSound, stake_all-IsSound, on_stake_action-IsSound, update_staking_key-IsSound,
  vote-IsSound, pause_staking-IsSound, resume_staking-IsSound, update_fee-IsSound,
  unstake-IsSolvent, unstake_all-IsSolvent,
}
use contract_new_project_tem.StakingPool.Rounds.{
  IsSound, Fits, IsSound-suc, internal_restake-IsSound,
}

-- The calls that take shares away, or mean to.
abbrev pub is_unstake : Call → Bool
is_unstake unstakes_all = true
is_unstake (unstakes _) = true
is_unstake _ = false

-- Every method but the two that unstake, going through under the host's bounds, keeps the accounts'
-- shares and the pool's own at the total, and adds at most one to the roundings `k` that the
-- guarantee fund has to cover.
apply-IsSound :
    (k c : ℕ) (e : Env) (call : Call) (s : StakingContract)
    → k < stake_share_price_guarantee_fund
    → IsSound k c s
    → Fits e s
    → is_unstake call ≡ false
    → Holds (λ r. IsSound (k + 1) c r.1) (apply e call s)
unfolding apply
apply-IsSound k c e pings s few v f _ = ping-IsSound k c few e s v f
apply-IsSound k c e deposits s few v f _ = deposit-IsSound k c few e s v f
apply-IsSound k c e deposits_and_stakes s few v f _ = deposit_and_stake-IsSound k c few e s v f
apply-IsSound k c e withdraws_all s few v f _ = withdraw_all-IsSound k c few e s v f
apply-IsSound k c e stakes_all s few v f _ = stake_all-IsSound k c few e s v f
apply-IsSound k c e unstakes_all s few v f h = cc
apply-IsSound k c e (withdraws n) s few v f _ = withdraw-IsSound k c few e s v f n
apply-IsSound k c e (stakes n) s few v f _ = stake_some-IsSound k c few e s v f n
apply-IsSound k c e (unstakes n) s few v f h = cc
apply-IsSound k c e stake_action_done s few v f _ = on_stake_action-IsSound k c few e s v f
apply-IsSound k c e pauses s few v f _ = pause_staking-IsSound k c few e s v f
apply-IsSound k c e resumes s few v f _ = resume_staking-IsSound k c few e s v f
apply-IsSound k c e (updates_key key) s few v f _ = update_staking_key-IsSound k c few e s v f key
apply-IsSound k c e (updates_fee fee) s few v f _ = update_fee-IsSound k c few e s v f fee
apply-IsSound k c e (votes encode a b) s few v f _ = vote-IsSound k c few e s v f encode a b

-- Every method that goes through, an unstake included, leaves the pool solvent.
pub apply-IsSolvent :
    (k c : ℕ) (e : Env) (call : Call) (s : StakingContract)
    → k < stake_share_price_guarantee_fund
    → IsSound k c s
    → Fits e s
    → Holds (λ r. IsSolvent (k + 1) r.1) (apply e call s)
unfolding apply
apply-IsSolvent k c e call s few v f = elim (Bool-cases (is_unstake call)) [
  | inl yes_it_is ↦ unstakes_case call yes_it_is
  | inr no_it_is ↦
      Holds_mono (apply e call s) (λ r x. x.solvent) (apply-IsSound k c e call s few v f no_it_is)
]
  where
    unstakes_case :
        (d : Call) → is_unstake d ≡ true → Holds (λ r. IsSolvent (k + 1) r.1) (apply e d s)
    unstakes_case unstakes_all _ = unstake_all-IsSolvent k c few e s v f
    unstakes_case (unstakes n) _ = unstake-IsSolvent k c few e s v f n
    unstakes_case _ h = cc

-- Transactions in order.
pub run : StakingContract → List (Env × Call) → StakingContract
run s [] = s
run s ((e, call) ∷ calls) = run (settle s (apply e call s)) calls

-- The host keeps its bounds at each call, and no call unstakes.
abbrev pub IsHistory : StakingContract → List (Env × Call) → Type 0
IsHistory s [] = Unit
IsHistory s ((e, call) ∷ calls) =
    Fits e s × (is_unstake call ≡ false) × IsHistory (settle s (apply e call s)) calls

settle-IsSound :
    (k c : ℕ) (s : StakingContract) (m : Outcome (Unit {0} × StakingContract))
    → IsSound k c s
    → Holds (λ r. IsSound (k + 1) c r.1) m
    → IsSound (k + 1) c (settle s m)
settle-IsSound k c s (ok _) v h = h
settle-IsSound k c s (panic _) v h = IsSound-suc k c s v

run-IsSound :
    (k c : ℕ) (s : StakingContract) (calls : List (Env × Call))
    → k + length calls ≤ stake_share_price_guarantee_fund
    → IsSound k c s
    → IsHistory s calls
    → IsSound (k + length calls) c (run s calls)
unfolding run
run-IsSound k c s [] few v h = rw add-zero v
run-IsSound k c s ((e, call) ∷ calls) few v (f, not_unstake, rest) =
    let next = settle s (apply e call s) in
    let sound =
      settle-IsSound k c s (apply e call s) v
        (apply-IsSound k c e call s (omega arith) v f not_unstake) in
    let eq : k + suc (length calls) ≡ k + 1 + length calls = omega arith in
    rw eq (run-IsSound (k + 1) c next calls (omega arith) sound rest)

-- The state of a new pool, the first stake aside.
abbrev first_pool : Env → ℕ → ℕ → RewardFeeFraction → StakingContract
first_pool e owner key fee =
    let staked = e.account_balance - stake_share_price_guarantee_fund in
    record {
      owner_id = owner;
      stake_public_key = key;
      last_epoch_height = e.epoch_height;
      last_total_balance = e.account_balance;
      total_stake_shares = staked;
      total_staked_balance = staked;
      reward_fee_fraction = fee;
      accounts = [];
      paused = false;
      promises = [];
    }

new_effect :
    (e : Env) (owner key : ℕ) (fee : RewardFeeFraction) {s : StakingContract}
    → new e owner key fee ≡ ok (tt, s)
    → (fee.numerator ≤ fee.denominator)
      × (internal_restake e (first_pool e owner key fee) ≡ ok (tt, s))
unfolding new fresh_pool assert_valid
new_effect e owner key fee h = ground arith

first_pool-IsSound :
    (e : Env) (owner key : ℕ) (fee : RewardFeeFraction)
    → fee.numerator ≤ fee.denominator
    → stake_share_price_guarantee_fund ≤ e.account_balance
    → e.account_balance < u128_mod
    → IsSound 0 (e.account_balance - stake_share_price_guarantee_fund) (first_pool e owner key fee)
unfolding sum
first_pool-IsSound e owner key fee le enough fits = record {
  solvent = record {
    unique = tt;
    backed = omega arith;
    bounded = fits;
    fee = le;
    priced = omega arith;
  };
  conserved = omega arith;
}

-- A new pool whose balance covers the guarantee fund stays solvent and keeps its shares over every
-- history without an unstake of at most as many calls as the fund has units: in particular the
-- accounts' shares and the initial stake make up the total, and every account's unstaked balance and
-- the stake together are covered by the balance.
pub new-run-IsSound :
    (e : Env) (owner key : ℕ) (fee : RewardFeeFraction) (calls : List (Env × Call))
    {s : StakingContract}
    → new e owner key fee ≡ ok (tt, s)
    → stake_share_price_guarantee_fund ≤ e.account_balance
    → e.account_balance < u128_mod
    → length calls ≤ stake_share_price_guarantee_fund
    → IsHistory s calls
    → IsSound (length calls) (e.account_balance - stake_share_price_guarantee_fund) (run s calls)
new-run-IsSound e owner key fee calls {s} made enough fits few h =
    let (le, restaked) = new_effect e owner key fee made in
    let first = first_pool-IsSound e owner key fee le enough fits in
    let own = e.account_balance - stake_share_price_guarantee_fund in
    let start =
      Holds-ok (λ r. IsSound 0 own r.1) restaked
        (internal_restake-IsSound 0 own e (first_pool e owner key fee) first) in
    rw zero-add at (run-IsSound 0 own s calls (rw zero-add few) start h)
