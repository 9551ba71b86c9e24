-- ===== src/StakingPool/Methods.antt =====
-- The public methods of staking-pool/src/lib.rs: users', owner's and the callback.
use contract_new_project_tem.Prelude.{
  ℕ, Bool, true, false, not, ◌&&◌, none, List, [], ◌∷◌, Outcome, ok, bind, ensure, Action, ◌>>=◌,
  ◌>>◌, gets, asks, lift, modify, require, pure, saturating_sub, ltb, ◌==◌, if◌then◌else◌,
}
use contract_new_project_tem.Host.{
  Env, AccountId, PublicKey, PromiseResult, successful, failed, stake, function_call,
}
use contract_new_project_tem.StakingPool.State.{
  StakingContract, RewardFeeFraction, stake_share_price_guarantee_fund, assert_valid,
  staked_amount_from_num_shares_rounded_down, internal_get_account,
}
use contract_new_project_tem.StakingPool.Internal.{
  internal_restake, internal_deposit, internal_withdraw, internal_stake, inner_unstake,
  assert_owner, internal_ping,
}

-- `new`, in two parts: the checks with the state that they let through, and the first stake.
unfoldable pub fresh_pool :
    Env → AccountId → PublicKey → RewardFeeFraction → Outcome StakingContract
fresh_pool e owner_id stake_public_key reward_fee_fraction =
    bind (ensure (not e.state_exists) "Already initialized") λ _.
      bind (assert_valid reward_fee_fraction) λ _.
        bind (ensure (e.is_valid_account_id owner_id) "The owner account ID is invalid") λ _.
          let total_staked_balance =
            saturating_sub e.account_balance stake_share_price_guarantee_fund in
          bind
            (ensure (e.account_locked_balance == 0)
              "The staking pool shouldn't be staking at the initialization")
            λ _. ok (record {
              owner_id = owner_id;
              stake_public_key = stake_public_key;
              last_epoch_height = e.epoch_height;
              last_total_balance = e.account_balance;
              total_stake_shares = total_staked_balance;
              total_staked_balance = total_staked_balance;
              reward_fee_fraction = reward_fee_fraction;
              accounts = [];
              paused = false;
              promises = [];
            })

unfoldable pub new :
    Env → AccountId → PublicKey → RewardFeeFraction → Outcome (Unit {0} × StakingContract)
new e owner_id stake_public_key reward_fee_fraction =
    bind (fresh_pool e owner_id stake_public_key reward_fee_fraction) (internal_restake e)

abbrev pub restake_if : Env → Bool → Action StakingContract (Unit {0})
restake_if e need_to_restake = if need_to_restake then internal_restake e else pure tt

unfoldable pub ping : Env → Action StakingContract (Unit {0})
ping e = do need_to_restake ← internal_ping e; restake_if e need_to_restake

unfoldable pub deposit : Env → Action StakingContract (Unit {0})
deposit e = do
  need_to_restake ← internal_ping e
  amount ← internal_deposit e
  restake_if e need_to_restake

unfoldable pub deposit_and_stake : Env → Action StakingContract (Unit {0})
deposit_and_stake e = do
  need_to_restake ← internal_ping e
  amount ← internal_deposit e
  internal_stake e amount
  internal_restake e

unfoldable pub withdraw_all : Env → Action StakingContract (Unit {0})
withdraw_all e = do
  need_to_restake ← internal_ping e
  account ← gets (internal_get_account e.predecessor_account_id)
  internal_withdraw e account.unstaked
  restake_if e need_to_restake

unfoldable pub withdraw : Env → ℕ → Action StakingContract (Unit {0})
withdraw e amount = do
  need_to_restake ← internal_ping e
  internal_withdraw e amount
  restake_if e need_to_restake

unfoldable pub stake_all : Env → Action StakingContract (Unit {0})
stake_all e = do
  need_to_restake ← internal_ping e
  account ← gets (internal_get_account e.predecessor_account_id)
  internal_stake e account.unstaked
  internal_restake e

unfoldable pub stake_some : Env → ℕ → Action StakingContract (Unit {0})
stake_some e amount = do
  need_to_restake ← internal_ping e
  internal_stake e amount
  internal_restake e

unfoldable pub unstake_all : Env → Action StakingContract (Unit {0})
unstake_all e = do
  need_to_restake ← internal_ping e
  account ← gets (internal_get_account e.predecessor_account_id)
  amount ← asks (staked_amount_from_num_shares_rounded_down account.stake_shares)
  inner_unstake e amount
  internal_restake e

unfoldable pub unstake : Env → ℕ → Action StakingContract (Unit {0})
unstake e amount = do need_to_restake ← internal_ping e; inner_unstake e amount; internal_restake e

-- `env::promise_result(0)` under the check that there is one result.
abbrev pub stake_action_succeeded : List PromiseResult → Outcome Bool
stake_action_succeeded (successful ∷ []) = ok true
stake_action_succeeded (failed ∷ []) = ok false
stake_action_succeeded _ =
    bind (ensure false "Contract expected a result on the callback") λ _. ok false

-- The promise that unstakes everything.
abbrev pub stake_nothing : Env → StakingContract → StakingContract
stake_nothing e s = record s {
  promises =
      record {
        receiver_id = e.current_account_id;
        actions = stake 0 s.stake_public_key ∷ [];
        callback = none;
      }
      ∷ s.promises;
}

unfoldable pub on_stake_action : Env → Action StakingContract (Unit {0})
on_stake_action e = do
  require (e.current_account_id == e.predecessor_account_id) "Can be called only as a callback"
  succeeded ← lift (stake_action_succeeded e.promise_results)
  if not succeeded && ltb 0 e.account_locked_balance then modify (stake_nothing e) else pure tt

unfoldable pub update_staking_key : Env → PublicKey → Action StakingContract (Unit {0})
update_staking_key e stake_public_key = do
  assert_owner e
  need_to_restake ← internal_ping e
  modify (λ s. record s { stake_public_key = stake_public_key })
  internal_restake e

unfoldable pub update_reward_fee_fraction :
    Env → RewardFeeFraction → Action StakingContract (Unit {0})
update_reward_fee_fraction e reward_fee_fraction = do
  assert_owner e
  lift (assert_valid reward_fee_fraction)
  need_to_restake ← internal_ping e
  modify (λ s. record s { reward_fee_fraction = reward_fee_fraction })
  restake_if e need_to_restake

-- The arguments of the call, `is_vote` in JSON, are the caller's encoding of a flag.
unfoldable pub vote : Env → (Bool → ℕ) → AccountId → Bool → Action StakingContract (Unit {0})
vote e encode voting_account_id is_vote = do
  assert_owner e
  require (e.is_valid_account_id voting_account_id) "Invalid voting account ID"
  modify (λ s. record s {
    promises =
        record {
          receiver_id = voting_account_id;
          actions = function_call "vote" (encode is_vote) 0 100_000_000_000_000 ∷ [];
          callback = none;
        }
        ∷ s.promises;
  })

unfoldable pub pause_staking : Env → Action StakingContract (Unit {0})
pause_staking e = do
  assert_owner e
  paused ← gets (λ s. s.paused)
  require (not paused) "The staking is already paused"
  need_to_restake ← internal_ping e
  modify (λ s. record s { paused = true })
  modify (stake_nothing e)

unfoldable pub resume_staking : Env → Action StakingContract (Unit {0})
resume_staking e = do
  assert_owner e
  paused ← gets (λ s. s.paused)
  require paused "The staking is not paused"
  need_to_restake ← internal_ping e
  modify (λ s. record s { paused = false })
  internal_restake e

-- The methods that change the state, with their arguments.
pub data Call : Type 0 where
  pings deposits deposits_and_stakes withdraws_all stakes_all unstakes_all : Call
  withdraws stakes unstakes : ℕ → Call
  stake_action_done pauses resumes : Call
  updates_key : PublicKey → Call
  updates_fee : RewardFeeFraction → Call
  votes : (Bool → ℕ) → AccountId → Bool → Call

unfoldable pub apply : Env → Call → Action StakingContract (Unit {0})
apply e pings = ping e
apply e deposits = deposit e
apply e deposits_and_stakes = deposit_and_stake e
apply e withdraws_all = withdraw_all e
apply e stakes_all = stake_all e
apply e unstakes_all = unstake_all e
apply e (withdraws n) = withdraw e n
apply e (stakes n) = stake_some e n
apply e (unstakes n) = unstake e n
apply e stake_action_done = on_stake_action e
apply e pauses = pause_staking e
apply e resumes = resume_staking e
apply e (updates_key k) = update_staking_key e k
apply e (updates_fee f) = update_reward_fee_fraction e f
apply e (votes encode a b) = vote e encode a b
