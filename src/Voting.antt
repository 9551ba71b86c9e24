-- ===== src/Voting.antt =====
-- voting/src/lib.rs: the stake-weighted poll that enables transfers.
pub mod Tally
pub mod Poll
mod Examples
use contract_new_project_tem.Prelude.{
  ℕ, ◌+◌, ◌-◌, ◌*◌, ◌/◌, Bool, true, false, not, Option, none, some, Outcome, ok, Action, ◌>>=◌,
  ◌>>◌, gets, modify, require, lift, pure, bind, ensure, ◌==◌, ltb, leb, if◌then◌else◌, List, [],
  ◌∷◌, checked_add, checked_sub, checked_mul, settle, u128_mod, ◌&&◌,
}
use contract_new_project_tem.Prelude.Map.{Map, lookup, insert, remove}
use contract_new_project_tem.Host.{Env, AccountId}

pub record VotingContract : Type 0 where
  pub votes : Map ℕ
  pub total_voted_stake : ℕ
  pub result : Option ℕ
  pub last_epoch_height : ℕ

unfoldable pub new : Env → Outcome VotingContract
new e =
    bind (ensure (not e.state_exists) "The contract is already initialized")
      λ _. ok (record { votes = []; total_voted_stake = 0; result = none; last_epoch_height = 0 })

abbrev pub is_none : Option ℕ → Bool
is_none none = true
is_none (some _) = false

unfoldable pub check_result : Env → Action VotingContract (Unit {0})
check_result e = do
  open_poll ← gets (λ s. is_none s.result)
  require open_poll "check result is called after result is already set"
  let total_stake = e.validator_total_stake
  doubled ← lift (checked_mul u128_mod 2 total_stake)
  voted ← gets (λ s. s.total_voted_stake)
  if ltb (doubled / 3) voted
      then modify (λ s. record s { result = some e.block_timestamp })
      else pure tt

-- A validator that still has stake keeps its vote.
unfoldable pub keep : Env → AccountId → Map ℕ → Map ℕ
keep e account_id votes =
    let account_current_stake = e.validator_stake account_id in
    if ltb 0 account_current_stake then insert account_id account_current_stake votes else votes

-- The loop of `ping` over the old votes, from the new votes and their total so far.
unfoldable pub refresh : Env → Map ℕ → Map ℕ → ℕ → Outcome (Map ℕ × ℕ)
refresh e [] votes total = ok (votes, total)
refresh e ((account_id, _) ∷ rest) votes total =
    bind (checked_add u128_mod total (e.validator_stake account_id))
      λ sum. refresh e rest (keep e account_id votes) sum

-- What `ping` does in a new epoch.
unfoldable pub update : Env → Action VotingContract (Unit {0})
update e = do
  old ← gets (λ s. s.votes)
  modify (λ s. record s { votes = []; total_voted_stake = 0 })
  (votes, total) ← lift (refresh e old [] 0)
  modify (λ s. record s { votes = votes; total_voted_stake = total })
  check_result e
  modify (λ s. record s { last_epoch_height = e.epoch_height })

unfoldable pub ping : Env → Action VotingContract (Unit {0})
ping e = do
  open_poll ← gets (λ s. is_none s.result)
  require open_poll "Voting has already ended"
  last ← gets (λ s. s.last_epoch_height)
  if e.epoch_height == last then pure tt else update e

-- The stake that a vote counts for.
abbrev pub stake_of : Env → Bool → Action VotingContract ℕ
stake_of e false = pure 0
stake_of e true = do
  require (ltb 0 (e.validator_stake e.predecessor_account_id)) "is not a validator"
  pure (e.validator_stake e.predecessor_account_id)

abbrev pub unwrap_or_default : Option ℕ → ℕ
unwrap_or_default none = 0
unwrap_or_default (some v) = v

-- The rest of `vote`, behind the `ping` and the early return.
unfoldable pub cast : Env → Bool → Action VotingContract (Unit {0})
cast e is_vote = do
  let account_id = e.predecessor_account_id
  account_stake ← stake_of e is_vote
  voted_stake ← gets (λ s. unwrap_or_default (lookup account_id s.votes))
  modify (λ s. record s { votes = remove account_id s.votes })
  total ← gets (λ s. s.total_voted_stake)
  require (leb voted_stake total) "invariant: voted stake is more than total voted stake"
  raised ← lift (checked_add u128_mod total account_stake)
  lowered ← lift (checked_sub raised voted_stake)
  modify (λ s. record s { total_voted_stake = lowered })
  if ltb 0 account_stake
      then (modify (λ s. record s { votes = insert account_id account_stake s.votes })
          >> check_result e)
      else pure tt

unfoldable pub vote : Env → Bool → Action VotingContract (Unit {0})
vote e is_vote = do
  ping e
  open_poll ← gets (λ s. is_none s.result)
  if open_poll then cast e is_vote else pure tt

unfoldable pub get_result : VotingContract → Option ℕ
get_result s = s.result

unfoldable pub get_total_voted_stake : Env → VotingContract → ℕ × ℕ
get_total_voted_stake e s = (s.total_voted_stake, e.validator_total_stake)

unfoldable pub get_votes : VotingContract → Map ℕ
get_votes s = s.votes

-- The methods that change the state.
pub data Call : Type 0 where
  pings : Call
  votes_for : Bool → Call

unfoldable pub apply : Env → Call → Action VotingContract (Unit {0})
apply e pings = ping e
apply e (votes_for is_vote) = vote e is_vote

unfoldable pub run : VotingContract → List (Env × Call) → VotingContract
run s [] = s
run s ((e, c) ∷ calls) = run (settle s (apply e c s)) calls
