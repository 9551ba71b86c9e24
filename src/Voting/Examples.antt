-- ===== src/Voting/Examples.antt =====
-- Runs of voting/src/lib.rs.
use contract_new_project_tem.Prelude.{
  ◌≡◌, refl, true, false, none, some, [], ◌∷◌, List, Holds, Succeeds, arith,
}
use contract_new_project_tem.Prelude.Map.{lookup, insert, remove, sum}
use contract_new_project_tem.Host.{Env}
use contract_new_project_tem.Samples.{call_by}
use contract_new_project_tem.Voting.{
  VotingContract, Call, votes_for, new, ping, update, refresh, keep, cast, check_result, vote,
  apply, run,
}
use contract_new_project_tem.Prelude.{IsPanic}
use contract_new_project_tem.Voting.Tally.{IsTallied, run-new-IsTallied, vote_total}
use contract_new_project_tem.Voting.Poll.{EndsBy, apply-EndsBy, run_ended}

abbrev fresh : VotingContract
fresh = record { votes = []; total_voted_stake = 0; result = none; last_epoch_height = 0 }

-- Account 1 has voted in epoch 3.
abbrev one_vote : VotingContract
one_vote = record {
  votes = (1, 10) ∷ [];
  total_voted_stake = 10;
  result = none;
  last_epoch_height = 3;
}

one_vote-IsTallied : IsTallied one_vote
unfolding lookup sum
one_vote-IsTallied = record { unique = (refl, tt); total = refl }

abbrev ballot : List (Env × Call)
ballot =
    (call_by 1, votes_for true)
    ∷ (call_by 2, votes_for true)
    ∷ (call_by 2, votes_for false)
    ∷ (call_by 3, votes_for true)
    ∷ (call_by 2, votes_for true)
    ∷ (call_by 4, votes_for true)
    ∷ []

-- The poll ends with the third vote, and the call behind it changes nothing.
ballot_ends : run fresh ballot ≡ record {
  votes = (1, 10) ∷ (3, 10) ∷ (2, 10) ∷ [];
  total_voted_stake = 30;
  result = some 500;
  last_epoch_height = 3;
}
unfolding run apply vote ping update refresh keep cast check_result lookup insert remove
ballot_ends = refl

run-new-IsTallied_example : IsTallied (run fresh ballot)
unfolding new
run-new-IsTallied_example = run-new-IsTallied (call_by 1) ballot

-- Account 1 withdraws in a new epoch.
abbrev next_epoch : Env
next_epoch = record (call_by 1) { epoch_height = 4 }

vote_total_example :
    Succeeds (vote next_epoch false one_vote)
    × Holds (λ r. lookup 1 r.1.votes ≡ none) (vote next_epoch false one_vote)
unfolding ping update refresh keep check_result insert
vote_total_example =
    vote_total next_epoch false one_vote (record one_vote { last_epoch_height = 4 }) 1
      one_vote-IsTallied refl refl (λ h. absurd (false_is h)) (omega arith) (omega arith)
  where
    false_is : false ≡ true → ⊥
    false_is h = cc

apply-EndsBy_example :
    Holds (λ r. EndsBy (call_by 2) r.1) (apply (call_by 2) (votes_for true) one_vote)
apply-EndsBy_example = apply-EndsBy (call_by 2) (votes_for true) one_vote

abbrev ended : VotingContract
ended = record one_vote { result = some 500 }

run_ended_example :
    (run ended ballot ≡ ended) × IsPanic (apply (call_by 2) (votes_for true) (run ended ballot))
run_ended_example = run_ended ended ballot (call_by 2) (votes_for true) {t = 500} refl
