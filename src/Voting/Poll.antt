-- ===== src/Voting/Poll.antt =====
-- When the poll of voting/src/lib.rs ends.
use contract_new_project_tem.Prelude.{
  ℕ, ◌*◌, ◌/◌, ◌<◌, ◌≡◌, refl, ◌⊎◌, inl, inr, Bool, true, false, none, some, Holds, Holds-ok,
  IsPanic, Outcome-cases, settle, arith, List, [], ◌∷◌,
}
use contract_new_project_tem.Host.{Env}
use contract_new_project_tem.Voting.{
  VotingContract, check_result, refresh, update, ping, cast, vote, Call, pings, votes_for, apply,
  run,
}

-- The poll is open as before, or it ended now, with more than two thirds of the stake.
abbrev pub EndsBy : Env → VotingContract → Type 0
EndsBy e t =
    (t.result ≡ none)
    ⊎ ((t.result ≡ some e.block_timestamp)
        × (2 * e.validator_total_stake / 3 < t.total_voted_stake))

update-EndsBy : (e : Env) (s : VotingContract) → Holds (λ r. EndsBy e r.1) (update e s)
unfolding update check_result
update-EndsBy e s = elim (Outcome-cases (refresh e s.votes [] 0)) [
  | inl ((m, t), eq) ↦ rw (eq, update) (ground arith)
  | inr (m, eq) ↦ rw (eq, update) tt
]

ping-EndsBy : (e : Env) (s : VotingContract) → Holds (λ r. EndsBy e r.1) (ping e s)
unfolding ping
ping-EndsBy e s = ground (arith, update-EndsBy e s)

cast-EndsBy :
    (e : Env) (b : Bool) (s : VotingContract)
    → s.result ≡ none
    → Holds (λ r. EndsBy e r.1) (cast e b s)
unfolding cast check_result
cast-EndsBy e true s h = ground arith
cast-EndsBy e false s h = ground arith

vote-EndsBy : (e : Env) (b : Bool) (s : VotingContract) → Holds (λ r. EndsBy e r.1) (vote e b s)
unfolding vote
vote-EndsBy e b s = elim (Outcome-cases (ping e s)) [
  | inl ((_, t), eq) ↦
      let ends = Holds-ok (λ r. EndsBy e r.1) eq (ping-EndsBy e s) in
      rw (eq, vote, Holds) (ground (arith, cast-EndsBy e b t))
  | inr (m, eq) ↦ rw (eq, vote, Holds) tt
]

-- A method that goes through leaves the poll open, or ends it at the time of the block with more
-- than two thirds of the total stake in favour.
pub apply-EndsBy :
    (e : Env) (c : Call) (s : VotingContract) → Holds (λ r. EndsBy e r.1) (apply e c s)
unfolding apply
apply-EndsBy e pings s = ping-EndsBy e s
apply-EndsBy e (votes_for b) s = vote-EndsBy e b s

apply_ended :
    (e : Env) (c : Call) (s : VotingContract) {t : ℕ} → s.result ≡ some t → IsPanic (apply e c s)
unfolding apply vote ping
apply_ended e pings s h = ground arith
apply_ended e (votes_for b) s h = ground arith

unchanged :
    (s : VotingContract) (calls : List (Env × Call)) {t : ℕ} → s.result ≡ some t → run s calls ≡ s
unfolding run
unchanged s [] h = refl
unchanged s ((e, c) ∷ calls) h = elim (Outcome-cases (apply e c s)) [
  | inl (a, eq) ↦ absurd (rw eq at (apply_ended e c s h))
  | inr (m, eq) ↦ rw (eq, settle) (unchanged s calls h)
]

-- Once the poll has ended, no history changes the state any more, and every call after it panics.
pub run_ended :
    (s : VotingContract) (calls : List (Env × Call)) (e : Env) (c : Call) {t : ℕ}
    → s.result ≡ some t
    → (run s calls ≡ s) × IsPanic (apply e c (run s calls))
run_ended s calls e c h = let same = unchanged s calls h in (same, rw (same) (apply_ended e c s h))
