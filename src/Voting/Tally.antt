-- ===== src/Voting/Tally.antt =====
-- The votes of voting/src/lib.rs against their total.
use contract_new_project_tem.Prelude.{
  ℕ, ◌+◌, ◌*◌, ◌<◌, ◌≡◌, refl, ◌⊎◌, inl, inr, Bool, true, false, ◌&&◌, none, some, Outcome, ok,
  panic, Holds, Succeeds, Holds-ok, Outcome-cases, settle, Bool-cases, not, arith, ltb, ◌==◌,
  if◌then◌else◌, List, [], ◌∷◌, u128_mod,
}
use contract_new_project_tem.Prelude.Map.{
  Map, lookup, remove, lookup-insert, lookup-remove, IsMap, insert-IsMap, remove-IsMap, sum,
  sum-insert, sum-remove, at_key-le-sum,
}
use contract_new_project_tem.Host.{Env, AccountId}
use contract_new_project_tem.Voting.{
  VotingContract, check_result, refresh, keep, update, ping, cast, vote, is_none, new, Call, pings,
  votes_for, apply, run,
}

abbrev stakes : Map ℕ → ℕ
stakes = sum (λ v. v)

-- No account votes twice, and the total is the sum of the votes.
pub record IsTallied (s : VotingContract) : Type 0 where
  pub unique : IsMap s.votes
  pub total : s.total_voted_stake ≡ stakes s.votes

-- No account has an old vote and a new one.
abbrev IsDisjoint : Map ℕ → Map ℕ → Type 0
IsDisjoint old votes = (k : AccountId) → (lookup k old ≡ none) ⊎ (lookup k votes ≡ none)

module _ (e : Env) (a v : ℕ) (rest votes : Map ℕ) where
  keep-IsDisjoint :
      IsMap ((a, v) ∷ rest) → IsDisjoint ((a, v) ∷ rest) votes → IsDisjoint rest (keep e a votes)
  unfolding keep lookup
  keep-IsDisjoint m d k = ground (arith, lookup-insert k a (e.validator_stake a) votes, d k)

  keep-IsMap : IsMap votes → IsMap (keep e a votes)
  unfolding keep
  keep-IsMap m = ground (arith, insert-IsMap a (e.validator_stake a) votes m)

  stakes-keep :
      IsDisjoint ((a, v) ∷ rest) votes
      → stakes (keep e a votes) ≡ stakes votes + e.validator_stake a
  unfolding keep lookup
  stakes-keep d = ground (arith, sum-insert (λ n. n) a (e.validator_stake a) votes, d a)

refresh-IsTallied :
    (e : Env) (old votes : Map ℕ) (total : ℕ)
    → IsMap old
    → IsMap votes
    → total ≡ stakes votes
    → IsDisjoint old votes
    → Holds (λ r. IsMap r.0 × (r.1 ≡ stakes r.0)) (refresh e old votes total)
unfolding refresh
refresh-IsTallied e [] votes total mo mv t d = (mv, t)
refresh-IsTallied e ((a, v) ∷ rest) votes total mo mv t d =
    let new_total = stakes-keep e a v rest votes d in
    elim (Bool-cases (ltb (total + e.validator_stake a) u128_mod)) [
      | inl fits ↦ rw fits (
          refresh-IsTallied e rest (keep e a votes) (total + e.validator_stake a) mo.1
            (keep-IsMap e a v rest votes mv) (omega arith) (keep-IsDisjoint e a v rest votes mo d))
      | inr over ↦ rw over tt
    ]

-- After a refresh the votes are the old voters' current stakes, where those are positive.
pub refresh-lookup :
    (e : Env) (k : AccountId) (old votes : Map ℕ) (total : ℕ)
    → Holds
        (λ r. lookup k r.0 ≡ (
          if not (is_none (lookup k old)) && ltb 0 (e.validator_stake k)
          then some (e.validator_stake k)
          else lookup k votes))
        (refresh e old votes total)
unfolding refresh lookup keep
refresh-lookup e k [] votes total = refl
refresh-lookup e k ((a, v) ∷ rest) votes total =
    elim (Bool-cases (ltb (total + e.validator_stake a) u128_mod)) [
      | inl fits ↦ rw fits (
          ground (
            arith,
            refresh-lookup e k rest (keep e a votes) (total + e.validator_stake a),
            lookup-insert k a (e.validator_stake a) votes,
          ))
      | inr over ↦ rw over tt
    ]

-- `check_result` leaves the votes alone.
update-IsTallied :
    (e : Env) (s : VotingContract) → IsTallied s → Holds (λ r. IsTallied r.1) (update e s)
unfolding update check_result sum lookup
update-IsTallied e s v = elim (Outcome-cases (refresh e s.votes [] 0)) [
  | inl ((m, t), eq) ↦
      let g =
        Holds-ok (λ r. IsMap r.0 × (r.1 ≡ stakes r.0)) eq
          (refresh-IsTallied e s.votes [] 0 v.unique tt refl (λ k. inr refl)) in
      rw (eq, update) (ground arith)
  | inr (m, eq) ↦ rw (eq, update) tt
]

cast-IsTallied :
    (e : Env) (b : Bool) (s : VotingContract)
    → IsTallied s
    → Holds (λ r. IsTallied r.1) (cast e b s)
unfolding cast check_result
cast-IsTallied e true s v =
    let a = e.predecessor_account_id in
    ground (
      arith,
      remove-IsMap a s.votes v.unique,
      sum-remove (λ n. n) a s.votes v.unique,
      insert-IsMap a (e.validator_stake a) (remove a s.votes),
      sum-insert (λ n. n) a (e.validator_stake a) (remove a s.votes),
      lookup-remove a a s.votes,
    )
cast-IsTallied e false s v =
    let a = e.predecessor_account_id in
    ground (arith, remove-IsMap a s.votes v.unique, sum-remove (λ n. n) a s.votes v.unique)

ping-IsTallied :
    (e : Env) (s : VotingContract) → IsTallied s → Holds (λ r. IsTallied r.1) (ping e s)
unfolding ping
ping-IsTallied e s v = ground (arith, update-IsTallied e s v)

vote-IsTallied :
    (e : Env) (b : Bool) (s : VotingContract)
    → IsTallied s
    → Holds (λ r. IsTallied r.1) (vote e b s)
unfolding vote
vote-IsTallied e b s v = elim (Outcome-cases (ping e s)) [
  | inl ((_, t), eq) ↦
      let valid = Holds-ok (λ r. IsTallied r.1) eq (ping-IsTallied e s v) in
      rw (eq, vote, Holds) (ground (arith, cast-IsTallied e b t valid))
  | inr (m, eq) ↦ rw (eq, vote, Holds) tt
]

-- Every method that goes through leaves the total equal to the sum of the votes, one per account.
pub apply-IsTallied :
    (e : Env) (c : Call) (s : VotingContract)
    → IsTallied s
    → Holds (λ r. IsTallied r.1) (apply e c s)
unfolding apply
apply-IsTallied e pings s v = ping-IsTallied e s v
apply-IsTallied e (votes_for b) s v = vote-IsTallied e b s v

settle-IsTallied :
    (s : VotingContract) (m : Outcome (Unit {0} × VotingContract))
    → IsTallied s
    → Holds (λ r. IsTallied r.1) m
    → IsTallied (settle s m)
settle-IsTallied s (ok _) v h = h
settle-IsTallied s (panic _) v h = v

run-IsTallied :
    (s : VotingContract) (calls : List (Env × Call)) → IsTallied s → IsTallied (run s calls)
unfolding run
run-IsTallied s [] v = v
run-IsTallied s ((e, c) ∷ calls) v =
    run-IsTallied (settle s (apply e c s)) calls
      (settle-IsTallied s (apply e c s) v (apply-IsTallied e c s v))

-- After any history of a new contract the total is the sum of the votes.
pub run-new-IsTallied :
    (e : Env) (calls : List (Env × Call))
    → Holds (λ (t : VotingContract). IsTallied (run t calls)) (new e)
unfolding new sum
run-new-IsTallied e calls = elim (Bool-cases e.state_exists) [
  | inl old ↦ rw (old, new, Holds) tt
  | inr fresh ↦
      rw (fresh, new, Holds) (run-IsTallied _ calls (record { unique = tt; total = refl }))
]

cast_total :
    (e : Env) (is_vote : Bool) (s : VotingContract) (k : AccountId)
    → IsTallied s
    → s.result ≡ none
    → (is_vote ≡ true → 0 < e.validator_stake e.predecessor_account_id)
    → s.total_voted_stake + e.validator_stake e.predecessor_account_id < u128_mod
    → 2 * e.validator_total_stake < u128_mod
    → Succeeds (cast e is_vote s)
      × Holds
          (λ r. lookup k r.1.votes ≡ (
            if k == e.predecessor_account_id
            then (if is_vote then some (e.validator_stake e.predecessor_account_id) else none)
            else lookup k s.votes))
          (cast e is_vote s)
unfolding cast check_result
cast_total e true s k v open_poll pos fits fits2 =
    let a = e.predecessor_account_id in
    let covered = at_key-le-sum (λ n. n) a s.votes in
    let other = lookup-remove k a s.votes in
    let positive = pos refl in
    let written = lookup-insert k a (e.validator_stake a) (remove a s.votes) in ground arith
cast_total e false s k v open_poll pos fits fits2 =
    let a = e.predecessor_account_id in
    let covered = at_key-le-sum (λ n. n) a s.votes in
    let other = lookup-remove k a s.votes in ground arith

vote-cast :
    (e : Env) (is_vote : Bool) (s t : VotingContract)
    → ping e s ≡ ok (tt, t)
    → t.result ≡ none
    → vote e is_vote s ≡ cast e is_vote t
unfolding vote
vote-cast e is_vote s t went open_poll = ground arith

-- So the assertion on the voted stake never fails: behind a ping that went through and left the poll
-- open, in a new epoch or not, a vote of a validator and a withdrawal of anyone go through, if the sums
-- fit in 128 bits. A vote replaces the caller's vote by the current stake, a withdrawal removes it, and
-- both leave the votes of the others as the ping left them.
pub vote_total :
    (e : Env) (is_vote : Bool) (s t : VotingContract) (k : AccountId)
    → IsTallied s
    → ping e s ≡ ok (tt, t)
    → t.result ≡ none
    → (is_vote ≡ true → 0 < e.validator_stake e.predecessor_account_id)
    → t.total_voted_stake + e.validator_stake e.predecessor_account_id < u128_mod
    → 2 * e.validator_total_stake < u128_mod
    → Succeeds (vote e is_vote s)
      × Holds
          (λ r. lookup k r.1.votes ≡ (
            if k == e.predecessor_account_id
            then (if is_vote then some (e.validator_stake e.predecessor_account_id) else none)
            else lookup k t.votes))
          (vote e is_vote s)
vote_total e is_vote s t k v went open_poll pos fits fits2 =
    rw (vote-cast e is_vote s t went open_poll) (
      cast_total e is_vote t k (Holds-ok (λ r. IsTallied r.1) went (ping-IsTallied e s v)) open_poll
        pos fits fits2)
