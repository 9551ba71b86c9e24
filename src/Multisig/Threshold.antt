-- ===== src/Multisig/Threshold.antt =====
-- The threshold of `confirm` in multisig/src/lib.rs, and the limit of `add_request`.
use contract_new_project_tem.Prelude.{
  ℕ, ◌+◌, ◌≤◌, ◌<◌, ◌≡◌, ◌⊎◌, inl, inr, true, false, none, [], Holds, Holds_of_ok, Holds-ok,
  seq-Holds, arith, length, ◌>>=◌, refl, some, ok, panic, String, Outcome-cases, Option-cases,
}
use contract_new_project_tem.Prelude.Map.{lookup, lookup-remove}
use contract_new_project_tem.Host.{Env}
use contract_new_project_tem.Multisig.State.{
  MultisigMember, MultiSigContract, has_member, has_key, value, MultiSigRequest,
  MultiSigRequestWithSigner, PromiseOrValue,
}
use contract_new_project_tem.Multisig.Effects.{list_of, confirmed, confirm_effect}
use contract_new_project_tem.Multisig.Methods.{caller, confirm, remove_request, execute_request}
use contract_new_project_tem.Multisig.Pending.{execute_actions-EntryAt}
use contract_new_project_tem.Multisig.Execution.{asked, AsksFor, execute_request-AsksFor}

module _ (to_string : MultisigMember → ℕ) (e : Env) (k : ℕ) (s : MultiSigContract) where
  remove_request_gone :
      Holds
        (λ r. (lookup k r.1.requests ≡ none) × (lookup k r.1.confirmations ≡ none))
        (remove_request to_string k s)
  unfolding remove_request
  remove_request_gone =
      ground (arith, lookup-remove k k s.requests, lookup-remove k k s.confirmations)

  executed_gone :
      Holds
        (λ r. (lookup k r.1.requests ≡ none) × (lookup k r.1.confirmations ≡ none))
        ((remove_request to_string k >>= execute_request to_string e) s)
  unfolding execute_request
  executed_gone =
      seq-Holds (λ r. (lookup k r.1.requests ≡ none) × (lookup k r.1.confirmations ≡ none))
        (λ r. (lookup k r.1.requests ≡ none) × (lookup k r.1.confirmations ≡ none))
        (remove_request to_string k) (execute_request to_string e) s remove_request_gone
        λ r t g. ground (
          arith,
          execute_actions-EntryAt to_string (λ _. ⊥) k e r.receiver_id (length r.actions) r.actions
              [] t,
        )

  -- The request is removed and executed, with this result.
  abbrev pub Executes : PromiseOrValue × MultiSigContract → Type 0
  Executes r =
      (q : MultiSigRequestWithSigner) × (u : MultiSigContract) × (lookup k s.requests ≡ some q)
      × (remove_request to_string k s ≡ ok (q.request, u))
      × (execute_request to_string e q.request u ≡ ok r)
      × AsksFor q.request.receiver_id s.promises r.1.promises (asked q.request.actions)

  remove_request-parts :
      Holds
        (λ a.
          (q : MultiSigRequestWithSigner) × (lookup k s.requests ≡ some q)
          × (a.0 ≡ q.request)
          × (a.1.promises ≡ s.promises))
        (remove_request to_string k s)
  unfolding remove_request
  remove_request-parts = elim (Option-cases (lookup k s.requests)) [
    | inl missing ↦ rw (missing, remove_request, Holds) tt
    | inr (q, found) ↦ rw (found, remove_request, Holds) (q, found, refl, refl)
  ]

  executes :
      (r : PromiseOrValue × MultiSigContract)
      → (remove_request to_string k >>= execute_request to_string e) s ≡ ok r
      → Executes r
  executes r done = elim (Outcome-cases (remove_request to_string k s)) [
    | inr (m, stopped) ↦ absurd (failing (rw (stopped, ◌>>=◌) at done))
    | inl ((request, u), went) ↦
        let parts = Holds-ok _ went remove_request-parts in
        of_parts request u parts.0 (parts.1, parts.2, parts.3) went (rw (went, ◌>>=◌) at done)
  ]
    where
      failing : {m : String} → panic m ≡ ok r → ⊥
      failing h = cc

      of_parts :
          (request : MultiSigRequest) (u : MultiSigContract) (q : MultiSigRequestWithSigner)
          → (lookup k s.requests ≡ some q) × (request ≡ q.request) × (u.promises ≡ s.promises)
          → remove_request to_string k s ≡ ok (request, u)
          → execute_request to_string e request u ≡ ok r
          → Executes r
      of_parts request u q (found, is, kept) went run = (
        q,
        u,
        found,
        rw⁻¹ (is) went,
        rw⁻¹ (is) run,
        rw⁻¹ (is, kept) (execute_request-AsksFor to_string e request u r run),
      )

  -- A confirmation that goes through is of a member that had not confirmed the request. Below the
  -- threshold it adds the member's key to the confirmations and changes nothing else. At the
  -- threshold it removes the request and then executes it, of which it has the result; in the end
  -- the request and its confirmations are gone, whatever the request's actions do. A request of
  -- transfers, creations, deployments and function calls is asked of the chain as it was stored: one
  -- promise to its receiver, with these actions in their order.
  pub confirm_threshold :
      Holds
        (λ r.
          (has_member (caller e) s.members ≡ true)
          × (has_key (to_string (caller e)) (list_of (lookup k s.confirmations)) ≡ false)
          × (((length (list_of (lookup k s.confirmations)) + 1 < s.num_confirmations)
                × (r ≡ (value true, confirmed to_string e k s)))
              ⊎ ((s.num_confirmations ≤ length (list_of (lookup k s.confirmations)) + 1)
                  × Executes r
                  × (lookup k r.1.requests ≡ none)
                  × (lookup k r.1.confirmations ≡ none))))
        (confirm to_string e k s)
  confirm_threshold = Holds_of_ok _ _ λ r went.
      let f = confirm_effect to_string e k s r.0 r.1 went in
      (
        f.1,
        f.2,
        elim f.3 [
          | inl (enough, done) ↦
              let g = Holds-ok _ done executed_gone in inr (enough, executes r done, g.0, g.1)
          | inr (below, v, same) ↦ inl (below, rw (v, same))
        ],
      )
