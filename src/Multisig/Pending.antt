-- ===== src/Multisig/Pending.antt =====
-- The pending requests of multisig/src/lib.rs: `requests` and `confirmations` name the same ids,
-- all below the nonce, through every method and every executed action.
use contract_new_project_tem.Prelude.{
  ℕ, ◌≡◌, refl, true, false, Option, none, some, List, [], ◌∷◌, Holds, Holds_of_ok, Holds-ok, pure,
  ◌∙◌, sym, ap, inl, inr, seq-Holds, require-Holds, ◌>>=◌, leb, ◌&&◌, arith, ◌==◌, length,
}
use contract_new_project_tem.Prelude.Map.{lookup, remove, lookup-insert, lookup-remove}
use contract_new_project_tem.Host.{Env, AccountId, PromiseAction}
use contract_new_project_tem.Multisig.State.{
  MultisigMember, has_member, MultiSigRequestAction, MultiSigRequest, MultiSigRequestWithSigner,
  MultiSigContract, has_key, insert_key, is_some,
}
use contract_new_project_tem.Multisig.Effects.{
  list_of, confirmed, confirm_effect, added, add_request_effect,
}
use contract_new_project_tem.Multisig.Calls.{
  Call, add, add_and_confirm, delete_by, confirm_by, apply,
}
use contract_new_project_tem.Multisig.Methods.{
  caller, add_member, delete_member, remove_each, requests_of, remove_request, execute_actions,
  execute_request, confirm, add_request, add_request_and_confirm, delete_request,
  assert_self_request, assert_one_action_only, assert_valid_request,
}

-- What the two maps hold at an id: nothing, or a request and its confirmations, of which `Q` holds.
abbrev pub Entry : (List ℕ → Type 0) → Option MultiSigRequestWithSigner → Option (List ℕ) → Type 0
Entry Q none none = Unit
Entry Q none (some ks) = ⊥
Entry Q (some r) none = ⊥
Entry Q (some r) (some ks) = Q ks

abbrev pub EntryAt : (List ℕ → Type 0) → ℕ → MultiSigContract → Type 0
EntryAt Q id s =
    Entry Q (lookup id s.requests) (lookup id s.confirmations)
    × (leb s.request_nonce id && is_some (lookup id s.requests) ≡ false)

module _ (Q : List ℕ → Type 0) (id : ℕ) where
  remove_each-EntryAt :
      (ids : List ℕ) (s : MultiSigContract) → EntryAt Q id s → EntryAt Q id (remove_each ids s)
  unfolding remove_each
  remove_each-EntryAt [] s h = h
  remove_each-EntryAt (k ∷ ks) s h =
      remove_each-EntryAt ks
        (record s { confirmations = remove k s.confirmations; requests = remove k s.requests })
        (ground (arith, lookup-remove id k s.confirmations, lookup-remove id k s.requests))

module _ (to_string : MultisigMember → ℕ) (Q : List ℕ → Type 0) (id : ℕ) where
  delete_member-EntryAt :
      (actions : List PromiseAction) (m : MultisigMember) (s : MultiSigContract)
      → EntryAt Q id s
      → Holds (λ r. EntryAt Q id r.1) (delete_member to_string actions m s)
  unfolding delete_member
  delete_member-EntryAt actions m s h =
      ground (arith, remove_each-EntryAt Q id (requests_of m s.requests) s h)

  remove_request-EntryAt :
      (k : ℕ) (s : MultiSigContract)
      → EntryAt Q id s
      → Holds (λ r. EntryAt Q id r.1) (remove_request to_string k s)
  unfolding remove_request
  remove_request-EntryAt k s h =
      ground (arith, lookup-remove id k s.confirmations, lookup-remove id k s.requests)

  pub execute_actions-EntryAt :
      (e : Env) (to : AccountId) (n : ℕ) (todo : List MultiSigRequestAction)
      (actions : List PromiseAction) (s : MultiSigContract)
      → EntryAt Q id s
      → Holds (λ r. EntryAt Q id r.1) (execute_actions to_string e to n todo actions s)
  unfolding execute_actions add_member assert_self_request assert_one_action_only
  execute_actions-EntryAt e to n [] actions s h = h
  execute_actions-EntryAt e to n (MultiSigRequestAction.transfer a ∷ rest) actions s h =
      execute_actions-EntryAt e to n rest _ s h
  execute_actions-EntryAt e to n (MultiSigRequestAction.create_account ∷ rest) actions s h =
      execute_actions-EntryAt e to n rest _ s h
  execute_actions-EntryAt e to n (MultiSigRequestAction.deploy_contract c ∷ rest) actions s h =
      execute_actions-EntryAt e to n rest _ s h
  execute_actions-EntryAt e to n (MultiSigRequestAction.add_member m ∷ rest) actions s h =
      require-Holds _ (to == e.current_account_id) _ _ s
        λ _. execute_actions-EntryAt e to n rest _ _ h
  execute_actions-EntryAt e to n (MultiSigRequestAction.delete_member m ∷ rest) actions s h =
      require-Holds _ (to == e.current_account_id) _ _ s λ _.
        seq-Holds (λ r. EntryAt Q id r.1) (λ r. EntryAt Q id r.1)
          (delete_member to_string actions m) (λ more. execute_actions to_string e to n rest more) s
          (delete_member-EntryAt actions m s h)
          λ more t g. execute_actions-EntryAt e to n rest more t g
  execute_actions-EntryAt e to n (MultiSigRequestAction.add_key k p ∷ rest) actions s h =
      require-Holds _ (to == e.current_account_id) _ _ s
        λ _. execute_actions-EntryAt e to n rest _ _ h
  execute_actions-EntryAt e to n (MultiSigRequestAction.function_call f a d g ∷ rest) actions s h =
      execute_actions-EntryAt e to n rest _ s h
  execute_actions-EntryAt e to n (MultiSigRequestAction.set_num_confirmations k ∷ rest) actions s
        h =
      ground arith
  execute_actions-EntryAt e to n (MultiSigRequestAction.set_active_requests_limit k ∷ rest) actions
        s h =
      ground arith

  executed :
      (e : Env) (k : ℕ) (s : MultiSigContract)
      → EntryAt Q id s
      → Holds
          (λ r. EntryAt Q id r.1)
          ((remove_request to_string k >>= execute_request to_string e) s)
  unfolding execute_request
  executed e k s h =
      seq-Holds (λ r. EntryAt Q id r.1) (λ r. EntryAt Q id r.1) (remove_request to_string k)
        (execute_request to_string e) s (remove_request-EntryAt k s h)
        λ r t g. execute_actions-EntryAt e r.receiver_id (length r.actions) r.actions [] t g

  -- One more key in the list of request `id` has to keep `Q`.
  confirm-EntryAt :
      (e : Env) (k : ℕ) (s : MultiSigContract)
      → ((ks : List ℕ)
          → id ≡ k
          → has_member (caller e) s.members ≡ true
          → has_key (to_string (caller e)) ks ≡ false
          → Q ks
          → Q (insert_key (to_string (caller e)) ks))
      → EntryAt Q id s
      → Holds (λ r. EntryAt Q id r.1) (confirm to_string e k s)
  confirm-EntryAt e k s q h = Holds_of_ok _ _ λ r c.
      let f = confirm_effect to_string e k s r.0 r.1 c in
      elim f.3 [
        | inl (_, went) ↦ Holds-ok _ went (executed e k s h)
        | inr (_, _, same) ↦ rw same (recorded f.0 f.1 f.2)
      ]
    where
      recorded :
          lookup k s.confirmations ≡ some (list_of (lookup k s.confirmations))
          → has_member (caller e) s.members ≡ true
          → has_key (to_string (caller e)) (list_of (lookup k s.confirmations)) ≡ false
          → EntryAt Q id (confirmed to_string e k s)
      recorded there m new = ground (
        arith,
        q (list_of (lookup k s.confirmations)),
        lookup-insert id k (insert_key (to_string (caller e)) (list_of (lookup k s.confirmations)))
            s.confirmations,
      )

  added-EntryAt :
      (e : Env) (r : MultiSigRequest) (s : MultiSigContract)
      → Q []
      → EntryAt Q id s
      → EntryAt Q id (added to_string e r s)
  added-EntryAt e r s q h = ground (
    arith,
    lookup-insert id s.request_nonce
        (record { request = r; member = caller e; added_timestamp = e.block_timestamp }) s.requests,
    lookup-insert id s.request_nonce [] s.confirmations,
  )

  add_request-EntryAt :
      (e : Env) (r : MultiSigRequest) (s : MultiSigContract)
      → Q []
      → EntryAt Q id s
      → Holds
          (λ a. EntryAt Q id a.1 × (a.0 ≡ s.request_nonce) × (a.1.members ≡ s.members))
          (add_request to_string e r s)
  add_request-EntryAt e r s q h = Holds_of_ok _ _ λ a went.
      let f = add_request_effect to_string e r s a.0 a.1 went in
      rw (f.0, f.1) (added-EntryAt e r s q h, refl, refl)

  delete_request-EntryAt :
      (e : Env) (k : ℕ) (s : MultiSigContract)
      → EntryAt Q id s
      → Holds (λ r. EntryAt Q id r.1) (delete_request to_string e k s)
  unfolding delete_request assert_valid_request
  delete_request-EntryAt e k s h = ground (arith, remove_request-EntryAt k s h)

  add_and_confirm-EntryAt :
      (e : Env) (r : MultiSigRequest) (s : MultiSigContract)
      → Q []
      → ((ks : List ℕ)
          → id ≡ s.request_nonce
          → has_member (caller e) s.members ≡ true
          → has_key (to_string (caller e)) ks ≡ false
          → Q ks
          → Q (insert_key (to_string (caller e)) ks))
      → EntryAt Q id s
      → Holds (λ r. EntryAt Q id r.1) (add_request_and_confirm to_string e r s)
  unfolding add_request_and_confirm
  add_and_confirm-EntryAt e r s q0 q h =
      seq-Holds (λ a. EntryAt Q id a.1 × (a.0 ≡ s.request_nonce) × (a.1.members ≡ s.members))
        (λ a. EntryAt Q id a.1) (add_request to_string e r) _ s (add_request-EntryAt e r s q0 h)
        λ k t g.
          seq-Holds (λ a. EntryAt Q id a.1) (λ a. EntryAt Q id a.1) (confirm to_string e k)
            (λ _. pure k) t
            (confirm-EntryAt e k t
              (λ ks same m. q ks (same ∙ g.1) (ap (has_member (caller e)) (sym g.2) ∙ m)) g.0)
            λ _ u last. last

-- The id of the request that a call confirms.
abbrev pub Confirms : ℕ → Call → MultiSigContract → Type 0
Confirms id (add r) s = ⊥
Confirms id (add_and_confirm r) s = id ≡ s.request_nonce
Confirms id (delete_by k) s = ⊥
Confirms id (confirm_by k) s = id ≡ k

-- Every method keeps the two maps in step at every id, and what holds of the confirmations of a
-- request is kept if it holds of none and of one more, of a member that confirms it.
pub apply-EntryAt :
    (to_string : MultisigMember → ℕ) (Q : List ℕ → Type 0) (id : ℕ) (e : Env) (c : Call)
    (s : MultiSigContract)
    → Q []
    → ((ks : List ℕ)
        → Confirms id c s
        → has_member (caller e) s.members ≡ true
        → has_key (to_string (caller e)) ks ≡ false
        → Q ks
        → Q (insert_key (to_string (caller e)) ks))
    → EntryAt Q id s
    → Holds (λ r. EntryAt Q id r.1) (apply to_string e c s)
unfolding apply
apply-EntryAt to_string Q id e (add r) s q0 q h =
    seq-Holds (λ a. EntryAt Q id a.1 × (a.0 ≡ s.request_nonce) × (a.1.members ≡ s.members))
      (λ a. EntryAt Q id a.1) (add_request to_string e r) (λ _. pure tt) s
      (add_request-EntryAt to_string Q id e r s q0 h) λ _ t g. g.0
apply-EntryAt to_string Q id e (add_and_confirm r) s q0 q h =
    seq-Holds (λ r. EntryAt Q id r.1) (λ r. EntryAt Q id r.1)
      (add_request_and_confirm to_string e r) (λ _. pure tt) s
      (add_and_confirm-EntryAt to_string Q id e r s q0 q h) λ _ t g. g
apply-EntryAt to_string Q id e (delete_by k) s q0 q h =
    delete_request-EntryAt to_string Q id e k s h
apply-EntryAt to_string Q id e (confirm_by k) s q0 q h =
    seq-Holds (λ r. EntryAt Q id r.1) (λ r. EntryAt Q id r.1) (confirm to_string e k) (λ _. pure tt)
      s (confirm-EntryAt to_string Q id e k s q h) λ _ t g. g
