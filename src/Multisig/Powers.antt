-- ===== src/Multisig/Powers.antt =====
-- What a call of multisig/src/lib.rs may do: to the members, the threshold, the limit, the promises.
use contract_new_project_tem.Prelude.{
  ℕ, ◌+◌, ◌-◌, ◌≤◌, ◌≡◌, refl, ◌⊎◌, inl, inr, true, false, some, [], Holds, Holds_of_ok, Holds_mono,
  ok, arith, length, seq-Holds, IsPanic, ◌>>=◌, pure, u64_mod, ltb, ◌&&◌, if◌then◌else◌,
}
use contract_new_project_tem.Prelude.Map.{lookup, insert, remove, lookup-insert}
use contract_new_project_tem.Host.{Env}
use contract_new_project_tem.Multisig.State.{
  MultisigMember, MultiSigRequest, MultiSigContract, has_member, has_key, request_cooldown,
  unwrap_or_zero, MultiSigRequestWithSigner, is_some,
}
use contract_new_project_tem.Multisig.Effects.{list_of, confirm_effect, added, add_request_effect}
use contract_new_project_tem.Multisig.Calls.{
  Call, add, add_and_confirm, delete_by, confirm_by, apply,
}
use contract_new_project_tem.Multisig.Methods.{
  caller, current_member, confirm, add_request, add_request_and_confirm, delete_request,
  remove_request, assert_valid_request,
}

-- The members, the threshold, the limit and the promises are as they were.
abbrev pub SamePowers : MultiSigContract → MultiSigContract → Type 0
SamePowers s t =
    (t.members ≡ s.members)
    × (t.num_confirmations ≡ s.num_confirmations)
    × (t.active_requests_limit ≡ s.active_requests_limit)
    × (t.promises ≡ s.promises)

-- The call is the last confirmation that its request needs.
abbrev pub Reached : (MultisigMember → ℕ) → Env → Call → MultiSigContract → Type 0
Reached to_string e (add r) s = ⊥
Reached to_string e (add_and_confirm r) s =
    (s.num_confirmations ≤ 1) × (has_member (caller e) s.members ≡ true)
Reached to_string e (delete_by k) s = ⊥
Reached to_string e (confirm_by k) s =
    (s.num_confirmations ≤ length (list_of (lookup k s.confirmations)) + 1)
    × (has_key (to_string (caller e)) (list_of (lookup k s.confirmations)) ≡ false)
    × (has_member (caller e) s.members ≡ true)

module _ (to_string : MultisigMember → ℕ) where
  add_request_powers :
      (e : Env) (r : MultiSigRequest) (s : MultiSigContract)
      → Holds
          (λ a. (a.0 ≡ s.request_nonce) × (a.1 ≡ added to_string e r s))
          (add_request to_string e r s)
  add_request_powers e r s =
      Holds_of_ok _ _
        λ a went. let f = add_request_effect to_string e r s a.0 a.1 went in (f.0, f.1)

  confirm_powers :
      (e : Env) (k : ℕ) (s : MultiSigContract)
      → Holds
          (λ a. SamePowers s a.1 ⊎ Reached to_string e (confirm_by k) s)
          (confirm to_string e k s)
  confirm_powers e k s = Holds_of_ok _ _ λ a went.
      let f = confirm_effect to_string e k s a.0 a.1 went in
      elim f.3 [
        | inl (enough, _) ↦ inr (enough, f.2, f.1)
        | inr (_, _, same) ↦ inl (rw same (refl, refl, refl, refl))
      ]

  -- A fresh request has no confirmations.
  added_powers :
      (e : Env) (r : MultiSigRequest) (s t : MultiSigContract)
      → SamePowers (added to_string e r s) t
        ⊎ Reached to_string e (confirm_by s.request_nonce) (added to_string e r s)
      → SamePowers s t ⊎ Reached to_string e (add_and_confirm r) s
  added_powers e r s t (inl same) = inl same
  added_powers e r s t (inr reached) =
      ground (arith, lookup-insert s.request_nonce s.request_nonce [] s.confirmations)

  delete_request_powers :
      (e : Env) (k : ℕ) (s : MultiSigContract)
      → Holds (λ r. SamePowers s r.1) (delete_request to_string e k s)
  unfolding delete_request assert_valid_request current_member remove_request
  delete_request_powers e k s = ground arith

  -- A call changes the members, the threshold, the limit or the promises only if it comes from a member
  -- whose confirmation of the request is new and is the last one that the request needs.
  pub apply_powers :
      (e : Env) (c : Call) (s : MultiSigContract)
      → Holds (λ r. SamePowers s r.1 ⊎ Reached to_string e c s) (apply to_string e c s)
  unfolding apply add_request_and_confirm
  apply_powers e (add r) s =
      seq-Holds (λ a. (a.0 ≡ s.request_nonce) × (a.1 ≡ added to_string e r s))
        (λ a. SamePowers s a.1 ⊎ ⊥) (add_request to_string e r) (λ _. pure tt) s
        (add_request_powers e r s) λ _ t g. inl (rw g.1 (refl, refl, refl, refl))
  apply_powers e (add_and_confirm r) s =
      seq-Holds (λ a. SamePowers s a.1 ⊎ Reached to_string e (add_and_confirm r) s)
        (λ a. SamePowers s a.1 ⊎ Reached to_string e (add_and_confirm r) s)
        (add_request_and_confirm to_string e r) (λ _. pure tt) s
        (seq-Holds (λ a. (a.0 ≡ s.request_nonce) × (a.1 ≡ added to_string e r s))
          (λ a. SamePowers s a.1 ⊎ Reached to_string e (add_and_confirm r) s)
          (add_request to_string e r) (λ k. confirm to_string e k >>= λ _. pure k) s
          (add_request_powers e r s)
          λ k t g.
            seq-Holds (λ a. SamePowers s a.1 ⊎ Reached to_string e (add_and_confirm r) s)
              (λ a. SamePowers s a.1 ⊎ Reached to_string e (add_and_confirm r) s)
              (confirm to_string e k) (λ _. pure k) t
              (rw (g.0, g.1)
                (Holds_mono (confirm to_string e s.request_nonce (added to_string e r s))
                  (λ a. added_powers e r s a.1)
                  (confirm_powers e s.request_nonce (added to_string e r s))))
              λ _ _ last. last)
        λ _ _ last. last
  apply_powers e (delete_by k) s =
      Holds_mono (delete_request to_string e k s) (λ _. inl) (delete_request_powers e k s)
  apply_powers e (confirm_by k) s =
      seq-Holds (λ a. SamePowers s a.1 ⊎ Reached to_string e (confirm_by k) s)
        (λ a. SamePowers s a.1 ⊎ Reached to_string e (confirm_by k) s) (confirm to_string e k)
        (λ _. pure tt) s (confirm_powers e k s) λ _ _ last. last

  -- Whoever is not a member gets nothing done.
  pub apply_outsider :
      (e : Env) (c : Call) (s : MultiSigContract)
      → has_member (caller e) s.members ≡ false
      → IsPanic (apply to_string e c s)
  unfolding apply add_request_and_confirm add_request confirm delete_request assert_valid_request
      current_member
  apply_outsider e (add r) s h = ground arith
  apply_outsider e (add_and_confirm r) s h = ground arith
  apply_outsider e (delete_by k) s h = ground arith
  apply_outsider e (confirm_by k) s h = ground arith

  -- With both maps in step at a pending request, a member deletes it, its own or another's, exactly
  -- when the cooldown has passed; the request then leaves both maps, its author's count falls by
  -- one, and the rest is as it was.
  pub delete_request_exact :
      (e : Env) (k : ℕ) (s : MultiSigContract) (r : MultiSigRequestWithSigner)
      → lookup k s.requests ≡ some r
      → is_some (lookup k s.confirmations) ≡ true
      → if has_member (caller e) s.members
          && ltb (r.added_timestamp + request_cooldown) u64_mod
          && ltb (r.added_timestamp + request_cooldown) e.block_timestamp
        then (delete_request to_string e k s
            ≡ ok (
              tt,
              record s {
                requests = remove k s.requests;
                confirmations = remove k s.confirmations;
                num_requests_pk =
                    insert
                      (to_string r.member)
                      (unwrap_or_zero (lookup (to_string r.member) s.num_requests_pk) - 1)
                      s.num_requests_pk;
              },
            ))
        else IsPanic (delete_request to_string e k s)
  unfolding delete_request assert_valid_request current_member remove_request
  delete_request_exact e k s r h c = ground arith
