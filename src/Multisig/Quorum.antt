-- ===== src/Multisig/Quorum.antt =====
-- Who confirmed what, and what the confirmations allow, for multisig/src/lib.rs.
use contract_new_project_tem.Prelude.{
  ℕ, ◌≡◌, refl, ◌⊎◌, inl, inr, true, false, List, [], ◌∷◌, Holds, Holds_mono, Option, none, some,
  settle-Holds, arith,
}
use contract_new_project_tem.Prelude.Map.{lookup}
use contract_new_project_tem.Host.{Env, PromiseAction}
use contract_new_project_tem.Multisig.State.{
  MultisigMember, MultiSigContract, has_member, has_key, insert_key, MultiSigRequestWithSigner,
  active_requests_limit_default,
}
use contract_new_project_tem.Multisig.Calls.{Call, apply, step, run}
use contract_new_project_tem.Multisig.Methods.{caller, new, add_each, add_member}
use contract_new_project_tem.Multisig.Pending.{Entry, EntryAt, Confirms, apply-EntryAt}

-- Somewhere in the history a member with this key confirmed the request.
abbrev pub Confirmed : (MultisigMember → ℕ) → ℕ → ℕ → MultiSigContract → List (Env × Call) → Type 0
Confirmed to_string id key s [] = ⊥
Confirmed to_string id key s ((e, c) ∷ ts) =
    (Confirms id c s × (has_member (caller e) s.members ≡ true) × (key ≡ to_string (caller e)))
    ⊎ Confirmed to_string id key (step to_string s (e, c)) ts

-- Distinct keys, all with the property.
abbrev pub AllDistinct : (ℕ → Type 0) → List ℕ → Type 0
AllDistinct P [] = Unit
AllDistinct P (k ∷ ks) = P k × (has_key k ks ≡ false) × AllDistinct P ks

AllDistinct-mono :
    (P Q : ℕ → Type 0) → ((k : ℕ) → P k → Q k) → (ks : List ℕ) → AllDistinct P ks → AllDistinct Q ks
AllDistinct-mono P Q f [] h = tt
AllDistinct-mono P Q f (k ∷ ks) (p, d, h) = (f k p, d, AllDistinct-mono P Q f ks h)

Entry-mono :
    (Q R : List ℕ → Type 0)
    → ((ks : List ℕ) → Q ks → R ks)
    → (r : Option MultiSigRequestWithSigner) (c : Option (List ℕ)) → Entry Q r c
    → Entry R r c
Entry-mono Q R f none none h = tt
Entry-mono Q R f none (some ks) h = elim h [ ]
Entry-mono Q R f (some r) none h = elim h [ ]
Entry-mono Q R f (some r) (some ks) h = f ks h

insert_key-AllDistinct :
    (P : ℕ → Type 0) (k : ℕ) (ks : List ℕ)
    → has_key k ks ≡ false
    → P k
    → AllDistinct P ks
    → AllDistinct P (insert_key k ks)
unfolding insert_key
insert_key-AllDistinct P k ks d p h = rw d (p, d, h)

module _ (to_string : MultisigMember → ℕ) where
  step-EntryAt :
      (P : ℕ → Type 0) (id : ℕ) (s : MultiSigContract) (e : Env) (c : Call)
      → EntryAt (AllDistinct P) id s
      → EntryAt
          (AllDistinct (λ key.
            P key
            ⊎ (Confirms id c s
                × (has_member (caller e) s.members ≡ true)
                × (key ≡ to_string (caller e)))))
          id
          (step to_string s (e, c))
  unfolding step
  step-EntryAt P id s e c h =
      let g = Entry-mono _ _ (AllDistinct-mono P _ (λ k. inl)) _ _ h.0 in
      settle-Holds (EntryAt _ id) s (apply to_string e c s) (g, h.1)
        (apply-EntryAt to_string _ id e c s tt
          (λ ks this member new. insert_key-AllDistinct _ _ ks new (inr (this, member, refl)))
          (g, h.1))

  -- After a history, the confirmations of a request are distinct, and each was there before or is of
  -- a member that called for it.
  run_entries :
      (id : ℕ) (s : MultiSigContract) (ts : List (Env × Call)) (P : ℕ → Type 0)
      → EntryAt (AllDistinct P) id s
      → EntryAt
          (AllDistinct (λ key. P key ⊎ Confirmed to_string id key s ts))
          id
          (run to_string s ts)
  unfolding run
  run_entries id s [] P h = (Entry-mono _ _ (AllDistinct-mono P _ (λ k. inl)) _ _ h.0, h.1)
  run_entries id s ((e, c) ∷ ts) P h =
      let ih = run_entries id (step to_string s (e, c)) ts _ (step-EntryAt P id s e c h) in
      (Entry-mono _ _ (AllDistinct-mono _ _ (λ k. assoc)) _ _ ih.0, ih.1)
    where
      assoc : {A B C : Type 0} → (A ⊎ B) ⊎ C → A ⊎ (B ⊎ C)
      assoc (inl (inl a)) = inl a
      assoc (inl (inr b)) = inr (inl b)
      assoc (inr c) = inr (inr c)

add_each_fresh :
    (e : Env) (ms : List MultisigMember) (actions : List PromiseAction) (s : MultiSigContract)
    → s.requests ≡ []
    → s.confirmations ≡ []
    → Holds (λ r. (r.1.requests ≡ []) × (r.1.confirmations ≡ [])) (add_each e ms actions s)
unfolding add_each add_member
add_each_fresh e [] actions s hr hc = (hr, hc)
add_each_fresh e (m ∷ ms) actions s hr hc = add_each_fresh e ms _ _ hr hc

new_fresh :
    (e : Env) (ms : List MultisigMember) (n : ℕ)
    → Holds (λ r. (r.1.requests ≡ []) × (r.1.confirmations ≡ [])) (new e ms n)
unfolding new
new_fresh e ms n = ground (
  arith,
  add_each_fresh e ms []
      (record {
        members = [];
        num_confirmations = n;
        request_nonce = 0;
        requests = [];
        confirmations = [];
        num_requests_pk = [];
        active_requests_limit = active_requests_limit_default;
        promises = [];
      })
      refl refl,
)

-- After any history of calls on a new contract, `requests` and `confirmations` hold the same ids, all
-- below the nonce, and the confirmations of each request are distinct, each of a caller that was a
-- member when it confirmed that request.
pub new-run-Confirmed :
    (to_string : MultisigMember → ℕ) (e : Env) (ms : List MultisigMember) (n : ℕ) (id : ℕ)
    (ts : List (Env × Call))
    → Holds
        (λ r.
          EntryAt
            (AllDistinct (λ key. Confirmed to_string id key r.1 ts))
            id
            (run to_string r.1 ts))
        (new e ms n)
unfolding lookup
new-run-Confirmed to_string e ms n id ts =
    Holds_mono (new e ms n)
      (λ r (hr, hc).
        let h = run_entries to_string id r.1 ts (λ _. ⊥) (ground arith) in
        (Entry-mono _ _ (AllDistinct-mono _ _ (λ k. only)) _ _ h.0, h.1))
      (new_fresh e ms n)
  where
    only : {A : Type 0} → ⊥ ⊎ A → A
    only (inl a) = elim a [ ]
    only (inr a) = a
