-- ===== src/Airdrop/Claims.antt =====
-- Who can take the tokens of a key in airdrop/src/lib.rs, and what a failed claim does to them.
use contract_new_project_tem.Prelude.{
  ℕ, ◌<◌, ◌≡◌, ◌⊎◌, true, Option, none, some, List, [], ◌∷◌, Holds, IsPanic, Succeeds, arith, ◌==◌,
  ◌&&◌, if◌then◌else◌, u128_mod, saturating_add, saturating_sub,
}
use contract_new_project_tem.Prelude.Map.{lookup, insert, remove, lookup-insert, lookup-remove}
use contract_new_project_tem.Host.{Env, AccountId, PublicKey, Promise, PromiseAction, failed}
use contract_new_project_tem.Airdrop.{
  AirDrop, Callback, Call, send_to, claim_to, claim_new, create, create_advanced, created,
  created_and_claimed, apply, step, run, send, claim, create_account_and_claim, create_account,
  create_account_advanced, on_account_created, on_account_created_and_claimed, is_promise_success,
  is_some, access_key_allowance, unwrap_or_zero,
}

-- The keys whose entries a call may change: a sender adds to the key that it names; the contract itself,
-- signing with a key, takes or restores that key's.
abbrev pub Touches : Env → Call → PublicKey → Type 0
Touches e (send_to key) k = (k ≡ key) × (access_key_allowance < e.attached_deposit)
Touches e (claim_to account_id) k =
    (k ≡ e.signer_account_pk) × (e.predecessor_account_id ≡ e.current_account_id)
Touches e (claim_new account_id key) k =
    (k ≡ e.signer_account_pk) × (e.predecessor_account_id ≡ e.current_account_id)
Touches e (create account_id key) k = ⊥
Touches e (create_advanced account_id options) k = ⊥
Touches e (created account_id amount) k = ⊥
Touches e (created_and_claimed amount) k =
    (k ≡ e.signer_account_pk)
    × (e.predecessor_account_id ≡ e.current_account_id)
    × (e.promise_results ≡ failed ∷ [])

-- A call leaves what every key holds as it was, but for a key that it names in a sufficient deposit, or
-- that signed it as a call of the contract on itself: for a claim, or for a failed creation.
pub apply-Touches :
    (e : Env) (c : Call) (s : AirDrop) (k : PublicKey)
    → Holds (λ r. (lookup k r.1.accounts ≡ lookup k s.accounts) ⊎ Touches e c k) (apply e c s)
unfolding apply send claim create_account_and_claim create_account create_account_advanced
    on_account_created on_account_created_and_claimed is_promise_success
apply-Touches e (send_to key) s k = ground (
  arith,
  lookup-insert k key
      (saturating_sub
        (saturating_add u128_mod (unwrap_or_zero (lookup key s.accounts)) e.attached_deposit)
        access_key_allowance)
      s.accounts,
)
apply-Touches e (claim_to account_id) s k =
    ground (arith, lookup-remove k e.signer_account_pk s.accounts)
apply-Touches e (claim_new account_id key) s k =
    ground (arith, lookup-remove k e.signer_account_pk s.accounts)
apply-Touches e (create account_id key) s k = ground arith
apply-Touches e (create_advanced account_id options) s k = ground arith
apply-Touches e (created account_id amount) s k = ground arith
apply-Touches e (created_and_claimed amount) s k =
    ground (arith, lookup-insert k e.signer_account_pk amount s.accounts)

-- A claim goes through exactly when the contract calls itself with a key that has tokens, for a valid
-- account; it then pays all of them to that account, and the key can claim nothing more.
pub claim_once :
    (e : Env) (account_id : AccountId) (s : AirDrop)
    → if is_some (lookup e.signer_account_pk s.accounts)
        && e.predecessor_account_id == e.current_account_id
        && e.is_valid_account_id account_id
      then Succeeds (claim e account_id s)
        × Holds
            (λ r.
              (r.1.promises
                ≡ record {
                  receiver_id = account_id;
                  actions =
                      PromiseAction.transfer
                        (unwrap_or_zero (lookup e.signer_account_pk s.accounts))
                      ∷ [];
                  callback = none;
                }
                  ∷ record {
                    receiver_id = e.current_account_id;
                    actions = PromiseAction.delete_key e.signer_account_pk ∷ [];
                    callback = none;
                  }
                  ∷ s.promises)
              × IsPanic (claim e account_id r.1))
            (claim e account_id s)
      else IsPanic (claim e account_id s)
unfolding claim
claim_once e account_id s =
    ground (arith, lookup-remove e.signer_account_pk e.signer_account_pk s.accounts)

-- The callback of a claim for a new account that could not be created.
abbrev pub IsFailedCallback : Env → Env → Type 0
IsFailedCallback e g =
    (g.predecessor_account_id ≡ g.current_account_id)
    × (g.signer_account_pk ≡ e.signer_account_pk)
    × (g.promise_results ≡ failed ∷ [])

abbrev pub MayClaim : Env → AccountId → AirDrop → ℕ → Type 0
MayClaim e account_id s amount =
    (e.predecessor_account_id ≡ e.current_account_id)
    × (e.is_valid_account_id account_id ≡ true)
    × (lookup e.signer_account_pk s.accounts ≡ some amount)

-- The callback of the newest promise.
abbrev pub last_callback : List (Promise Callback) → Option Callback
last_callback [] = none
last_callback (p ∷ ps) = p.callback

-- If somebody sends tokens to the key between such a claim and its callback, the send goes through, and
-- still the key holds what it held before the claim: the tokens sent are lost.
pub interleaved_send_lost :
    (e f g : Env) (account_id : AccountId) (key : PublicKey) (s : AirDrop) (amount : ℕ)
    → MayClaim e account_id s amount
    → access_key_allowance < f.attached_deposit
    → IsFailedCallback e g
    → (lookup e.signer_account_pk
          (run s ((e, claim_new account_id key) ∷ (f, send_to e.signer_account_pk) ∷ [])).accounts
        ≡ some (saturating_sub (saturating_add u128_mod 0 f.attached_deposit) access_key_allowance))
      × (lookup e.signer_account_pk
            (run s (
              (e, claim_new account_id key)
              ∷ (f, send_to e.signer_account_pk)
              ∷ (g, created_and_claimed amount)
              ∷ [])).accounts
          ≡ some amount)
unfolding run step apply send create_account_and_claim on_account_created_and_claimed
    is_promise_success
interleaved_send_lost e f g account_id key s amount h d c = ground (
  arith,
  lookup-remove e.signer_account_pk e.signer_account_pk s.accounts,
  lookup-insert e.signer_account_pk e.signer_account_pk
      (saturating_sub (saturating_add u128_mod 0 f.attached_deposit) access_key_allowance)
      (remove e.signer_account_pk s.accounts),
  lookup-insert e.signer_account_pk e.signer_account_pk amount (
      insert e.signer_account_pk
        (saturating_sub (saturating_add u128_mod 0 f.attached_deposit) access_key_allowance)
        (remove e.signer_account_pk s.accounts)),
)
