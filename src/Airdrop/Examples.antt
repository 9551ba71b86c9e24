-- ===== src/Airdrop/Examples.antt =====
-- Runs of airdrop/src/lib.rs.
use contract_new_project_tem.Prelude.{
  ◌*◌, ◌≤◌, ◌≡◌, refl, ◌⊎◌, none, some, List, [], ◌∷◌, Holds, IsPanic, Succeeds, u128_mod,
  saturating_add, saturating_sub, arith,
}
use contract_new_project_tem.Prelude.Map.{lookup, insert, remove, insert}
use contract_new_project_tem.Host.{Env, PromiseAction, failed}
use contract_new_project_tem.Samples.{call_by}
use contract_new_project_tem.Airdrop.{
  AirDrop, Call, send_to, claim_to, claim_new, created_and_claimed, apply, step, run, new, send,
  claim, create_account_and_claim, access_key_allowance,
}
use contract_new_project_tem.Airdrop.Funds.{
  transferred, same_callback, owed_and_paid, all_received, run_funded,
}
use contract_new_project_tem.Airdrop.Claims.{
  Touches, apply-Touches, claim_once, interleaved_send_lost,
}

-- Account 1 sends five allowances; the contract calls itself, signed with key 7.
abbrev deposit : Env
deposit = record (call_by 1) { attached_deposit = 5 * access_key_allowance }

abbrev callback : Env
callback = record (call_by 100) { promise_results = failed ∷ [] }

abbrev funded : AirDrop
funded = record { accounts = (7, 30) ∷ []; promises = [] }

abbrev calls : List (Env × Call)
calls = (deposit, send_to 7) ∷ (call_by 100, claim_to 3) ∷ []

send_fills : lookup 7 (step new (deposit, send_to 7)).accounts ≡ some (4 * access_key_allowance)
unfolding step apply send new lookup insert
send_fills = refl

-- A claim for a new account that fails, and its callback.
abbrev claims : List (Env × Call)
claims =
    (deposit, send_to 7)
    ∷ (call_by 100, claim_new 3 8)
    ∷ (callback, created_and_claimed (4 * access_key_allowance))
    ∷ []

run_funded_example : owed_and_paid (run new claims) ≤ all_received new claims
unfolding new step apply send create_account_and_claim lookup insert remove transferred
    same_callback
run_funded_example = run_funded claims (tt, (tt, (refl, tt)))

apply-Touches_example :
    Holds
      (λ r.
        (lookup 8 r.1.accounts ≡ lookup 8 funded.accounts) ⊎ Touches (call_by 100) (claim_to 3) 8)
      (apply (call_by 100) (claim_to 3) funded)
apply-Touches_example = apply-Touches (call_by 100) (claim_to 3) funded 8

claim_once_example :
    Succeeds (claim (call_by 100) 3 funded)
    × Holds
        (λ r.
          (r.1.promises
            ≡ record { receiver_id = 3; actions = PromiseAction.transfer 30 ∷ []; callback = none }
              ∷ record {
                receiver_id = 100;
                actions = PromiseAction.delete_key 7 ∷ [];
                callback = none;
              }
              ∷ [])
          × IsPanic (claim (call_by 100) 3 r.1))
        (claim (call_by 100) 3 funded)
unfolding lookup
claim_once_example = claim_once (call_by 100) 3 funded

interleaved_send_lost_example :
    (lookup 7 (run funded ((call_by 100, claim_new 3 8) ∷ (deposit, send_to 7) ∷ [])).accounts
      ≡ some (
          saturating_sub
            (saturating_add u128_mod 0 (5 * access_key_allowance))
            access_key_allowance))
    × (lookup 7
          (run funded (
            (call_by 100, claim_new 3 8)
            ∷ (deposit, send_to 7)
            ∷ (callback, created_and_claimed 30)
            ∷ [])).accounts
        ≡ some 30)
unfolding lookup
interleaved_send_lost_example =
    interleaved_send_lost (call_by 100) deposit callback 3 8 funded 30 (refl, refl, refl)
      (omega arith) (refl, refl, refl)
