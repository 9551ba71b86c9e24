-- ===== src/Multisig/Calls.antt =====
-- The methods of multisig/src/lib.rs that change state, as calls, and histories of calls.
use contract_new_project_tem.Prelude.{ℕ, List, [], ◌∷◌, Action, ◌>>=◌, pure, settle}
use contract_new_project_tem.Host.{Env}
use contract_new_project_tem.Multisig.State.{MultisigMember, MultiSigRequest, MultiSigContract}
use contract_new_project_tem.Multisig.Methods.{
  add_request, add_request_and_confirm, delete_request, confirm,
}

pub data Call : Type 0 where
  add : MultiSigRequest → Call
  add_and_confirm : MultiSigRequest → Call
  delete_by : ℕ → Call
  confirm_by : ℕ → Call

module _ (to_string : MultisigMember → ℕ) where
  unfoldable pub apply : Env → Call → Action MultiSigContract (Unit {0})
  apply e (add request) = add_request to_string e request >>= λ _. pure tt
  apply e (add_and_confirm request) = add_request_and_confirm to_string e request >>= λ _. pure tt
  apply e (delete_by request_id) = delete_request to_string e request_id
  apply e (confirm_by request_id) = confirm to_string e request_id >>= λ _. pure tt

  -- One transaction: a call that panics is rolled back.
  unfoldable pub step : MultiSigContract → Env × Call → MultiSigContract
  step s (e, c) = settle s (apply e c s)

  unfoldable pub run : MultiSigContract → List (Env × Call) → MultiSigContract
  run s [] = s
  run s (t ∷ ts) = run (step s t) ts
