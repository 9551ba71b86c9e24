-- ===== src/Multisig/Views.antt =====
-- The views of multisig/src/lib.rs.
use contract_new_project_tem.Prelude.{ℕ, List, [], ◌∷◌, Outcome, ok, bind, expect}
use contract_new_project_tem.Prelude.Map.{Map, lookup}
use contract_new_project_tem.Multisig.State.{
  MultisigMember, MultiSigRequest, MultiSigRequestWithSigner, MultiSigContract, unwrap_or_zero,
}

unfoldable pub get_num_requests_per_member :
    (MultisigMember → ℕ) → MultisigMember → MultiSigContract → ℕ
get_num_requests_per_member to_string member s =
    unwrap_or_zero (lookup (to_string member) s.num_requests_pk)

unfoldable pub get_members : MultiSigContract → List MultisigMember
get_members s = s.members

unfoldable pub get_request : ℕ → MultiSigContract → Outcome MultiSigRequest
get_request request_id s =
    bind (expect (lookup request_id s.requests) "No such request") λ r. ok r.request

unfoldable pub list_request_ids : MultiSigContract → List ℕ
list_request_ids s = keys s.requests
  where
    keys : Map MultiSigRequestWithSigner → List ℕ
    keys [] = []
    keys ((k, r) ∷ m) = k ∷ keys m

unfoldable pub get_confirmations : ℕ → MultiSigContract → Outcome (List ℕ)
get_confirmations request_id s = expect (lookup request_id s.confirmations) "No such request"

unfoldable pub get_num_confirmations : MultiSigContract → ℕ
get_num_confirmations s = s.num_confirmations

unfoldable pub get_request_nonce : MultiSigContract → ℕ
get_request_nonce s = s.request_nonce
