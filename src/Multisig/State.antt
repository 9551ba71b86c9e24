-- ===== src/Multisig/State.antt =====
-- The data of multisig/src/lib.rs and the operations on its sets and maps.
use Prim.Native.String.{◌++◌ as ◌^^◌}
use contract_new_project_tem.Prelude.{
  ℕ, Bool, true, false, ◌||◌, Option, none, some, List, [], ◌∷◌, String, ◌==◌, if◌then◌else◌,
}
use contract_new_project_tem.Prelude.Map.{Map}
use contract_new_project_tem.Host.{AccountId, PublicKey, Promise}

pub data MultisigMember : Type 0 where
  access_key : PublicKey → MultisigMember
  account : AccountId → MultisigMember

unfoldable pub same_member : MultisigMember → MultisigMember → Bool
same_member (access_key k) (access_key l) = k == l
same_member (access_key k) (account b) = false
same_member (account a) (access_key l) = false
same_member (account a) (account b) = a == b

pub record FunctionCallPermission : Type 0 where
  pub allowance : Option ℕ
  pub receiver_id : AccountId
  pub method_names : List String

pub data MultiSigRequestAction : Type 0 where
  transfer : ℕ → MultiSigRequestAction
  create_account : MultiSigRequestAction
  deploy_contract : ℕ → MultiSigRequestAction
  add_member : MultisigMember → MultiSigRequestAction
  delete_member : MultisigMember → MultiSigRequestAction
  add_key : PublicKey → Option FunctionCallPermission → MultiSigRequestAction
  function_call : String → ℕ → ℕ → ℕ → MultiSigRequestAction
  set_num_confirmations : ℕ → MultiSigRequestAction
  set_active_requests_limit : ℕ → MultiSigRequestAction

pub record MultiSigRequest : Type 0 where
  pub receiver_id : AccountId
  pub actions : List MultiSigRequestAction

pub record MultiSigRequestWithSigner : Type 0 where
  pub request : MultiSigRequest
  pub member : MultisigMember
  pub added_timestamp : ℕ

-- The keys of `confirmations` and `num_requests_pk` are members in JSON, which are only compared.
pub record MultiSigContract : Type 0 where
  pub members : List MultisigMember
  pub num_confirmations : ℕ
  pub request_nonce : ℕ
  pub requests : Map MultiSigRequestWithSigner
  pub confirmations : Map (List ℕ)
  pub num_requests_pk : Map ℕ
  pub active_requests_limit : ℕ
  pub promises : List (Promise ⊥)

abbrev pub default_allowance : ℕ
default_allowance = 0

abbrev pub request_cooldown : ℕ
request_cooldown = 900_000_000_000

abbrev pub active_requests_limit_default : ℕ
active_requests_limit_default = 12

abbrev pub multisig_method_names : String
multisig_method_names = "add_request,delete_request,confirm,add_and_confirm_request"

-- The result of `execute_request` and `confirm`.
pub data PromiseOrValue : Type 0 where
  value : Bool → PromiseOrValue
  promise : PromiseOrValue

-- `IterableSet<MultisigMember>`.
unfoldable pub has_member : MultisigMember → List MultisigMember → Bool
has_member m [] = false
has_member m (x ∷ xs) = same_member m x || has_member m xs

unfoldable pub insert_member : MultisigMember → List MultisigMember → List MultisigMember
insert_member m xs = if has_member m xs then xs else m ∷ xs

unfoldable pub remove_member : MultisigMember → List MultisigMember → List MultisigMember
remove_member m [] = []
remove_member m (x ∷ xs) =
    let rest = remove_member m xs in if same_member m x then rest else x ∷ rest

-- `HashSet<String>`.
unfoldable pub has_key : ℕ → List ℕ → Bool
has_key k [] = false
has_key k (x ∷ xs) = k == x || has_key k xs

unfoldable pub insert_key : ℕ → List ℕ → List ℕ
insert_key k xs = if has_key k xs then xs else k ∷ xs

abbrev pub unwrap_or_zero : Option ℕ → ℕ
unwrap_or_zero none = 0
unwrap_or_zero (some n) = n

abbrev pub is_some : {A : Type 0} → Option A → Bool
is_some none = false
is_some (some _) = true

-- `method_names.join(",")`.
unfoldable pub join : List String → String
join [] = ""
join (s ∷ []) = s
join (s ∷ t ∷ rest) = s ^^ ("," ^^ join (t ∷ rest))
