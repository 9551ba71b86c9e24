-- ===== src/Airdrop.antt =====
-- airdrop/src/lib.rs and models.rs: tokens held for whoever has a key.
use contract_new_project_tem.Prelude.{
  ℕ, ◌+◌, ◌-◌, Bool, true, false, not, ◌||◌, Option, none, some, List, [], ◌∷◌, ◌++◌, ◌==◌, ltb,
  String, Outcome, ok, bind, ensure, expect, Action, ◌>>=◌, ◌>>◌, gets, lift, modify, require, pure,
  saturating_add, saturating_sub, u128_mod, if◌then◌else◌, settle, ◌⊎◌, inl, inr,
}
use contract_new_project_tem.Prelude.Map.{Map, lookup, insert, remove}
use contract_new_project_tem.Host.{
  Env, AccountId, PublicKey, Promise, PromiseAction, PromiseResult, successful, failed,
}
pub mod Transfers
pub mod Funds
pub mod Claims
mod Examples

pub record KeyInfo : Type 0 where
  pub balance : ℕ

pub record LimitedAccessKey : Type 0 where
  pub public_key : PublicKey
  pub allowance : ℕ
  pub receiver_id : AccountId
  pub method_names : String

pub record CreateAccountOptions : Type 0 where
  pub full_access_keys : Option (List PublicKey)
  pub limited_access_keys : Option (List LimitedAccessKey)
  pub contract_bytes : Option ℕ

-- The methods of `ExtAirDrop`, which promises call back.
pub data Callback : Type 0 where
  account_created : AccountId → ℕ → Callback
  account_created_and_claimed : ℕ → Callback

pub record AirDrop : Type 0 where
  pub accounts : Map ℕ
  pub promises : List (Promise Callback)

abbrev pub access_key_allowance : ℕ
access_key_allowance = 1_000_000_000_000_000_000_000_000

abbrev pub access_key_method_names : String
access_key_method_names = "claim,create_account_and_claim"

unfoldable pub is_promise_success : List PromiseResult → Outcome Bool
is_promise_success (successful ∷ []) = ok true
is_promise_success (failed ∷ []) = ok false
is_promise_success results =
    bind (ensure false "Contract expected a result on the callback") λ _. ok false

-- A new promise is the head of the list.
abbrev pub create_promise : AccountId → List PromiseAction → Option Callback → AirDrop → AirDrop
create_promise receiver_id actions callback s = record s {
  promises =
      record { receiver_id = receiver_id; actions = actions; callback = callback } ∷ s.promises;
}

unfoldable pub new : AirDrop
new = record { accounts = []; promises = [] }

abbrev pub unwrap_or_zero : Option ℕ → ℕ
unwrap_or_zero none = 0
unwrap_or_zero (some n) = n

unfoldable pub send : Env → PublicKey → Action AirDrop (Unit {0})
send e public_key = do
  require (ltb access_key_allowance e.attached_deposit)
      "Attached deposit must be greater than ACCESS_KEY_ALLOWANCE"
  value ← gets (λ s. unwrap_or_zero (lookup public_key s.accounts))
  modify (λ s. record s {
    accounts =
        insert public_key
          (saturating_sub (saturating_add u128_mod value e.attached_deposit) access_key_allowance)
          s.accounts;
  })
  modify (
      create_promise e.current_account_id
        (PromiseAction.add_access_key_allowance public_key access_key_allowance e.current_account_id
            access_key_method_names
          ∷ [])
        none)

unfoldable pub claim : Env → AccountId → Action AirDrop (Unit {0})
claim e account_id = do
  require (e.predecessor_account_id == e.current_account_id) "Claim only can come from this account"
  require (e.is_valid_account_id account_id) "Invalid account id"
  found ← gets (λ s. lookup e.signer_account_pk s.accounts)
  modify (λ s. record s { accounts = remove e.signer_account_pk s.accounts })
  amount ← lift (expect found "Unexpected public key")
  modify
      (create_promise e.current_account_id (PromiseAction.delete_key e.signer_account_pk ∷ []) none)
  modify (create_promise account_id (PromiseAction.transfer amount ∷ []) none)

unfoldable pub create_account_and_claim : Env → AccountId → PublicKey → Action AirDrop (Unit {0})
create_account_and_claim e new_account_id new_public_key = do
  require (e.predecessor_account_id == e.current_account_id)
      "Create account and claim only can come from this account"
  require (e.is_valid_account_id new_account_id) "Invalid account id"
  found ← gets (λ s. lookup e.signer_account_pk s.accounts)
  modify (λ s. record s { accounts = remove e.signer_account_pk s.accounts })
  amount ← lift (expect found "Unexpected public key")
  modify (
      create_promise new_account_id
        (PromiseAction.create_account
          ∷ PromiseAction.add_full_access_key new_public_key
          ∷ PromiseAction.transfer amount
          ∷ [])
        (some (account_created_and_claimed amount)))

unfoldable pub create_account : Env → AccountId → PublicKey → Action AirDrop (Unit {0})
create_account e new_account_id new_public_key = do
  require (e.is_valid_account_id new_account_id) "Invalid account id"
  modify (
      create_promise new_account_id
        (PromiseAction.create_account
          ∷ PromiseAction.add_full_access_key new_public_key
          ∷ PromiseAction.transfer e.attached_deposit
          ∷ [])
        (some (account_created e.predecessor_account_id e.attached_deposit)))

abbrev pub is_some : {A : Type 0} → Option A → Bool
is_some none = false
is_some (some _) = true

-- The loops of `create_account_advanced`.
unfoldable pub add_full_keys : List PublicKey → List PromiseAction
add_full_keys [] = []
add_full_keys (key ∷ keys) = PromiseAction.add_full_access_key key ∷ add_full_keys keys

unfoldable pub add_limited_keys : List LimitedAccessKey → List PromiseAction
add_limited_keys [] = []
add_limited_keys (key_info ∷ keys) =
    PromiseAction.add_access_key_allowance key_info.public_key key_info.allowance
      key_info.receiver_id key_info.method_names
    ∷ add_limited_keys keys

-- The actions that the options ask for, in their order.
unfoldable pub option_actions : CreateAccountOptions → List PromiseAction
option_actions options =
    elim options.full_access_keys [ none ↦ [] | some keys ↦ add_full_keys keys ]
    ++ (elim options.limited_access_keys [ none ↦ [] | some keys ↦ add_limited_keys keys ]
        ++ elim options.contract_bytes [
          | none ↦ []
          | some bytes ↦ PromiseAction.deploy_contract bytes ∷ []
        ])

unfoldable pub create_account_advanced :
    Env → AccountId → CreateAccountOptions → Action AirDrop (Unit {0})
create_account_advanced e new_account_id options = do
  require
      (is_some options.contract_bytes
        || is_some options.full_access_keys
        || is_some options.limited_access_keys)
      "Cannot create account with no options. Please specify either contract bytes, full access keys, or limited access keys."
  modify (
      create_promise new_account_id
        (PromiseAction.create_account
          ∷ PromiseAction.transfer e.attached_deposit
          ∷ option_actions options)
        (some (account_created e.predecessor_account_id e.attached_deposit)))

unfoldable pub on_account_created : Env → AccountId → ℕ → Action AirDrop Bool
on_account_created e predecessor_account_id amount = do
  require (e.predecessor_account_id == e.current_account_id)
      "Callback can only be called from the contract"
  creation_succeeded ← lift (is_promise_success e.promise_results)
  (if creation_succeeded
      then pure tt
      else modify (create_promise predecessor_account_id (PromiseAction.transfer amount ∷ []) none))
  pure creation_succeeded

unfoldable pub on_account_created_and_claimed : Env → ℕ → Action AirDrop Bool
on_account_created_and_claimed e amount = do
  require (e.predecessor_account_id == e.current_account_id)
      "Callback can only be called from the contract"
  creation_succeeded ← lift (is_promise_success e.promise_results)
  (if creation_succeeded
      then modify (
          create_promise e.current_account_id (PromiseAction.delete_key e.signer_account_pk ∷ [])
            none)
      else modify (λ s. record s { accounts = insert e.signer_account_pk amount s.accounts }))
  pure creation_succeeded

unfoldable pub get_key_balance : PublicKey → AirDrop → Outcome ℕ
get_key_balance key s = expect (lookup key s.accounts) "Key is missing"

-- A `Result`: the right summand is the error.
unfoldable pub get_key_information : PublicKey → AirDrop → KeyInfo ⊎ String
get_key_information key s = elim (lookup key s.accounts) [
  | some balance ↦ inl (record { balance = balance })
  | none ↦ inr "Key is missing"
]

-- The methods that change state, the callbacks included.
pub data Call : Type 0 where
  send_to : PublicKey → Call
  claim_to : AccountId → Call
  claim_new : AccountId → PublicKey → Call
  create : AccountId → PublicKey → Call
  create_advanced : AccountId → CreateAccountOptions → Call
  created : AccountId → ℕ → Call
  created_and_claimed : ℕ → Call

unfoldable pub apply : Env → Call → Action AirDrop (Unit {0})
apply e (send_to key) = send e key
apply e (claim_to account_id) = claim e account_id
apply e (claim_new account_id key) = create_account_and_claim e account_id key
apply e (create account_id key) = create_account e account_id key
apply e (create_advanced account_id options) = create_account_advanced e account_id options
apply e (created account_id amount) = on_account_created e account_id amount >>= λ _. pure tt
apply e (created_and_claimed amount) = on_account_created_and_claimed e amount >>= λ _. pure tt

-- One transaction: a call that panics is rolled back.
unfoldable pub step : AirDrop → Env × Call → AirDrop
step s (e, c) = settle s (apply e c s)

unfoldable pub run : AirDrop → List (Env × Call) → AirDrop
run s [] = s
run s (t ∷ ts) = run (step s t) ts
