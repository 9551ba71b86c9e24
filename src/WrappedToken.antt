-- ===== src/WrappedToken.antt =====
-- w-unc/src: native tokens wrapped into the token of the SDK, whose code is not in the repository. It is
-- given as a record of the operations that the contract calls, on a type of states.
use contract_new_project_tem.Prelude.{
  ℕ, ◌+◌, ◌-◌, ◌≡◌, ◌≤◌, Bool, true, false, Option, none, some, List, [], ◌∷◌, ◌==◌, leb, ltb,
  if◌then◌else◌, String, Outcome, ok, panic, bind, Action, ◌>>=◌, ◌>>◌, gets, lift, modify, require,
  pure, checked_add, u128_mod, Holds, settle,
}
use contract_new_project_tem.Host.{Env, AccountId}
pub mod Backing
mod Examples

-- `FungibleToken` of the SDK.
pub record FungibleToken (T : Type 0) : Type 0 where
  pub contains_key : AccountId → T → Bool
  pub storage_balance_min : T → ℕ
  pub ft_total_supply : T → ℕ
  pub ft_balance_of : AccountId → T → ℕ
  pub internal_register_account : AccountId → T → Outcome T
  pub internal_deposit : AccountId → ℕ → T → Outcome T
  pub internal_withdraw : AccountId → ℕ → T → Outcome T
  pub ft_transfer : Env → AccountId → ℕ → T → Outcome T
  pub ft_transfer_call : Env → AccountId → ℕ → String → T → Outcome T
  pub internal_ft_resolve_transfer : AccountId → AccountId → ℕ → T → Outcome ((ℕ × ℕ) × T)
  pub storage_deposit : Env → Option AccountId → Option Bool → T → Outcome T
  pub storage_withdraw : Env → Option ℕ → T → Outcome T
  pub internal_storage_unregister : Env → Option Bool → T → Outcome (Option (AccountId × ℕ) × T)

-- The transfers that `unc_withdraw` has asked for are kept with their receivers, the newest first.
pub record Contract (T : Type 0) : Type 0 where
  pub token : T
  pub transfers : List (AccountId × ℕ)

module _ {T : Type 0} (sdk : FungibleToken T) where
  -- A call of the SDK's token.
  abbrev pub on_token : (T → Outcome T) → Action (Contract T) (Unit {0})
  on_token f s = elim (f s.token) [ ok u ↦ ok (tt, record s { token = u }) | panic m ↦ panic m ]

  -- The branch of `unc_deposit` for an account that is not registered.
  unfoldable pub register_and_deposit : Env → Action (Contract T) (Unit {0})
  register_and_deposit e = do
    min ← gets (λ s. sdk.storage_balance_min s.token)
    require (leb min e.attached_deposit) "ERR_DEPOSIT_TOO_SMALL"
    on_token (sdk.internal_register_account e.predecessor_account_id)
    fee ← gets (λ s. sdk.storage_balance_min s.token)
    on_token (sdk.internal_deposit e.predecessor_account_id (e.attached_deposit - fee))

  unfoldable pub unc_deposit : Env → Action (Contract T) (Unit {0})
  unc_deposit e = do
    require (ltb 0 e.attached_deposit) "Requires positive attached deposit"
    known ← gets (λ s. sdk.contains_key e.predecessor_account_id s.token)
    (if known
        then on_token (sdk.internal_deposit e.predecessor_account_id e.attached_deposit)
        else register_and_deposit e)

  unfoldable pub unc_withdraw : Env → ℕ → Action (Contract T) (Unit {0})
  unc_withdraw e amount = do
    require (e.attached_deposit == 1) "Requires attached deposit of exactly 1 atto"
    on_token (sdk.internal_withdraw e.predecessor_account_id amount)
    sum ← lift (checked_add u128_mod amount 1)
    modify (λ s. record s { transfers = (e.predecessor_account_id, sum) ∷ s.transfers })

  unfoldable pub ft_transfer : Env → AccountId → ℕ → Action (Contract T) (Unit {0})
  ft_transfer e receiver_id amount = on_token (sdk.ft_transfer e receiver_id amount)

  unfoldable pub ft_transfer_call : Env → AccountId → ℕ → String → Action (Contract T) (Unit {0})
  ft_transfer_call e receiver_id amount msg =
      on_token (sdk.ft_transfer_call e receiver_id amount msg)

  unfoldable pub ft_total_supply : Contract T → ℕ
  ft_total_supply s = sdk.ft_total_supply s.token

  unfoldable pub ft_balance_of : AccountId → Contract T → ℕ
  ft_balance_of account_id s = sdk.ft_balance_of account_id s.token

  -- A private method; the burned amount is only logged.
  unfoldable pub ft_resolve_transfer : Env → AccountId → AccountId → ℕ → Action (Contract T) ℕ
  ft_resolve_transfer e sender_id receiver_id amount s =
      if e.predecessor_account_id == e.current_account_id
      then (bind (sdk.internal_ft_resolve_transfer sender_id receiver_id amount s.token)
          λ r. ok (r.0.0, record s { token = r.1 }))
      else panic "Method is private"

  unfoldable pub storage_deposit :
      Env → Option AccountId → Option Bool → Action (Contract T) (Unit {0})
  storage_deposit e account_id registration_only =
      on_token (sdk.storage_deposit e account_id registration_only)

  unfoldable pub storage_withdraw : Env → Option ℕ → Action (Contract T) (Unit {0})
  storage_withdraw e amount = on_token (sdk.storage_withdraw e amount)

  abbrev pub closed : Option (AccountId × ℕ) → Bool
  closed none = false
  closed (some _) = true

  unfoldable pub storage_unregister : Env → Option Bool → Action (Contract T) Bool
  storage_unregister e force s =
      bind (sdk.internal_storage_unregister e force s.token)
        λ r. ok (closed r.0, record s { token = r.1 })
