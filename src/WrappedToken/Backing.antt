-- ===== src/WrappedToken/Backing.antt =====
-- Every wrapped token of w-unc/src has been paid for.
use contract_new_project_tem.Prelude.{
  ℕ, ◌+◌, ◌-◌, ◌≡◌, ◌≤◌, refl, Bool, true, false, Option, List, [], ◌∷◌, ◌==◌, leb, ltb, String,
  Outcome, ok, panic, Action, ◌>>=◌, pure, Holds, Holds-ok, Holds_mono, Holds_both, settle, arith,
  require-Holds, seq-Holds, Outcome-cases, if-pred, inl, inr,
}
use contract_new_project_tem.Host.{Env, AccountId}
use contract_new_project_tem.WrappedToken.{
  FungibleToken, Contract, on_token, register_and_deposit, unc_deposit, unc_withdraw, ft_transfer,
  ft_transfer_call, ft_resolve_transfer, storage_deposit, storage_withdraw, storage_unregister,
}

-- What the documentation of the SDK's token says of its supply: deposits mint, withdrawals burn, nothing
-- else adds to it; and a registration does not change what registering costs.
pub record SupplyLaws {T : Type 0} (sdk : FungibleToken T) : Type 0 where
  pub registers :
      (a : AccountId) (t : T)
      → Holds
          (λ u. sdk.ft_total_supply u ≡ sdk.ft_total_supply t)
          (sdk.internal_register_account a t)
  pub steady :
      (a : AccountId) (t : T)
      → Holds
          (λ u. sdk.storage_balance_min u ≡ sdk.storage_balance_min t)
          (sdk.internal_register_account a t)
  pub mints :
      (a : AccountId) (n : ℕ) (t : T)
      → Holds (λ u. sdk.ft_total_supply u ≡ sdk.ft_total_supply t + n) (sdk.internal_deposit a n t)
  pub burns :
      (a : AccountId) (n : ℕ) (t : T)
      → Holds (λ u. sdk.ft_total_supply u + n ≡ sdk.ft_total_supply t) (sdk.internal_withdraw a n t)
  pub transfers :
      (e : Env) (a : AccountId) (n : ℕ) (t : T)
      → Holds (λ u. sdk.ft_total_supply u ≡ sdk.ft_total_supply t) (sdk.ft_transfer e a n t)
  pub sends :
      (e : Env) (a : AccountId) (n : ℕ) (m : String) (t : T)
      → Holds (λ u. sdk.ft_total_supply u ≡ sdk.ft_total_supply t) (sdk.ft_transfer_call e a n m t)
  pub resolves :
      (a b : AccountId) (n : ℕ) (t : T)
      → Holds
          (λ r. sdk.ft_total_supply r.1 ≤ sdk.ft_total_supply t)
          (sdk.internal_ft_resolve_transfer a b n t)
  pub stores :
      (e : Env) (a : Option AccountId) (o : Option Bool) (t : T)
      → Holds (λ u. sdk.ft_total_supply u ≡ sdk.ft_total_supply t) (sdk.storage_deposit e a o t)
  pub releases :
      (e : Env) (n : Option ℕ) (t : T)
      → Holds (λ u. sdk.ft_total_supply u ≡ sdk.ft_total_supply t) (sdk.storage_withdraw e n t)
  pub closes :
      (e : Env) (f : Option Bool) (t : T)
      → Holds
          (λ r. sdk.ft_total_supply r.1 ≤ sdk.ft_total_supply t)
          (sdk.internal_storage_unregister e f t)

-- The methods.
pub data Call : Type 0 where
  wraps : Call
  unwraps : ℕ → Call
  transfers_to : AccountId → ℕ → Call
  transfers_and_calls : AccountId → ℕ → String → Call
  resolves_transfer : AccountId → AccountId → ℕ → Call
  deposits_storage : Option AccountId → Option Bool → Call
  withdraws_storage : Option ℕ → Call
  unregisters : Option Bool → Call

-- What has been asked to be paid out.
unfoldable pub paid : List (AccountId × ℕ) → ℕ
paid [] = 0
paid ((a, n) ∷ ts) = n + paid ts

module _ {T : Type 0} (sdk : FungibleToken T) where
  unfoldable pub apply : Env → Call → Action (Contract T) (Unit {0})
  apply e wraps = unc_deposit sdk e
  apply e (unwraps amount) = unc_withdraw sdk e amount
  apply e (transfers_to a n) = ft_transfer sdk e a n
  apply e (transfers_and_calls a n m) = ft_transfer_call sdk e a n m
  apply e (resolves_transfer a b n) = ft_resolve_transfer sdk e a b n >>= λ _. pure tt
  apply e (deposits_storage a o) = storage_deposit sdk e a o
  apply e (withdraws_storage n) = storage_withdraw sdk e n
  apply e (unregisters f) = storage_unregister sdk e f >>= λ _. pure tt

  unfoldable pub run : Contract T → List (Env × Call) → Contract T
  run s [] = s
  run s ((e, c) ∷ ts) = run (settle s (apply e c s)) ts

  -- What a deposit is worth to an account, less the price of the registration if it is a new one.
  abbrev pub worth : Bool → ℕ → ℕ → ℕ
  worth true deposit price = deposit
  worth false deposit price = deposit - price

  -- The native tokens of a call that may be wrapped or paid out: the deposit of a wrapping, without
  -- the price of a registration, and the one that an unwrapping comes with. What pays for storage is
  -- not among them.
  abbrev pub backing : Env → Call → Contract T → ℕ
  backing e wraps s =
      worth (sdk.contains_key e.predecessor_account_id s.token) e.attached_deposit
        (sdk.storage_balance_min s.token)
  backing e (unwraps amount) s = 1
  backing e (transfers_to a n) s = 0
  backing e (transfers_and_calls a n m) s = 0
  backing e (resolves_transfer a b n) s = 0
  backing e (deposits_storage a o) s = 0
  backing e (withdraws_storage n) s = 0
  backing e (unregisters f) s = 0

  -- A call that is rolled back brings nothing.
  abbrev pub kept : ℕ → Outcome (Unit {0} × Contract T) → ℕ
  kept n (ok _) = n
  kept n (panic _) = 0

  unfoldable pub received : Contract T → List (Env × Call) → ℕ
  received s [] = 0
  received s ((e, c) ∷ ts) =
      kept (backing e c s) (apply e c s) + received (settle s (apply e c s)) ts

  -- The wrapped tokens and what was paid out for others.
  abbrev pub owed : Contract T → ℕ
  owed s = sdk.ft_total_supply s.token + paid s.transfers

  module _ (laws : SupplyLaws sdk) where
    -- A call of the token that does not mint.
    on_token-owed :
        (f : T → Outcome T) (n : ℕ) (s : Contract T)
        → Holds (λ u. sdk.ft_total_supply u ≡ sdk.ft_total_supply s.token + n) (f s.token)
        → Holds (λ r. (r.1.transfers ≡ s.transfers) × (owed r.1 ≡ owed s + n)) (on_token sdk f s)
    on_token-owed f n s h = elim (Outcome-cases (f s.token)) [
      | inl (u, eq) ↦ rw (eq, Holds) (refl, omega (arith, Holds-ok _ eq h))
      | inr (x, eq) ↦ rw (eq, Holds) tt
    ]

    on_token_below :
        (f : T → Outcome T) (n bound : ℕ) (s : Contract T)
        → owed s + n ≤ bound
        → Holds (λ u. sdk.ft_total_supply u ≡ sdk.ft_total_supply s.token + n) (f s.token)
        → Holds (λ r. owed r.1 ≤ bound) (on_token sdk f s)
    on_token_below f n bound s below h =
        Holds_mono {Q = λ r. owed r.1 ≤ bound} (on_token sdk f s) (λ r k. omega (arith, k.1, below))
          (on_token-owed f n s h)

    registers_none :
        (a : AccountId) (t : T)
        → Holds
            (λ u. sdk.ft_total_supply u ≡ sdk.ft_total_supply t + 0)
            (sdk.internal_register_account a t)
    registers_none a t =
        Holds_mono (sdk.internal_register_account a t) (λ u h. omega (arith, h))
          (laws.registers a t)

    on_token-min :
        (a : AccountId) (s : Contract T)
        → Holds
            (λ r. sdk.storage_balance_min r.1.token ≡ sdk.storage_balance_min s.token)
            (on_token sdk (sdk.internal_register_account a) s)
    on_token-min a s = elim (Outcome-cases (sdk.internal_register_account a s.token)) [
      | inl (u, eq) ↦ rw (eq, Holds) (Holds-ok _ eq (laws.steady a s.token))
      | inr (x, eq) ↦ rw (eq, Holds) tt
    ]

    burned :
        (a : AccountId) (n : ℕ) (s : Contract T)
        → Holds (λ r. owed r.1 + n ≡ owed s) (on_token sdk (sdk.internal_withdraw a n) s)
    burned a n s = elim (Outcome-cases (sdk.internal_withdraw a n s.token)) [
      | inl (u, eq) ↦ rw (eq, Holds) (omega (arith, Holds-ok _ eq (laws.burns a n s.token)))
      | inr (x, eq) ↦ rw (eq, Holds) tt
    ]

    apply-owed :
        (e : Env) (c : Call) (s : Contract T)
        → Holds (λ r. owed r.1 ≤ owed s + backing e c s) (apply e c s)
    unfolding apply unc_deposit register_and_deposit unc_withdraw paid ft_transfer ft_transfer_call
        storage_deposit storage_withdraw storage_unregister ft_resolve_transfer
    apply-owed e wraps s =
        let owner = e.predecessor_account_id in
        require-Holds _ (ltb 0 e.attached_deposit) "Requires positive attached deposit" _ s λ _.
          if-pred (Holds (λ r. owed r.1 ≤ owed s + backing e wraps s))
            (sdk.contains_key owner s.token) _ _ s
            (λ known.
              on_token_below (sdk.internal_deposit owner e.attached_deposit) e.attached_deposit
                (owed s + backing e wraps s) s (ground (arith, known))
                (laws.mints owner e.attached_deposit s.token))
            (λ unknown.
              require-Holds _ (leb (sdk.storage_balance_min s.token) e.attached_deposit)
                "ERR_DEPOSIT_TOO_SMALL" _ s
                λ _.
                  seq-Holds _ _ (on_token sdk (sdk.internal_register_account owner)) _ s
                    (Holds_both _ _ (on_token sdk (sdk.internal_register_account owner) s)
                      (on_token-owed (sdk.internal_register_account owner) 0 s
                        (registers_none owner s.token))
                      (on_token-min owner s))
                    λ _ t ((same, sum), price).
                      let fee = sdk.storage_balance_min t.token in
                      on_token_below (sdk.internal_deposit owner (e.attached_deposit - fee))
                        (e.attached_deposit - fee) (owed s + backing e wraps s) t
                        (ground (arith, sum, price, unknown))
                        (laws.mints owner (e.attached_deposit - fee) t.token))
    apply-owed e (unwraps amount) s =
        require-Holds _ (e.attached_deposit == 1) "Requires attached deposit of exactly 1 atto" _ s
          λ one.
            seq-Holds _ _ (on_token sdk (sdk.internal_withdraw e.predecessor_account_id amount)) _ s
              (burned e.predecessor_account_id amount s) λ _ t sum. ground (arith, sum, one)
    apply-owed e (transfers_to a n) s = ground (arith, laws.transfers e a n s.token)
    apply-owed e (transfers_and_calls a n m) s = ground (arith, laws.sends e a n m s.token)
    apply-owed e (resolves_transfer a b n) s = ground (arith, laws.resolves a b n s.token)
    apply-owed e (deposits_storage a o) s = ground (arith, laws.stores e a o s.token)
    apply-owed e (withdraws_storage n) s = ground (arith, laws.releases e n s.token)
    apply-owed e (unregisters f) s = ground (arith, laws.closes e f s.token)

    settle-owed :
        (e : Env) (c : Call) (s : Contract T)
        → owed (settle s (apply e c s)) ≤ owed s + kept (backing e c s) (apply e c s)
    settle-owed e c s = elim (Outcome-cases (apply e c s)) [
      | inl (r, eq) ↦ rw (eq) (Holds-ok _ eq (apply-owed e c s))
      | inr (x, eq) ↦ rw (eq) (omega arith)
    ]

    -- Over any history of calls, the supply of wrapped tokens together with all that unwrapping has paid
    -- out grows by no more than the native tokens that calls which went through have brought in to be
    -- wrapped, those that pay for registrations and storage not counted, if the token of the SDK mints
    -- and burns as documented: every wrapped token is backed by a native one that is not needed for
    -- the storage.
    pub run_backed :
        (s : Contract T) (ts : List (Env × Call)) → owed (run s ts) ≤ owed s + received s ts
    unfolding run received
    run_backed s [] = omega arith
    run_backed s ((e, c) ∷ ts) =
        omega (arith, run_backed (settle s (apply e c s)) ts, settle-owed e c s)
