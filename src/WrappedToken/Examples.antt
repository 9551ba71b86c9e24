-- ===== src/WrappedToken/Examples.antt =====
-- Runs of w-unc/src with a small token in the place of the SDK's.
use contract_new_project_tem.Prelude.{
  ℕ, ◌+◌, ◌-◌, ◌≡◌, ◌≤◌, refl, Bool, true, false, Option, none, some, List, [], ◌∷◌, Outcome, ok,
  panic, bind, Holds, arith, leb, if◌then◌else◌, bind-Holds, Holds_mono, Holds-ok,
}
use contract_new_project_tem.Prelude.Map.{Map, lookup, insert, sum, sum-insert}
use contract_new_project_tem.Host.{Env, AccountId}
use contract_new_project_tem.Samples.{call_by}
use contract_new_project_tem.WrappedToken.{
  FungibleToken, Contract, unc_deposit, unc_withdraw, register_and_deposit,
}
use contract_new_project_tem.WrappedToken.Backing.{
  SupplyLaws, Call, wraps, unwraps, apply, run, received, owed, run_backed,
}

-- The balances of the accounts.
abbrev Ledger : Type 0
Ledger = Map ℕ

abbrev total : Ledger → ℕ
total t = sum (λ n. n) t

abbrev balance : Option ℕ → ℕ
balance none = 0
balance (some n) = n

abbrev is_known : Option ℕ → Bool
is_known none = false
is_known (some n) = true

abbrev register : AccountId → Ledger → Outcome Ledger
register a t =
    if is_known (lookup a t) then panic "The account is already registered" else ok (insert a 0 t)

abbrev credit : AccountId → ℕ → Ledger → Outcome Ledger
credit a n t =
    if is_known (lookup a t)
    then ok (insert a (balance (lookup a t) + n) t)
    else panic "The account is not registered"

abbrev debit : AccountId → ℕ → Ledger → Outcome Ledger
debit a n t =
    if leb n (balance (lookup a t))
    then ok (insert a (balance (lookup a t) - n) t)
    else panic "The account doesn't have enough balance"

abbrev move : AccountId → AccountId → ℕ → Ledger → Outcome Ledger
move a b n t = bind (debit a n t) λ u. credit b n u

abbrev ledger : FungibleToken Ledger
ledger = record {
  contains_key = λ a t. is_known (lookup a t);
  storage_balance_min = λ t. 25;
  ft_total_supply = total;
  ft_balance_of = λ a t. balance (lookup a t);
  internal_register_account = register;
  internal_deposit = credit;
  internal_withdraw = debit;
  ft_transfer = λ e b n t. move e.predecessor_account_id b n t;
  ft_transfer_call = λ e b n m t. move e.predecessor_account_id b n t;
  internal_ft_resolve_transfer = λ a b n t. ok ((n, 0), t);
  storage_deposit = λ e a o t. ok t;
  storage_withdraw = λ e n t. ok t;
  internal_storage_unregister = λ e f t. ok (none, t);
}

credit_mints :
    (a : AccountId) (n : ℕ) (t : Ledger) → Holds (λ u. total u ≡ total t + n) (credit a n t)
credit_mints a n t = ground (arith, sum-insert (λ m. m) a (balance (lookup a t) + n) t)

debit_burns :
    (a : AccountId) (n : ℕ) (t : Ledger) → Holds (λ u. total u + n ≡ total t) (debit a n t)
debit_burns a n t = ground (arith, sum-insert (λ m. m) a (balance (lookup a t) - n) t)

register_keeps : (a : AccountId) (t : Ledger) → Holds (λ u. total u ≡ total t) (register a t)
register_keeps a t = ground (arith, sum-insert (λ m. m) a 0 t)

move_keeps : (a b : AccountId) (n : ℕ) (t : Ledger) → Holds (λ u. total u ≡ total t) (move a b n t)
move_keeps a b n t = bind-Holds _ (debit a n t) _ λ u eq.
    Holds_mono {Q = λ w. total w ≡ total t} (credit b n u)
      (λ w h. omega (arith, h, Holds-ok (λ x. total x + n ≡ total t) eq (debit_burns a n t)))
      (credit_mints b n u)

steady_price :
    (a : AccountId) (t : Ledger)
    → Holds (λ u. ledger.storage_balance_min u ≡ ledger.storage_balance_min t) (register a t)
steady_price a t = ground arith

ledger-SupplyLaws : SupplyLaws ledger
ledger-SupplyLaws = record {
  registers = register_keeps;
  steady = λ a t. steady_price a t;
  mints = credit_mints;
  burns = debit_burns;
  transfers = λ e b n t. move_keeps e.predecessor_account_id b n t;
  sends = λ e b n m t. move_keeps e.predecessor_account_id b n t;
  resolves = λ a b n t. omega arith;
  stores = λ e a o t. refl;
  releases = λ e n t. refl;
  closes = λ e f t. omega arith;
}

abbrev paying : ℕ → ℕ → Env
paying caller deposit = record (call_by caller) { attached_deposit = deposit }

abbrev wrapped : Contract Ledger
wrapped = record { token = (5, 70) ∷ []; transfers = [] }

-- Account 6 registers and wraps 75 tokens, account 5 takes 30 out, account 7 has too little to register.
abbrev history : List (Env × Call)
history = (paying 6 100, wraps) ∷ (paying 5 1, unwraps 30) ∷ (paying 7 20, wraps) ∷ []

history_runs :
    ((run ledger wrapped history).token ≡ (5, 40) ∷ (6, 75) ∷ [])
    × ((run ledger wrapped history).transfers ≡ (5, 31) ∷ [])
unfolding run apply unc_deposit unc_withdraw register_and_deposit lookup insert
history_runs = (refl, refl)

run_backed_example :
    owed ledger (run ledger wrapped history) ≤ owed ledger wrapped + received ledger wrapped history
run_backed_example = run_backed ledger ledger-SupplyLaws wrapped history
