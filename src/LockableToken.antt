-- ===== src/LockableToken.antt =====
-- lockable-fungible-token/src/lib.rs: a token with allowances and locks.
use contract_new_project_tem.Prelude.{
  ℕ, ◌+◌, ◌-◌, Bool, true, false, not, Option, none, some, List, [], ◌∷◌, ◌==◌, ltb, leb,
  if◌then◌else◌, Outcome, ok, panic, bind, Action, ◌>>=◌, ◌>>◌, gets, lift, modify, require, pure,
  checked_add, u128_mod, settle,
}
use contract_new_project_tem.Prelude.Map.{Map, lookup, insert, remove}
use contract_new_project_tem.Host.{Env, AccountId}
pub mod Worth
pub mod Supply
pub mod Escrow
mod Examples

pub record Account : Type 0 where
  pub balance : ℕ
  pub allowances : Map ℕ
  pub locked_balances : Map ℕ

unfoldable pub default_account : Account
default_account = record { balance = 0; allowances = []; locked_balances = [] }

abbrev pub unwrap_or_zero : Option ℕ → ℕ
unwrap_or_zero none = 0
unwrap_or_zero (some n) = n

-- The methods of `Account`.
unfoldable pub set_allowance : AccountId → ℕ → Account → Account
set_allowance escrow allowance a =
    if ltb 0 allowance
    then record a { allowances = insert escrow allowance a.allowances }
    else record a { allowances = remove escrow a.allowances }

unfoldable pub get_allowance : AccountId → Account → ℕ
get_allowance escrow a = unwrap_or_zero (lookup escrow a.allowances)

unfoldable pub set_locked_balance : AccountId → ℕ → Account → Account
set_locked_balance escrow locked_balance a =
    if ltb 0 locked_balance
    then record a { locked_balances = insert escrow locked_balance a.locked_balances }
    else record a { locked_balances = remove escrow a.locked_balances }

unfoldable pub get_locked_balance : AccountId → Account → ℕ
get_locked_balance escrow a = unwrap_or_zero (lookup escrow a.locked_balances)

-- `values().sum()`.
unfoldable pub add_each : ℕ → Map ℕ → Outcome ℕ
add_each total [] = ok total
add_each total ((k, n) ∷ m) = bind (checked_add u128_mod total n) λ more. add_each more m

unfoldable pub total_balance : Account → Outcome ℕ
total_balance a =
    bind (add_each 0 a.locked_balances) λ locked. checked_add u128_mod a.balance locked

pub record FunToken : Type 0 where
  pub accounts : Map Account
  pub total_supply : ℕ

abbrev pub unwrap_or_default : Option Account → Account
unwrap_or_default none = default_account
unwrap_or_default (some a) = a

unfoldable pub get_account : AccountId → FunToken → Account
get_account owner_id s = unwrap_or_default (lookup owner_id s.accounts)

abbrev pub save : AccountId → Account → FunToken → FunToken
save owner_id a s = record s { accounts = insert owner_id a s.accounts }

unfoldable pub new : AccountId → ℕ → FunToken
new owner_id total_supply =
    save owner_id (record default_account { balance = total_supply })
      (record { accounts = []; total_supply = total_supply })

-- The methods below are `handle_result`: an `Err` rolls the call back, as a panic does.
unfoldable pub approve : Env → AccountId → ℕ → Action FunToken (Unit {0})
approve e escrow_account_id allowance = do
  require (not (escrow_account_id == e.predecessor_account_id)) "Can't set allowance for yourself"
  account ← gets (get_account e.predecessor_account_id)
  let locked_balance = get_locked_balance escrow_account_id account
  require (leb locked_balance allowance)
      "The new allowance can't be less than the amount of locked tokens"
  modify (
      save e.predecessor_account_id
        (set_allowance escrow_account_id (allowance - locked_balance) account))

-- The allowance of an escrow pays; the owner needs none.
unfoldable pub use_allowance : AccountId → AccountId → ℕ → Account → Outcome Account
use_allowance escrow owner_id amount a =
    if escrow == owner_id
    then ok a
    else if ltb (get_allowance escrow a) amount
    then panic "Not enough allowance"
    else ok (set_allowance escrow (get_allowance escrow a - amount) a)

unfoldable pub lock : Env → AccountId → ℕ → Action FunToken (Unit {0})
lock e owner_id lock_amount = do
  require (not (lock_amount == 0)) "Can't lock 0 tokens"
  account ← gets (get_account owner_id)
  require (leb lock_amount account.balance) "Not enough unlocked balance"
  paid ← lift (
      use_allowance e.predecessor_account_id owner_id lock_amount
        (record account { balance = account.balance - lock_amount }))
  locked_balance ←
      lift (checked_add u128_mod (get_locked_balance e.predecessor_account_id paid) lock_amount)
  modify (save owner_id (set_locked_balance e.predecessor_account_id locked_balance paid))

-- An escrow that unlocks gets its allowance back.
unfoldable pub return_allowance : AccountId → AccountId → ℕ → Account → Outcome Account
return_allowance escrow owner_id amount a =
    if escrow == owner_id
    then ok a
    else bind (checked_add u128_mod (get_allowance escrow a) amount)
        λ allowance. ok (set_allowance escrow allowance a)

unfoldable pub unlock : Env → AccountId → ℕ → Action FunToken (Unit {0})
unlock e owner_id unlock_amount = do
  require (not (unlock_amount == 0)) "Can't unlock 0 tokens"
  account ← gets (get_account owner_id)
  let locked_balance = get_locked_balance e.predecessor_account_id account
  require (leb unlock_amount locked_balance) "Not enough locked tokens"
  freed ← lift (
      return_allowance e.predecessor_account_id owner_id unlock_amount
        (set_locked_balance e.predecessor_account_id (locked_balance - unlock_amount) account))
  balance ← lift (checked_add u128_mod freed.balance unlock_amount)
  modify (save owner_id (record freed { balance = balance }))

-- What the locked tokens do not cover comes from the unlocked ones.
unfoldable pub use_unlocked : AccountId → AccountId → ℕ → Account → Outcome Account
use_unlocked escrow owner_id remaining_amount a =
    if ltb 0 remaining_amount
    then if ltb a.balance remaining_amount
      then panic "Not enough unlocked balance"
      else use_allowance escrow owner_id remaining_amount
          (record a { balance = a.balance - remaining_amount })
    else ok a

-- What is left of the locked tokens, and what they do not cover.
unfoldable pub use_locked : AccountId → ℕ → Account → Account × ℕ
use_locked escrow amount a =
    if leb amount (get_locked_balance escrow a)
    then (set_locked_balance escrow (get_locked_balance escrow a - amount) a, 0)
    else (set_locked_balance escrow 0 a, amount - get_locked_balance escrow a)

unfoldable pub transfer_from : Env → AccountId → AccountId → ℕ → Action FunToken (Unit {0})
transfer_from e owner_id new_owner_id amount = do
  require (not (amount == 0)) "Can't transfer 0 tokens"
  account ← gets (get_account owner_id)
  let used = use_locked e.predecessor_account_id amount account
  paid ← lift (use_unlocked e.predecessor_account_id owner_id used.1 used.0)
  modify (save owner_id paid)
  new_account ← gets (get_account new_owner_id)
  balance ← lift (checked_add u128_mod new_account.balance amount)
  modify (save new_owner_id (record new_account { balance = balance }))

unfoldable pub transfer : Env → AccountId → ℕ → Action FunToken (Unit {0})
transfer e new_owner_id amount = transfer_from e e.predecessor_account_id new_owner_id amount

unfoldable pub get_total_supply : FunToken → ℕ
get_total_supply s = s.total_supply

unfoldable pub get_total_balance : AccountId → FunToken → Outcome ℕ
get_total_balance owner_id s = total_balance (get_account owner_id s)

unfoldable pub get_unlocked_balance : AccountId → FunToken → ℕ
get_unlocked_balance owner_id s = (get_account owner_id s).balance

unfoldable pub allowance_of : AccountId → AccountId → FunToken → ℕ
allowance_of owner_id escrow s = get_allowance escrow (get_account owner_id s)

unfoldable pub locked_balance_of : AccountId → AccountId → FunToken → ℕ
locked_balance_of owner_id escrow s = get_locked_balance escrow (get_account owner_id s)

pub data Call : Type 0 where
  approves : AccountId → ℕ → Call
  locks : AccountId → ℕ → Call
  unlocks : AccountId → ℕ → Call
  transfers_from : AccountId → AccountId → ℕ → Call
  transfers : AccountId → ℕ → Call

unfoldable pub apply : Env → Call → Action FunToken (Unit {0})
apply e (approves escrow allowance) = approve e escrow allowance
apply e (locks owner_id amount) = lock e owner_id amount
apply e (unlocks owner_id amount) = unlock e owner_id amount
apply e (transfers_from owner_id new_owner_id amount) = transfer_from e owner_id new_owner_id amount
apply e (transfers new_owner_id amount) = transfer e new_owner_id amount

-- One transaction: a call that fails is rolled back.
unfoldable pub step : FunToken → Env × Call → FunToken
step s (e, c) = settle s (apply e c s)

unfoldable pub run : FunToken → List (Env × Call) → FunToken
run s [] = s
run s (t ∷ ts) = run (step s t) ts
