-- ===== src/LockableToken/Worth.antt =====
-- What the operations of lockable-fungible-token/src/lib.rs on an account make of its tokens.
use contract_new_project_tem.Prelude.{ℕ, ◌+◌, ◌-◌, ◌≤◌, ◌≡◌, ◌==◌, if◌then◌else◌, ok, arith}
use contract_new_project_tem.Prelude.Map.{
  sum, IsMap, lookup-insert, insert-IsMap, remove-IsMap, sum-insert, sum-remove,
}
use contract_new_project_tem.Host.{AccountId}
use contract_new_project_tem.LockableToken.{
  Account, default_account, set_allowance, get_allowance, set_locked_balance, get_locked_balance,
  FunToken, get_account, save, use_allowance, return_allowance, use_unlocked, use_locked,
}

-- The unlocked and the locked tokens of an account.
unfoldable pub worth : Account → ℕ
worth a = a.balance + sum (λ n. n) a.locked_balances

pub set_locked_worth :
    (escrow : AccountId) (n : ℕ) (a : Account)
    → IsMap a.locked_balances
    → (worth (set_locked_balance escrow n a) + get_locked_balance escrow a ≡ worth a + n)
      × IsMap (set_locked_balance escrow n a).locked_balances
unfolding worth set_locked_balance get_locked_balance
set_locked_worth escrow n a h = ground (
  arith,
  sum-insert (λ n. n) escrow n a.locked_balances,
  sum-remove (λ n. n) escrow a.locked_balances h,
  insert-IsMap escrow n a.locked_balances h,
  remove-IsMap escrow a.locked_balances h,
)

pub set_allowance-worth :
    (escrow : AccountId) (n : ℕ) (a : Account)
    → (worth (set_allowance escrow n a) ≡ worth a)
      × ((set_allowance escrow n a).locked_balances ≡ a.locked_balances)
      × ((set_allowance escrow n a).balance ≡ a.balance)
unfolding worth set_allowance
set_allowance-worth escrow n a = ground arith

-- An account that is saved moves the sum by what it changed.
pub save-worth :
    (k : AccountId) (a : Account) (s : FunToken)
    → sum worth (save k a s).accounts + worth (get_account k s) ≡ sum worth s.accounts + worth a
unfolding get_account worth default_account sum
save-worth k a s = ground (arith, sum-insert worth k a s.accounts)

pub get_account-save :
    (j k : AccountId) (a : Account) (s : FunToken)
    → get_account j (save k a s) ≡ (if j == k then a else get_account j s)
unfolding get_account
get_account-save j k a s = ground (arith, lookup-insert j k a s.accounts)

-- The maps list every key once, each account's included, and the accounts together have the supply,
-- but for `n` tokens on their way.
abbrev pub IsBackedBut : ℕ → FunToken → Type 0
IsBackedBut n s =
    IsMap s.accounts
    × ((k : AccountId) → IsMap (get_account k s).locked_balances)
    × (sum worth s.accounts + n ≡ s.total_supply)

pub save-IsBackedBut :
    (n m : ℕ) (k : AccountId) (a : Account) (s : FunToken)
    → IsBackedBut n s
    → IsMap a.locked_balances
    → worth a + m ≡ worth (get_account k s) + n
    → IsBackedBut m (save k a s)
save-IsBackedBut n m k a s h i w = (
  insert-IsMap k a s.accounts h.0,
  (λ j. rw (get_account-save j k a s) (saved_map j)),
  omega (arith, save-worth k a s),
)
  where
    saved_map : (j : AccountId) → IsMap (if j == k then a else get_account j s).locked_balances
    saved_map j = let old = h.1 j in ground arith

pub use_allowance-worth :
    (escrow owner_id : AccountId) (n : ℕ) (a b : Account)
    → use_allowance escrow owner_id n a ≡ ok b
    → (worth b ≡ worth a) × (b.locked_balances ≡ a.locked_balances) × (b.balance ≡ a.balance)
unfolding use_allowance
use_allowance-worth escrow owner_id n a b h =
    ground (arith, set_allowance-worth escrow (get_allowance escrow a - n) a)

pub return_allowance-worth :
    (escrow owner_id : AccountId) (n : ℕ) (a b : Account)
    → return_allowance escrow owner_id n a ≡ ok b
    → (worth b ≡ worth a) × (b.locked_balances ≡ a.locked_balances) × (b.balance ≡ a.balance)
unfolding return_allowance
return_allowance-worth escrow owner_id n a b h =
    ground (arith, set_allowance-worth escrow (get_allowance escrow a + n) a)

-- Fewer unlocked tokens.
pub spent_worth :
    (a : Account) (n : ℕ)
    → n ≤ a.balance
    → worth (record a { balance = a.balance - n }) + n ≡ worth a
unfolding worth
spent_worth a n h = omega arith

pub earned_worth :
    (a : Account) (n : ℕ) → worth (record a { balance = a.balance + n }) ≡ worth a + n
unfolding worth
earned_worth a n = omega arith

pub use_unlocked-worth :
    (escrow owner_id : AccountId) (n : ℕ) (a b : Account)
    → use_unlocked escrow owner_id n a ≡ ok b
    → (worth b + n ≡ worth a) × (b.locked_balances ≡ a.locked_balances)
unfolding use_unlocked
use_unlocked-worth escrow owner_id n a b h = ground (
  arith,
  spent_worth a n,
  use_allowance-worth escrow owner_id n (record a { balance = a.balance - n }) b,
)

pub use_locked-worth :
    (escrow : AccountId) (n : ℕ) (a : Account)
    → IsMap a.locked_balances
    → (worth (use_locked escrow n a).0 + n ≡ worth a + (use_locked escrow n a).1)
      × IsMap (use_locked escrow n a).0.locked_balances
unfolding use_locked
use_locked-worth escrow n a h = ground (
  arith,
  set_locked_worth escrow (get_locked_balance escrow a - n) a h,
  set_locked_worth escrow 0 a h,
)
