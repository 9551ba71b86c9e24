-- ===== src/LockableToken/Supply.antt =====
-- The tokens of lockable-fungible-token/src/lib.rs: none is made or lost.
use contract_new_project_tem.Prelude.{
  ℕ, ◌+◌, ◌-◌, ◌≤◌, ◌<◌, ◌≡◌, refl, List, [], ◌∷◌, ok, arith, ◌∙◌, Holds, Outcome-cases, inl, inr,
  settle, settle-Holds, u128_mod,
}
use contract_new_project_tem.Prelude.Map.{Map, lookup, insert, sum, at_key-le-sum}
use contract_new_project_tem.Host.{Env, AccountId}
use contract_new_project_tem.LockableToken.{
  Account, default_account, set_allowance, set_locked_balance, get_locked_balance, FunToken,
  get_account, save, new, approve, use_allowance, lock, return_allowance, unlock, use_unlocked,
  use_locked, transfer_from, transfer, Call, approves, locks, unlocks, transfers_from, transfers,
  apply, step, run, add_each, total_balance, get_total_supply, get_total_balance,
}
use contract_new_project_tem.LockableToken.Worth.{
  set_locked_worth, set_allowance-worth, save-IsBackedBut, use_allowance-worth,
  return_allowance-worth, spent_worth, earned_worth, use_unlocked-worth, use_locked-worth, worth,
  IsBackedBut,
}

approve-IsBacked :
    (e : Env) (escrow : AccountId) (n : ℕ) (s : FunToken)
    → IsBackedBut 0 s
    → Holds (λ r. IsBackedBut 0 r.1) (approve e escrow n s)
unfolding approve
approve-IsBacked e escrow n s h =
    let a = get_account e.predecessor_account_id s in
    let w = set_allowance-worth escrow (n - get_locked_balance escrow a) a in
    let i = h.1 e.predecessor_account_id in
    ground (
      arith,
      save-IsBackedBut 0 0 e.predecessor_account_id
          (set_allowance escrow (n - get_locked_balance escrow a) a) s h,
    )

lock-IsBacked :
    (e : Env) (owner_id : AccountId) (n : ℕ) (s : FunToken)
    → IsBackedBut 0 s
    → Holds (λ r. IsBackedBut 0 r.1) (lock e owner_id n s)
unfolding lock
lock-IsBacked e owner_id n s h =
    let a = get_account owner_id s in
    let p = e.predecessor_account_id in
    elim (Outcome-cases (use_allowance p owner_id n (record a { balance = a.balance - n }))) [
      | inr (m, stopped) ↦ ground arith
      | inl (b, paid) ↦
          let u = use_allowance-worth p owner_id n (record a { balance = a.balance - n }) b paid in
          let i = h.1 owner_id in
          ground (
            arith,
            spent_worth a n,
            set_locked_worth p (get_locked_balance p b + n) b,
            save-IsBackedBut 0 0 owner_id (set_locked_balance p (get_locked_balance p b + n) b) s h,
          )
    ]

unlock-IsBacked :
    (e : Env) (owner_id : AccountId) (n : ℕ) (s : FunToken)
    → IsBackedBut 0 s
    → Holds (λ r. IsBackedBut 0 r.1) (unlock e owner_id n s)
unfolding unlock
unlock-IsBacked e owner_id n s h =
    let a = get_account owner_id s in
    let p = e.predecessor_account_id in
    let c = set_locked_balance p (get_locked_balance p a - n) a in
    elim (Outcome-cases (return_allowance p owner_id n c)) [
      | inr (m, stopped) ↦ ground arith
      | inl (b, freed) ↦
          let u = return_allowance-worth p owner_id n c b freed in
          let i = set_locked_worth p (get_locked_balance p a - n) a (h.1 owner_id) in
          ground (
            arith,
            earned_worth b n,
            save-IsBackedBut 0 0 owner_id (record b { balance = b.balance + n }) s h,
          )
    ]

transfer_from-IsBacked :
    (e : Env) (owner_id new_owner_id : AccountId) (n : ℕ) (s : FunToken)
    → IsBackedBut 0 s
    → Holds (λ r. IsBackedBut 0 r.1) (transfer_from e owner_id new_owner_id n s)
unfolding transfer_from
transfer_from-IsBacked e owner_id new_owner_id n s h =
    let a = get_account owner_id s in
    let p = e.predecessor_account_id in
    let used = use_locked p n a in
    let l = use_locked-worth p n a (h.1 owner_id) in
    elim (Outcome-cases (use_unlocked p owner_id used.1 used.0)) [
      | inr (m, stopped) ↦ ground arith
      | inl (b, paid) ↦
          let u = use_unlocked-worth p owner_id used.1 used.0 b paid in
          let out = save-IsBackedBut 0 n owner_id b s h (rw u.1 l.1) (omega arith) in
          let d = get_account new_owner_id (save owner_id b s) in
          ground (
            arith,
            earned_worth d n,
            out.1 new_owner_id,
            save-IsBackedBut n 0 new_owner_id (record d { balance = d.balance + n })
                (save owner_id b s) out,
          )
    ]

apply-IsBacked :
    (e : Env) (c : Call) (s : FunToken)
    → IsBackedBut 0 s
    → Holds (λ r. IsBackedBut 0 r.1) (apply e c s)
unfolding apply transfer
apply-IsBacked e (approves escrow n) s h = approve-IsBacked e escrow n s h
apply-IsBacked e (locks owner_id n) s h = lock-IsBacked e owner_id n s h
apply-IsBacked e (unlocks owner_id n) s h = unlock-IsBacked e owner_id n s h
apply-IsBacked e (transfers_from owner_id to n) s h = transfer_from-IsBacked e owner_id to n s h
apply-IsBacked e (transfers to n) s h = transfer_from-IsBacked e e.predecessor_account_id to n s h

apply_supply :
    (e : Env) (c : Call) (s : FunToken)
    → Holds (λ r. r.1.total_supply ≡ s.total_supply) (apply e c s)
unfolding apply transfer approve lock unlock transfer_from
apply_supply e (approves escrow n) s = ground arith
apply_supply e (locks owner_id n) s = ground arith
apply_supply e (unlocks owner_id n) s = ground arith
apply_supply e (transfers_from owner_id to n) s = ground arith
apply_supply e (transfers to n) s = ground arith

run-IsBacked :
    (ts : List (Env × Call)) (s : FunToken)
    → IsBackedBut 0 s
    → IsBackedBut 0 (run s ts) × ((run s ts).total_supply ≡ s.total_supply)
unfolding run step
run-IsBacked [] s h = (h, refl)
run-IsBacked ((e, c) ∷ ts) s h =
    let b = settle-Holds (IsBackedBut 0) s (apply e c s) h (apply-IsBacked e c s h) in
    let t =
      settle-Holds (λ t. t.total_supply ≡ s.total_supply) s (apply e c s) refl
        (apply_supply e c s) in
    let ih = run-IsBacked ts (settle s (apply e c s)) b in (ih.0, ih.1 ∙ t)

new-IsBacked : (owner_id : AccountId) (supply : ℕ) → IsBackedBut 0 (new owner_id supply)
unfolding new default_account get_account worth sum lookup insert
new-IsBacked owner_id supply = ((refl, tt), (λ k. ground arith), omega arith)

-- The sum of an account does not overflow while it fits.
add_each-sum :
    (m : Map ℕ) (n : ℕ) → n + sum (λ k. k) m < u128_mod → add_each n m ≡ ok (n + sum (λ k. k) m)
unfolding add_each sum
add_each-sum [] n h = ground arith
add_each-sum ((k, v) ∷ m) n h = ground (arith, add_each-sum m (n + v))

total_balance-worth : (a : Account) → worth a < u128_mod → total_balance a ≡ ok (worth a)
unfolding total_balance worth
total_balance-worth a h = ground (arith, add_each-sum a.locked_balances 0)

-- After any history of calls on a new token, the unlocked and locked tokens of all accounts together are
-- the supply that it was made with, and the total balance of every account can be read.
pub new-run-IsBacked :
    (owner_id : AccountId) (supply : ℕ) (ts : List (Env × Call)) (k : AccountId)
    → supply < u128_mod
    → (sum worth (run (new owner_id supply) ts).accounts ≡ supply)
      × (get_total_supply (run (new owner_id supply) ts) ≡ supply)
      × (get_total_balance k (run (new owner_id supply) ts)
          ≡ ok (worth (get_account k (run (new owner_id supply) ts))))
unfolding get_total_supply get_total_balance get_account new worth default_account sum
new-run-IsBacked owner_id supply ts k h =
    let t = run (new owner_id supply) ts in
    let r = run-IsBacked ts (new owner_id supply) (new-IsBacked owner_id supply) in
    let same = r.1 ∙ new_supply in
    let le = account_worth k t in
    (omega arith, same, total_balance-worth (get_account k t) (omega arith))
  where
    new_supply : (new owner_id supply).total_supply ≡ supply
    new_supply = refl

    account_worth : (k : AccountId) (s : FunToken) → worth (get_account k s) ≤ sum worth s.accounts
    account_worth k s = ground (arith, at_key-le-sum worth k s.accounts)
