-- ===== src/LockableToken/Escrow.antt =====
-- What others can do with an account of lockable-fungible-token/src/lib.rs.
use contract_new_project_tem.Prelude.{
  ℕ, ◌+◌, ◌-◌, ◌≤◌, ◌≡◌, false, ◌==◌, if◌then◌else◌, ok, arith, Holds, Outcome-cases, inl, inr,
}
use contract_new_project_tem.Prelude.Map.{IsMap, lookup-insert, lookup-remove}
use contract_new_project_tem.Host.{Env, AccountId}
use contract_new_project_tem.LockableToken.{
  Account, set_allowance, get_allowance, set_locked_balance, get_locked_balance, FunToken,
  get_account, save, approve, use_allowance, lock, return_allowance, unlock, use_unlocked,
  use_locked, transfer_from, transfer, Call, approves, locks, unlocks, transfers_from, transfers,
  apply,
}
use contract_new_project_tem.LockableToken.Worth.{
  worth, get_account-save, set_locked_worth, set_allowance-worth, use_locked-worth,
  use_unlocked-worth, use_allowance-worth, spent_worth, earned_worth,
}

allowance-set_allowance :
    (q p : AccountId) (n : ℕ) (a : Account)
    → (get_allowance q (set_allowance p n a) ≡ (if q == p then n else get_allowance q a))
      × (get_locked_balance q (set_allowance p n a) ≡ get_locked_balance q a)
unfolding get_allowance set_allowance get_locked_balance
allowance-set_allowance q p n a =
    ground (arith, lookup-insert q p n a.allowances, lookup-remove q p a.allowances)

locked-set_locked_balance :
    (q p : AccountId) (n : ℕ) (a : Account)
    → (get_locked_balance q (set_locked_balance p n a)
        ≡ (if q == p then n else get_locked_balance q a))
      × (get_allowance q (set_locked_balance p n a) ≡ get_allowance q a)
unfolding get_allowance set_locked_balance get_locked_balance
locked-set_locked_balance q p n a =
    ground (arith, lookup-insert q p n a.locked_balances, lookup-remove q p a.locked_balances)

-- What an escrow may take from an account.
abbrev pub authority : AccountId → Account → ℕ
authority p a = get_allowance p a + get_locked_balance p a

-- From `a` to `b` the account loses no more than the escrow's authority does, which never grows, and
-- no one else's changes.
abbrev pub Spends : AccountId → AccountId → Account → Account → Type 0
Spends p q a b =
    (worth a + authority p b ≤ worth b + authority p a)
    × (authority p b ≤ authority p a)
    × (if q == p
        then Unit
        else (get_allowance q b ≡ get_allowance q a)
          × (get_locked_balance q b ≡ get_locked_balance q a))

use_allowance_spends :
    (p q owner_id : AccountId) (n : ℕ) (a b : Account)
    → (p == owner_id) ≡ false
    → use_allowance p owner_id n a ≡ ok b
    → (authority p b + n ≡ authority p a)
      × (get_locked_balance p b ≡ get_locked_balance p a)
      × (if q == p
          then Unit
          else (get_allowance q b ≡ get_allowance q a)
            × (get_locked_balance q b ≡ get_locked_balance q a))
unfolding use_allowance
use_allowance_spends p q owner_id n a b other h = ground (
  arith,
  allowance-set_allowance p p (get_allowance p a - n) a,
  allowance-set_allowance q p (get_allowance p a - n) a,
)

module _ (p q : AccountId) where
  lock-Spends :
      (owner_id : AccountId) (n : ℕ) (a b : Account)
      → (p == owner_id) ≡ false
      → IsMap a.locked_balances
      → n ≤ a.balance
      → use_allowance p owner_id n (record a { balance = a.balance - n }) ≡ ok b
      → Spends p q a (set_locked_balance p (get_locked_balance p b + n) b)
  unfolding get_allowance get_locked_balance
  lock-Spends owner_id n a b other i le h =
      let spent = record a { balance = a.balance - n } in
      let u = use_allowance-worth p owner_id n spent b h in
      ground (
        arith,
        use_allowance_spends p q owner_id n spent b other h,
        spent_worth a n le,
        set_locked_worth p (get_locked_balance p b + n) b (rw u.1 i),
        locked-set_locked_balance p p (get_locked_balance p b + n) b,
        locked-set_locked_balance q p (get_locked_balance p b + n) b,
      )

  unlock-Spends :
      (owner_id : AccountId) (n : ℕ) (a b : Account)
      → (p == owner_id) ≡ false
      → IsMap a.locked_balances
      → n ≤ get_locked_balance p a
      → return_allowance p owner_id n (set_locked_balance p (get_locked_balance p a - n) a) ≡ ok b
      → Spends p q a (record b { balance = b.balance + n })
  unfolding get_allowance get_locked_balance return_allowance
  unlock-Spends owner_id n a b other i le h =
      let c = set_locked_balance p (get_locked_balance p a - n) a in
      ground (
        arith,
        set_locked_worth p (get_locked_balance p a - n) a i,
        earned_worth b n,
        set_allowance-worth p (get_allowance p c + n) c,
        allowance-set_allowance p p (get_allowance p c + n) c,
        allowance-set_allowance q p (get_allowance p c + n) c,
        locked-set_locked_balance p p (get_locked_balance p a - n) a,
        locked-set_locked_balance q p (get_locked_balance p a - n) a,
      )

  use_locked_spends :
      (n : ℕ) (a : Account)
      → (authority p (use_locked p n a).0 + n ≡ authority p a + (use_locked p n a).1)
        × (if q == p
            then Unit
            else (get_allowance q (use_locked p n a).0 ≡ get_allowance q a)
              × (get_locked_balance q (use_locked p n a).0 ≡ get_locked_balance q a))
  unfolding use_locked
  use_locked_spends n a = ground (
    arith,
    locked-set_locked_balance p p (get_locked_balance p a - n) a,
    locked-set_locked_balance q p (get_locked_balance p a - n) a,
    locked-set_locked_balance p p 0 a,
    locked-set_locked_balance q p 0 a,
  )

  use_unlocked_spends :
      (owner_id : AccountId) (n : ℕ) (a b : Account)
      → (p == owner_id) ≡ false
      → use_unlocked p owner_id n a ≡ ok b
      → (authority p b + n ≡ authority p a)
        × (if q == p
            then Unit
            else (get_allowance q b ≡ get_allowance q a)
              × (get_locked_balance q b ≡ get_locked_balance q a))
  unfolding use_unlocked get_allowance get_locked_balance
  use_unlocked_spends owner_id n a b other h =
      ground
        (arith, use_allowance_spends p q owner_id n (record a { balance = a.balance - n }) b other)

  transfer-Spends :
      (owner_id : AccountId) (n : ℕ) (a b : Account)
      → (p == owner_id) ≡ false
      → IsMap a.locked_balances
      → use_unlocked p owner_id (use_locked p n a).1 (use_locked p n a).0 ≡ ok b
      → Spends p q a b
  transfer-Spends owner_id n a b other i h =
      let l = use_locked-worth p n a i in
      let u = use_unlocked-worth p owner_id (use_locked p n a).1 (use_locked p n a).0 b h in
      let m = use_locked_spends n a in
      let v = use_unlocked_spends owner_id (use_locked p n a).1 (use_locked p n a).0 b other h in
      (omega arith, omega arith, ground arith)

  earn-Spends :
      (n : ℕ) (a b : Account) → Spends p q a b → Spends p q a (record b { balance = b.balance + n })
  unfolding get_allowance get_locked_balance
  earn-Spends n a b h = ground (arith, earned_worth b n)

transfer_from-Spends :
    (e : Env) (owner_id to : AccountId) (n : ℕ) (s : FunToken) (k q : AccountId)
    → (e.predecessor_account_id == k) ≡ false
    → IsMap (get_account k s).locked_balances
    → Holds
        (λ r. Spends e.predecessor_account_id q (get_account k s) (get_account k r.1))
        (transfer_from e owner_id to n s)
unfolding transfer_from
transfer_from-Spends e owner_id to n s k q other i =
    let a = get_account owner_id s in
    let p = e.predecessor_account_id in
    elim (Outcome-cases (use_unlocked p owner_id (use_locked p n a).1 (use_locked p n a).0)) [
      | inr (m, stopped) ↦ ground arith
      | inl (b, paid) ↦
          let d = get_account to (save owner_id b s) in
          ground (
            arith,
            get_account-save k to (record d { balance = d.balance + n }) (save owner_id b s),
            get_account-save k owner_id b s,
            transfer-Spends p q owner_id n a b,
            earn-Spends p q n (get_account k s) d,
          )
    ]

-- A call takes no more tokens from somebody else's account than its caller's allowance and lock there go
-- down by; they never go up; and those of every other escrow stay.
pub apply-Spends :
    (e : Env) (c : Call) (s : FunToken) (k q : AccountId)
    → (e.predecessor_account_id == k) ≡ false
    → IsMap (get_account k s).locked_balances
    → Holds
        (λ r. Spends e.predecessor_account_id q (get_account k s) (get_account k r.1))
        (apply e c s)
unfolding apply transfer approve lock unlock transfer_from
apply-Spends e (approves escrow n) s k q other i = ground (
  arith,
  get_account-save k e.predecessor_account_id
      (set_allowance escrow (n - get_locked_balance escrow (get_account e.predecessor_account_id s))
        (get_account e.predecessor_account_id s))
      s,
)
apply-Spends e (locks owner_id n) s k q other i =
    let a = get_account owner_id s in
    let p = e.predecessor_account_id in
    elim (Outcome-cases (use_allowance p owner_id n (record a { balance = a.balance - n }))) [
      | inr (m, stopped) ↦ ground arith
      | inl (b, paid) ↦ ground (
        arith,
        get_account-save k owner_id (set_locked_balance p (get_locked_balance p b + n) b) s,
        lock-Spends p q owner_id n a b,
      )
    ]
apply-Spends e (unlocks owner_id n) s k q other i =
    let a = get_account owner_id s in
    let p = e.predecessor_account_id in
    let c = set_locked_balance p (get_locked_balance p a - n) a in
    elim (Outcome-cases (return_allowance p owner_id n c)) [
      | inr (m, stopped) ↦ ground arith
      | inl (b, freed) ↦ ground (
        arith,
        get_account-save k owner_id (record b { balance = b.balance + n }) s,
        unlock-Spends p q owner_id n a b,
      )
    ]
apply-Spends e (transfers_from owner_id to n) s k q other i =
    transfer_from-Spends e owner_id to n s k q other i
apply-Spends e (transfers to n) s k q other i =
    transfer_from-Spends e e.predecessor_account_id to n s k q other i
