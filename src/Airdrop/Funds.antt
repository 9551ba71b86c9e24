-- ===== src/Airdrop/Funds.antt =====
-- What airdrop/src/lib.rs owes and pays out, against what it receives.
use contract_new_project_tem.Prelude.{
  ℕ, ◌+◌, ◌≤◌, ◌≡◌, ◌∙◌, ap, sym, refl, Bool, true, false, Bool-cases, ◌==◌, ◌&&◌, if◌then◌else◌,
  Option, none, some, List, [], ◌∷◌, Holds, Holds-ok, Outcome-cases, inl, inr, ok, panic, arith,
  u128_mod, saturating_add, saturating_sub,
}
use contract_new_project_tem.Prelude.Map.{
  lookup, sum, sum-insert, sum-remove, IsMap, insert-IsMap, remove-IsMap,
}
use contract_new_project_tem.Host.{Env, Promise, PromiseResult, failed}
use contract_new_project_tem.Airdrop.{
  AirDrop, Callback, account_created, account_created_and_claimed, is_some, new, Call, send_to,
  claim_to, claim_new, create, create_advanced, created, created_and_claimed, apply, step, run,
  send, claim, create_account_and_claim, create_account, create_account_advanced,
  on_account_created, on_account_created_and_claimed, is_promise_success, access_key_allowance,
  unwrap_or_zero,
}
use contract_new_project_tem.Airdrop.Transfers.{transfers, paid, options_free}

-- What the keys can claim and what was paid out so far.
abbrev pub owed_and_paid : AirDrop → ℕ
owed_and_paid s = sum (λ n. n) s.accounts + paid s.promises

-- A failed promise gives its transfer back.
abbrev pub refund : List PromiseResult → ℕ → ℕ
refund (failed ∷ []) amount = amount
refund _ amount = 0

-- The callback that a call is.
abbrev pub callback_of : Call → Option Callback
callback_of (send_to key) = none
callback_of (claim_to account_id) = none
callback_of (claim_new account_id key) = none
callback_of (create account_id key) = none
callback_of (create_advanced account_id options) = none
callback_of (created account_id amount) = some (account_created account_id amount)
callback_of (created_and_claimed amount) = some (account_created_and_claimed amount)

unfoldable pub same_callback : Callback → Callback → Bool
same_callback (account_created a m) (account_created b n) = a == b && m == n
same_callback (account_created a m) (account_created_and_claimed n) = false
same_callback (account_created_and_claimed m) (account_created b n) = false
same_callback (account_created_and_claimed m) (account_created_and_claimed n) = m == n

abbrev answers_to : Callback → Option Callback → Bool
answers_to c none = false
answers_to c (some d) = same_callback c d

-- What the newest promise with this callback transfers.
unfoldable pub transferred : Callback → List (Promise Callback) → Option ℕ
transferred c [] = none
transferred c (p ∷ ps) =
    if answers_to c p.callback then some (transfers p.actions) else transferred c ps

-- What a call brings to the contract's account: its deposit, or, for a callback, what the promise
-- that it answers transferred, if that promise failed.
abbrev pub brought : Env → ℕ → Option Callback → List (Promise Callback) → ℕ
brought e deposit none ps = deposit
brought e deposit (some c) ps = refund e.promise_results (unwrap_or_zero (transferred c ps))

abbrev pub deposit_of : Env → Call → ℕ
deposit_of e (send_to key) = e.attached_deposit
deposit_of e (claim_to account_id) = 0
deposit_of e (claim_new account_id key) = 0
deposit_of e (create account_id key) = e.attached_deposit
deposit_of e (create_advanced account_id options) = e.attached_deposit
deposit_of e (created account_id amount) = 0
deposit_of e (created_and_claimed amount) = 0

abbrev pub received : AirDrop → Env → Call → ℕ
received s e c = brought e (deposit_of e c) (callback_of c) s.promises

-- A callback answers a promise that the contract has made.
abbrev pub AnswersTo : Option Callback → List (Promise Callback) → Type 0
AnswersTo none ps = Unit
AnswersTo (some c) ps = is_some (transferred c ps) ≡ true

abbrev pub Answers : AirDrop → Call → Type 0
Answers s c = AnswersTo (callback_of c) s.promises

-- Every callback of a history that goes through answers a promise made before.
abbrev pub AllAnswer : AirDrop → List (Env × Call) → Type 0
AllAnswer s [] = Unit
AllAnswer s ((e, c) ∷ ts) = Answers s c × AllAnswer (step s (e, c)) ts

abbrev pub amount_of : Callback → ℕ
amount_of (account_created a n) = n
amount_of (account_created_and_claimed n) = n

-- A promise transfers what its callback is told.
abbrev pub TellsOf : Option Callback → ℕ → Type 0
TellsOf none n = Unit
TellsOf (some c) n = n ≡ amount_of c

abbrev pub AllTold : List (Promise Callback) → Type 0
AllTold [] = Unit
AllTold (p ∷ ps) = TellsOf p.callback (transfers p.actions) × AllTold ps

-- No entry is listed twice, as in every real map, and the callbacks are told what was transferred.
pub record IsSound (s : AirDrop) : Type 0 where
  pub unique : IsMap s.accounts
  pub told : AllTold s.promises

same_callback-amount : (c d : Callback) → same_callback c d ≡ true → amount_of d ≡ amount_of c
unfolding same_callback
same_callback-amount (account_created a m) (account_created b n) h = ground arith
same_callback-amount (account_created a m) (account_created_and_claimed n) h = ground arith
same_callback-amount (account_created_and_claimed m) (account_created b n) h = ground arith
same_callback-amount (account_created_and_claimed m) (account_created_and_claimed n) h =
    ground arith

transferred-told :
    (c : Callback) (ps : List (Promise Callback))
    → AllTold ps
    → is_some (transferred c ps) ≡ true
    → unwrap_or_zero (transferred c ps) ≡ amount_of c
unfolding transferred
transferred-told c [] told found = ground arith
transferred-told c (p ∷ ps) (here, rest) found = elim (Bool-cases (answers_to c p.callback)) [
  | inl is ↦ rw (is) (answered p.callback is here)
  | inr no_it_is ↦ rw (no_it_is) (transferred-told c ps rest (rw (no_it_is) at found))
]
  where
    answered :
        (d : Option Callback)
        → answers_to c d ≡ true
        → TellsOf d (transfers p.actions)
        → transfers p.actions ≡ amount_of c
    answered none is told = ground arith
    answered (some d) is told = told ∙ same_callback-amount c d is

-- What a call brings in by its own account of it.
abbrev claimed : Env → Call → ℕ
claimed e (send_to key) = e.attached_deposit
claimed e (claim_to account_id) = 0
claimed e (claim_new account_id key) = 0
claimed e (create account_id key) = e.attached_deposit
claimed e (create_advanced account_id options) = e.attached_deposit
claimed e (created account_id amount) = refund e.promise_results amount
claimed e (created_and_claimed amount) = refund e.promise_results amount

claimed-received :
    (e : Env) (c : Call) (s : AirDrop) → IsSound s → Answers s c → claimed e c ≡ received s e c
claimed-received e (send_to key) s v h = refl
claimed-received e (claim_to account_id) s v h = refl
claimed-received e (claim_new account_id key) s v h = refl
claimed-received e (create account_id key) s v h = refl
claimed-received e (create_advanced account_id options) s v h = refl
claimed-received e (created account_id amount) s v h =
    ap (refund e.promise_results)
      (sym (transferred-told (account_created account_id amount) s.promises v.told h))
claimed-received e (created_and_claimed amount) s v h =
    ap (refund e.promise_results)
      (sym (transferred-told (account_created_and_claimed amount) s.promises v.told h))

apply-AllTold :
    (e : Env) (c : Call) (s : AirDrop)
    → AllTold s.promises
    → Holds (λ r. AllTold r.1.promises) (apply e c s)
unfolding apply send claim create_account_and_claim create_account create_account_advanced
    on_account_created on_account_created_and_claimed is_promise_success transfers
apply-AllTold e (send_to key) s h = ground arith
apply-AllTold e (claim_to account_id) s h = ground arith
apply-AllTold e (claim_new account_id key) s h = ground arith
apply-AllTold e (create account_id key) s h = ground arith
apply-AllTold e (create_advanced account_id options) s h = ground (arith, options_free options)
apply-AllTold e (created account_id amount) s h = ground arith
apply-AllTold e (created_and_claimed amount) s h = ground arith

-- A call raises what is owed and paid by no more than it says to bring in.
apply_funded :
    (e : Env) (c : Call) (s : AirDrop)
    → IsMap s.accounts
    → Holds
        (λ r. IsMap r.1.accounts × (owed_and_paid r.1 ≤ owed_and_paid s + claimed e c))
        (apply e c s)
unfolding apply send claim create_account_and_claim create_account create_account_advanced
    on_account_created on_account_created_and_claimed is_promise_success paid transfers
apply_funded e (send_to key) s h = ground (
  arith,
  sum-insert (λ n. n) key
      (saturating_sub
        (saturating_add u128_mod (unwrap_or_zero (lookup key s.accounts)) e.attached_deposit)
        access_key_allowance)
      s.accounts,
  insert-IsMap key
      (saturating_sub
        (saturating_add u128_mod (unwrap_or_zero (lookup key s.accounts)) e.attached_deposit)
        access_key_allowance)
      s.accounts h,
)
apply_funded e (claim_to account_id) s h = ground (
  arith,
  sum-remove (λ n. n) e.signer_account_pk s.accounts h,
  remove-IsMap e.signer_account_pk s.accounts h,
)
apply_funded e (claim_new account_id key) s h = ground (
  arith,
  sum-remove (λ n. n) e.signer_account_pk s.accounts h,
  remove-IsMap e.signer_account_pk s.accounts h,
)
apply_funded e (create account_id key) s h = ground arith
apply_funded e (create_advanced account_id options) s h = ground (arith, options_free options)
apply_funded e (created account_id amount) s h = ground arith
apply_funded e (created_and_claimed amount) s h = ground (
  arith,
  sum-insert (λ n. n) e.signer_account_pk amount s.accounts,
  insert-IsMap e.signer_account_pk amount s.accounts h,
)

-- What the transactions of a history bring in; a call that panics brings nothing.
abbrev pub all_received : AirDrop → List (Env × Call) → ℕ
all_received s [] = 0
all_received s ((e, c) ∷ ts) =
    elim (apply e c s) [ ok _ ↦ received s e c | panic _ ↦ 0 ] + all_received (step s (e, c)) ts

step_funded :
    (s : AirDrop) (e : Env) (c : Call)
    → IsSound s
    → Answers s c
    → IsSound (step s (e, c))
      × (owed_and_paid (step s (e, c))
          ≤ owed_and_paid s + elim (apply e c s) [ ok _ ↦ received s e c | panic _ ↦ 0 ])
unfolding step
step_funded s e c v h = elim (Outcome-cases (apply e c s)) [
  | inl (r, went) ↦
      let f = Holds-ok _ went (apply_funded e c s v.unique) in
      let told = Holds-ok _ went (apply-AllTold e c s v.told) in
      let same = claimed-received e c s v h in
      rw went (record { unique = f.0; told = told }, omega (arith, f.1, same))
  | inr (m, stopped) ↦ rw stopped (v, omega arith)
]

funded :
    (ts : List (Env × Call)) (s : AirDrop)
    → IsSound s
    → AllAnswer s ts
    → owed_and_paid (run s ts) ≤ owed_and_paid s + all_received s ts
unfolding run
funded [] s v h = omega arith
funded ((e, c) ∷ ts) s v (answers, rest) =
    let f = step_funded s e c v answers in
    let ih = funded ts (step s (e, c)) f.0 rest in omega (arith, f.1, ih)

-- After any history of a new contract in which callbacks answer promises that the contract has made,
-- what the keys can still claim and what was ever paid out come to no more than what the calls that
-- went through have brought in: their deposits, and the transfers of the promises that failed.
pub run_funded :
    (ts : List (Env × Call)) → AllAnswer new ts → owed_and_paid (run new ts) ≤ all_received new ts
unfolding new sum paid
run_funded ts h = omega (arith, funded ts new (record { unique = tt; told = tt }) h)
