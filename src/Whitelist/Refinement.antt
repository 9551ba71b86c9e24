-- ===== src/Whitelist/Refinement.antt =====
-- What whitelist/src/lib.rs promises, as a machine on two sets of accounts, and that it keeps it.
use contract_new_project_tem.Prelude.{
  ◌≡◌, ◌∙◌, refl, ap, Bool, true, false, not, ◌&&◌, ◌||◌, Option, none, some, Outcome, ok, panic,
  settle, List, [], ◌∷◌, arith, ◌==◌, if◌then◌else◌,
}
use contract_new_project_tem.Prelude.Map.{insert, remove, lookup-insert, lookup-remove}
use contract_new_project_tem.Host.{Env, AccountId}
use contract_new_project_tem.Whitelist.{
  WhitelistContract, Call, add_pool, remove_pool, add_maker, remove_maker, contains, apply,
  add_staking_pool, remove_staking_pool, add_factory, remove_factory,
}
use contract_new_project_tem.Whitelist.Access.{run, step}

-- Which accounts are whitelisted pools and which are factories.
pub record Registry : Type 0 where
  pub foundation : AccountId
  pub pools : AccountId → Bool
  pub factories : AccountId → Bool

-- The lists as sets: the order of their entries is forgotten.
unfoldable pub view : WhitelistContract → Registry
view s = record {
  foundation = s.foundation_account_id;
  pools = λ k. contains k s.whitelist;
  factories = λ k. contains k s.factory_whitelist;
}

abbrev pub assign : AccountId → Bool → (AccountId → Bool) → AccountId → Bool
assign a b f k = if k == a then b else f k

-- Only the foundation changes the registry, save that a factory may add a pool.
unfoldable pub permitted : Env → Call → Registry → Bool
permitted e (add_pool a) r =
    (r.factories e.predecessor_account_id || e.predecessor_account_id == r.foundation)
    && e.is_valid_account_id a
permitted e (remove_pool a) r = e.predecessor_account_id == r.foundation && e.is_valid_account_id a
permitted e (add_maker a) r = e.predecessor_account_id == r.foundation && e.is_valid_account_id a
permitted e (remove_maker a) r = e.predecessor_account_id == r.foundation && e.is_valid_account_id a

unfoldable pub change : Call → Registry → Registry
change (add_pool a) r = record r { pools = assign a true r.pools }
change (remove_pool a) r = record r { pools = assign a false r.pools }
change (add_maker a) r = record r { factories = assign a true r.factories }
change (remove_maker a) r = record r { factories = assign a false r.factories }

-- Whether the call changes anything.
unfoldable pub is_new : Call → Registry → Bool
is_new (add_pool a) r = not (r.pools a)
is_new (remove_pool a) r = r.pools a
is_new (add_maker a) r = not (r.factories a)
is_new (remove_maker a) r = r.factories a

unfoldable pub serve : Env → Call → Registry → Option (Bool × Registry)
serve e c r = if permitted e c r then some (is_new c r, change c r) else none

-- A refused call changes nothing.
abbrev pub next : Registry → Option (Bool × Registry) → Registry
next r none = r
next r (some (b, q)) = q

unfoldable pub serve_all : Registry → List (Env × Call) → Registry
serve_all r [] = r
serve_all r ((e, c) ∷ ts) = serve_all (next r (serve e c r)) ts

abbrev pub seen : Outcome (Bool × WhitelistContract) → Option (Bool × Registry)
seen (ok (b, t)) = some (b, view t)
seen (panic m) = none

view_ext :
    {r q : Registry}
    → r.foundation ≡ q.foundation
    → ((k : AccountId) → r.pools k ≡ q.pools k)
    → ((k : AccountId) → r.factories k ≡ q.factories k)
    → r ≡ q
view_ext f p m = λ i. record { foundation = f i; pools = λ k. p k i; factories = λ k. m k i }

view-insert_pool :
    (a : AccountId) (s : WhitelistContract)
    → view (record s { whitelist = insert a tt s.whitelist }) ≡ change (add_pool a) (view s)
unfolding view change
view-insert_pool a s =
    view_ext refl (λ k. ground (arith, lookup-insert k a tt s.whitelist)) (λ k. refl)

view_remove_pool :
    (a : AccountId) (s : WhitelistContract)
    → view (record s { whitelist = remove a s.whitelist }) ≡ change (remove_pool a) (view s)
unfolding view change
view_remove_pool a s =
    view_ext refl (λ k. ground (arith, lookup-remove k a s.whitelist)) (λ k. refl)

view-insert_factory :
    (a : AccountId) (s : WhitelistContract)
    → view (record s { factory_whitelist = insert a tt s.factory_whitelist })
      ≡ change (add_maker a) (view s)
unfolding view change
view-insert_factory a s =
    view_ext refl (λ k. refl) (λ k. ground (arith, lookup-insert k a tt s.factory_whitelist))

view-remove_factory :
    (a : AccountId) (s : WhitelistContract)
    → view (record s { factory_whitelist = remove a s.factory_whitelist })
      ≡ change (remove_maker a) (view s)
unfolding view change
view-remove_factory a s =
    view_ext refl (λ k. refl) (λ k. ground (arith, lookup-remove k a s.factory_whitelist))

apply-serve : (e : Env) (c : Call) (s : WhitelistContract) → seen (apply e c s) ≡ serve e c (view s)
unfolding apply add_staking_pool remove_staking_pool add_factory remove_factory serve permitted
    is_new view
apply-serve e (add_pool a) s = ground (arith, view-insert_pool a s)
apply-serve e (remove_pool a) s = ground (arith, view_remove_pool a s)
apply-serve e (add_maker a) s = ground (arith, view-insert_factory a s)
apply-serve e (remove_maker a) s = ground (arith, view-remove_factory a s)

step-next :
    (e : Env) (c : Call) (s : WhitelistContract)
    → view (settle s (apply e c s)) ≡ next (view s) (seen (apply e c s))
step-next e c s = settled (apply e c s)
  where
    settled : (r : Outcome (Bool × WhitelistContract)) → view (settle s r) ≡ next (view s) (seen r)
    settled (ok (b, t)) = refl
    settled (panic m) = refl

-- After any history of calls, the contract, seen as its foundation and two sets of accounts, is where
-- the registry is that served the same calls; and it answers, or refuses, any next call as that
-- registry does, and goes on to the same state.
pub run-serve_all :
    (s : WhitelistContract) (ts : List (Env × Call))
    → (view (run s ts) ≡ serve_all (view s) ts)
      × ((e : Env) (c : Call) → seen (apply e c (run s ts)) ≡ serve e c (serve_all (view s) ts))
unfolding run serve_all step
run-serve_all s [] = (refl, λ e c. apply-serve e c s)
run-serve_all s ((d, x) ∷ ts) =
    let (same_view, answers) = run-serve_all (settle s (apply d x s)) ts in
    let now : view (settle s (apply d x s)) ≡ next (view s) (serve d x (view s)) =
      step-next d x s ∙ ap (next (view s)) (apply-serve d x s) in
    (
      same_view ∙ ap (λ r. serve_all r ts) now,
      λ e c. answers e c ∙ ap (λ r. serve e c (serve_all r ts)) now,
    )
