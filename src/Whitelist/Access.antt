-- ===== src/Whitelist/Access.antt =====
-- Who can change the whitelist, and to what, for whitelist/src/lib.rs.
use contract_new_project_tem.Prelude.{
  ◌≡◌, refl, ◌⊎◌, inl, inr, Bool, true, false, not, Holds, IsPanic, Succeeds, settle, ◌||◌, ◌&&◌,
  List, [], ◌∷◌, ◌∙◌, arith, ◌==◌, if◌then◌else◌,
}
use contract_new_project_tem.Prelude.Map.{lookup-insert, lookup-remove}
use contract_new_project_tem.Host.{Env, AccountId}
use contract_new_project_tem.Whitelist.{
  WhitelistContract, Call, add_pool, remove_pool, add_maker, remove_maker, contains, apply,
  add_staking_pool, remove_staking_pool, add_factory, remove_factory,
}

abbrev pub whitelist_after : Call → AccountId → Bool → Bool
whitelist_after (add_pool a) k old = if k == a then true else old
whitelist_after (remove_pool a) k old = if k == a then false else old
whitelist_after (add_maker a) k old = old
whitelist_after (remove_maker a) k old = old

abbrev pub factories_after : Call → AccountId → Bool → Bool
factories_after (add_pool a) k old = old
factories_after (remove_pool a) k old = old
factories_after (add_maker a) k old = if k == a then true else old
factories_after (remove_maker a) k old = if k == a then false else old

abbrev pub returned : Call → WhitelistContract → Bool
returned (add_pool a) s = not (contains a s.whitelist)
returned (remove_pool a) s = contains a s.whitelist
returned (add_maker a) s = not (contains a s.factory_whitelist)
returned (remove_maker a) s = contains a s.factory_whitelist

-- Each method that goes through sets exactly the one entry that it is for, leaves every other
-- entry of both lists and the foundation as they were, and returns whether it changed anything.
pub apply_effect :
    (e : Env) (c : Call) (s : WhitelistContract) (k : AccountId)
    → Holds
        (λ r.
          (r.0 ≡ returned c s)
          × (r.1.foundation_account_id ≡ s.foundation_account_id)
          × (contains k r.1.whitelist ≡ whitelist_after c k (contains k s.whitelist))
          × (contains k r.1.factory_whitelist
              ≡ factories_after c k (contains k s.factory_whitelist)))
        (apply e c s)
unfolding apply add_staking_pool remove_staking_pool add_factory remove_factory
apply_effect e (add_pool a) s k = ground (arith, lookup-insert k a tt s.whitelist)
apply_effect e (remove_pool a) s k = ground (arith, lookup-remove k a s.whitelist)
apply_effect e (add_maker a) s k = ground (arith, lookup-insert k a tt s.factory_whitelist)
apply_effect e (remove_maker a) s k = ground (arith, lookup-remove k a s.factory_whitelist)

abbrev pub target : Call → AccountId
target (add_pool a) = a
target (remove_pool a) = a
target (add_maker a) = a
target (remove_maker a) = a

-- A whitelisted factory may add pools; everything else is the foundation's.
abbrev pub may_call : Env → Call → WhitelistContract → Bool
may_call e (add_pool a) s =
    contains e.predecessor_account_id s.factory_whitelist
    || e.predecessor_account_id == s.foundation_account_id
may_call e (remove_pool a) s = e.predecessor_account_id == s.foundation_account_id
may_call e (add_maker a) s = e.predecessor_account_id == s.foundation_account_id
may_call e (remove_maker a) s = e.predecessor_account_id == s.foundation_account_id

-- A method goes through exactly when its caller may make the call and the account id is valid.
pub apply_authorised :
    (e : Env) (c : Call) (s : WhitelistContract)
    → if may_call e c s && e.is_valid_account_id (target c)
      then Succeeds (apply e c s)
      else IsPanic (apply e c s)
unfolding apply add_staking_pool remove_staking_pool add_factory remove_factory
apply_authorised e (add_pool a) s = ground arith
apply_authorised e (remove_pool a) s = ground arith
apply_authorised e (add_maker a) s = ground arith
apply_authorised e (remove_maker a) s = ground arith

-- One transaction: a call that panics is rolled back.
unfoldable pub step : WhitelistContract → Env × Call → WhitelistContract
step s (e, c) = settle s (apply e c s)

unfoldable pub run : WhitelistContract → List (Env × Call) → WhitelistContract
run s [] = s
run s (t ∷ ts) = run (step s t) ts

-- Somewhere in the history a caller that may do so added the pool.
abbrev pub Added : AccountId → WhitelistContract → List (Env × Call) → Type 0
Added k s [] = ⊥
Added k s ((e, c) ∷ ts) = ((c ≡ add_pool k) × (may_call e c s ≡ true)) ⊎ Added k (step s (e, c)) ts

step_adds :
    (k : AccountId) (s : WhitelistContract) (e : Env) (c : Call)
    → contains k (step s (e, c)).whitelist ≡ true
    → (contains k s.whitelist ≡ true) ⊎ ((c ≡ add_pool k) × (may_call e c s ≡ true))
unfolding step apply add_staking_pool remove_staking_pool add_factory remove_factory
step_adds k s e (add_pool a) h = ground (arith, lookup-insert k a tt s.whitelist)
step_adds k s e (remove_pool a) h = ground (arith, lookup-remove k a s.whitelist)
step_adds k s e (add_maker a) h = ground arith
step_adds k s e (remove_maker a) h = ground arith

step_foundation :
    (s : WhitelistContract) (e : Env) (c : Call)
    → (step s (e, c)).foundation_account_id ≡ s.foundation_account_id
unfolding step apply add_staking_pool remove_staking_pool add_factory remove_factory
step_foundation s e (add_pool a) = ground arith
step_foundation s e (remove_pool a) = ground arith
step_foundation s e (add_maker a) = ground arith
step_foundation s e (remove_maker a) = ground arith

-- A pool that is whitelisted after a history of calls was so before, or was added by a call of that
-- history whose caller was then the foundation or a whitelisted factory; and the foundation is the
-- one that was there before.
pub run_whitelisted :
    (k : AccountId) (s : WhitelistContract) (ts : List (Env × Call))
    → contains k (run s ts).whitelist ≡ true
    → ((run s ts).foundation_account_id ≡ s.foundation_account_id)
      × ((contains k s.whitelist ≡ true) ⊎ Added k s ts)
unfolding run
run_whitelisted k s [] h = (refl, inl h)
run_whitelisted k s ((e, c) ∷ ts) h =
    let ih = run_whitelisted k (step s (e, c)) ts h in (ih.0 ∙ step_foundation s e c, later ih.1)
  where
    later :
        (contains k (step s (e, c)).whitelist ≡ true) ⊎ Added k (step s (e, c)) ts
        → (contains k s.whitelist ≡ true) ⊎ Added k s ((e, c) ∷ ts)
    later (inl old) = elim (step_adds k s e c old) [ inl o ↦ inl o | inr a ↦ inr (inl a) ]
    later (inr added) = inr (inr added)
