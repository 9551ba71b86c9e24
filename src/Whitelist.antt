-- ===== src/Whitelist.antt =====
-- whitelist/src/lib.rs: the staking pools that lockup contracts may delegate to.
pub mod Access
pub mod Refinement
mod Examples
use contract_new_project_tem.Prelude.{
  ℕ, Bool, true, false, not, Option, none, some, Outcome, ok, panic, Action, ◌>>=◌, ◌>>◌, gets,
  modify, require, fail, pure, bind, ensure, asks, ◌==◌, if◌then◌else◌, [],
}
use contract_new_project_tem.Prelude.Map.{Map, lookup, insert, remove}
use contract_new_project_tem.Host.{Env, AccountId}

-- `LookupSet<AccountId>`: a map to nothing.
abbrev pub LookupSet : Type 0
LookupSet = Map (Unit {0})

abbrev pub contains : AccountId → LookupSet → Bool
contains k m = elim (lookup k m) [ none ↦ false | some _ ↦ true ]

pub record WhitelistContract : Type 0 where
  pub foundation_account_id : AccountId
  pub whitelist : LookupSet
  pub factory_whitelist : LookupSet

unfoldable pub new : Env → AccountId → Outcome WhitelistContract
new e foundation_account_id = bind (ensure (not e.state_exists) "Already initialized") λ _.
    bind
      (ensure (e.is_valid_account_id foundation_account_id)
        "The UNC Foundation account ID is invalid")
      λ _. ok (record {
        foundation_account_id = foundation_account_id;
        whitelist = [];
        factory_whitelist = [];
      })

unfoldable pub is_whitelisted : Env → AccountId → WhitelistContract → Outcome Bool
is_whitelisted e staking_pool_account_id s =
    bind (ensure (e.is_valid_account_id staking_pool_account_id) "The given account ID is invalid")
      λ _. ok (contains staking_pool_account_id s.whitelist)

unfoldable pub is_factory_whitelisted : Env → AccountId → WhitelistContract → Outcome Bool
is_factory_whitelisted e factory_account_id s =
    bind (ensure (e.is_valid_account_id factory_account_id) "The given account ID is invalid")
      λ _. ok (contains factory_account_id s.factory_whitelist)

abbrev pub assert_called_by_foundation : Env → Action WhitelistContract (Unit {0})
assert_called_by_foundation e s =
    require (e.predecessor_account_id == s.foundation_account_id)
      "Can only be called by UNC Foundation" s

unfoldable pub add_staking_pool : Env → AccountId → Action WhitelistContract Bool
add_staking_pool e staking_pool_account_id = do
  require (e.is_valid_account_id staking_pool_account_id) "The given account ID is invalid"
  by_factory ← gets (λ s. contains e.predecessor_account_id s.factory_whitelist)
  if by_factory then pure tt else assert_called_by_foundation e
  old ← gets (λ s. contains staking_pool_account_id s.whitelist)
  modify (λ s. record s { whitelist = insert staking_pool_account_id tt s.whitelist })
  pure (not old)

unfoldable pub remove_staking_pool : Env → AccountId → Action WhitelistContract Bool
remove_staking_pool e staking_pool_account_id = do
  assert_called_by_foundation e
  require (e.is_valid_account_id staking_pool_account_id) "The given account ID is invalid"
  old ← gets (λ s. contains staking_pool_account_id s.whitelist)
  modify (λ s. record s { whitelist = remove staking_pool_account_id s.whitelist })
  pure old

unfoldable pub add_factory : Env → AccountId → Action WhitelistContract Bool
add_factory e factory_account_id = do
  require (e.is_valid_account_id factory_account_id) "The given account ID is invalid"
  assert_called_by_foundation e
  old ← gets (λ s. contains factory_account_id s.factory_whitelist)
  modify (λ s. record s { factory_whitelist = insert factory_account_id tt s.factory_whitelist })
  pure (not old)

unfoldable pub remove_factory : Env → AccountId → Action WhitelistContract Bool
remove_factory e factory_account_id = do
  assert_called_by_foundation e
  require (e.is_valid_account_id factory_account_id) "The given account ID is invalid"
  old ← gets (λ s. contains factory_account_id s.factory_whitelist)
  modify (λ s. record s { factory_whitelist = remove factory_account_id s.factory_whitelist })
  pure old

-- The methods that change the state.
pub data Call : Type 0 where
  add_pool : AccountId → Call
  remove_pool : AccountId → Call
  add_maker : AccountId → Call
  remove_maker : AccountId → Call

unfoldable pub apply : Env → Call → Action WhitelistContract Bool
apply e (add_pool a) = add_staking_pool e a
apply e (remove_pool a) = remove_staking_pool e a
apply e (add_maker a) = add_factory e a
apply e (remove_maker a) = remove_factory e a
