-- ===== src/Social/Status.antt =====
-- What the status of the contract in social-web3/contract/src rules out.
use contract_new_project_tem.Prelude.{
  ◌≡◌, true, false, ◌⊎◌, inl, inr, Outcome, Bool-cases, IsPanic, arith,
}
use contract_new_project_tem.Social.State.{
  Env, Contract, is_live, is_genesis, set_status, assert_live,
}
use contract_new_project_tem.Prelude.Dict.{same, eq_of_same}
use contract_new_project_tem.Social.Genesis.{
  genesis_init_node_count, genesis_init_nodes, genesis_init_accounts, assert_genesis,
}
use contract_new_project_tem.Social.Accounts.{storage_deposit, storage_withdraw, storage_unregister}
use contract_new_project_tem.Social.Permissions.{grant_write_permission}
use contract_new_project_tem.Social.Setting.{set}
use contract_new_project_tem.Social.Calls.{
  Call, sets_status, sets, grants, deposits, withdraws, unregisters, deposits_to_pool, shares,
  inits_node_count, inits_nodes, inits_accounts, apply,
}

-- The calls that the status does not rule out while the contract is not live: the contract itself may
-- set the status and, in its genesis, write the nodes and the accounts; anyone may pay into a pool or
-- share one, which can make an account.
abbrev pub IsOpen : Env → Call → Contract → Type 0
IsOpen e (sets_status status) s = e.predecessor_account_id ≡ e.current_account_id
IsOpen e (sets json refund) s = ⊥
IsOpen e (grants predecessor_id public_key keys) s = ⊥
IsOpen e (deposits to only) s = ⊥
IsOpen e (withdraws amount) s = ⊥
IsOpen e (unregisters force) s = ⊥
IsOpen e (deposits_to_pool owner) s = Unit
IsOpen e (shares owner max_bytes) s = Unit
IsOpen e (inits_node_count count) s =
    (e.predecessor_account_id ≡ e.current_account_id) × (is_genesis s.status ≡ true)
IsOpen e (inits_nodes nodes) s =
    (e.predecessor_account_id ≡ e.current_account_id) × (is_genesis s.status ≡ true)
IsOpen e (inits_accounts accounts) s =
    (e.predecessor_account_id ≡ e.current_account_id) × (is_genesis s.status ≡ true)

private :
    (e : Env) (m : Outcome (Unit {0} × Contract))
    → (same e.predecessor_account_id e.current_account_id ≡ false → IsPanic m)
    → IsPanic m ⊎ (e.predecessor_account_id ≡ e.current_account_id)
private e m h = elim (Bool-cases (same e.predecessor_account_id e.current_account_id)) [
  | inl is ↦ inr (eq_of_same e.predecessor_account_id e.current_account_id is)
  | inr differs ↦ inl (h differs)
]

own :
    (e : Env) (s : Contract) (m : Outcome (Unit {0} × Contract))
    → (same e.predecessor_account_id e.current_account_id ≡ false → IsPanic m)
    → (is_genesis s.status ≡ false → IsPanic m)
    → IsPanic m ⊎ ((e.predecessor_account_id ≡ e.current_account_id) × (is_genesis s.status ≡ true))
own e s m h k = elim (Bool-cases (is_genesis s.status)) [
  | inl is ↦ elim (private e m h) [ inl stopped ↦ inl stopped | inr self ↦ inr (self, is) ]
  | inr past ↦ inl (k past)
]

-- While the contract is not live, nobody can set texts, grant permissions, or deposit, withdraw or
-- unregister storage: these calls fail. The calls that set the status go through for the contract itself
-- only, and those of the genesis for the contract itself and in the genesis only. The status does not
-- rule out the two others, which pay into a pool and share a pool.
pub apply-live :
    (e : Env) (c : Call) (s : Contract)
    → is_live s.status ≡ false
    → IsPanic (apply e c s) ⊎ IsOpen e c s
unfolding apply set grant_write_permission storage_deposit storage_withdraw storage_unregister
    assert_live set_status genesis_init_node_count genesis_init_nodes genesis_init_accounts
    assert_genesis
apply-live e (sets_status status) s h = private e (apply e (sets_status status) s) (ground arith)
apply-live e (sets json refund) s h = inl (ground arith)
apply-live e (grants predecessor_id public_key keys) s h = inl (ground arith)
apply-live e (deposits to only) s h = inl (ground arith)
apply-live e (withdraws amount) s h = inl (ground arith)
apply-live e (unregisters force) s h = inl (ground arith)
apply-live e (deposits_to_pool owner) s h = inr tt
apply-live e (shares owner max_bytes) s h = inr tt
apply-live e (inits_node_count count) s h = own e s _ (ground arith) (ground arith)
apply-live e (inits_nodes nodes) s h = own e s _ (ground arith) (ground arith)
apply-live e (inits_accounts accounts) s h = own e s _ (ground arith) (ground arith)
