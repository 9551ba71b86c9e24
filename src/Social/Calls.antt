-- ===== src/Social/Calls.antt =====
-- The methods of social-web3/contract/src that change a contract, those of the genesis included, and
-- histories of calls.
use contract_new_project_tem.Prelude.{
  ℕ, Bool, Option, List, [], ◌∷◌, String, Action, ◌>>=◌, pure, settle,
}
use contract_new_project_tem.Host.{PublicKey}
use contract_new_project_tem.Social.State.{Env, Contract, ContractStatus, Json, set_status}
use contract_new_project_tem.Social.Pools.{shared_storage_pool_deposit}
use contract_new_project_tem.Social.Accounts.{storage_deposit, storage_withdraw, storage_unregister}
use contract_new_project_tem.Social.Permissions.{grant_write_permission}
use contract_new_project_tem.Social.Sharing.{share_storage}
use contract_new_project_tem.Social.Nodes.{PartialNode}
use contract_new_project_tem.Social.Genesis.{
  PartialAccount, genesis_init_node_count, genesis_init_nodes, genesis_init_accounts,
}
use contract_new_project_tem.Social.Setting.{set}

pub data Call : Type 0 where
  sets_status : ContractStatus → Call
  sets : Json → Option Bool → Call
  grants : Option String → Option PublicKey → List String → Call
  deposits : Option String → Option Bool → Call
  withdraws : Option ℕ → Call
  unregisters : Option Bool → Call
  deposits_to_pool : Option String → Call
  shares : String → ℕ → Call
  inits_node_count : ℕ → Call
  inits_nodes : List PartialNode → Call
  inits_accounts : List (String × PartialAccount) → Call

unfoldable pub apply : Env → Call → Action Contract (Unit {0})
apply e (sets_status status) = set_status e status
apply e (sets json refund) = set e json refund
apply e (grants predecessor_id public_key keys) =
    grant_write_permission e predecessor_id public_key keys
apply e (deposits to only) = storage_deposit e to only >>= λ balance. pure tt
apply e (withdraws amount) = storage_withdraw e amount >>= λ balance. pure tt
apply e (unregisters force) = storage_unregister e force >>= λ done. pure tt
apply e (deposits_to_pool owner) = shared_storage_pool_deposit e owner
apply e (shares owner max_bytes) = share_storage e owner max_bytes
apply e (inits_node_count count) = genesis_init_node_count e count
apply e (inits_nodes nodes) = genesis_init_nodes e nodes
apply e (inits_accounts accounts) = genesis_init_accounts e accounts

-- A history: a call that panics is rolled back.
unfoldable pub run : Contract → List (Env × Call) → Contract
run s [] = s
run s ((e, c) ∷ ts) = run (settle s (apply e c s)) ts
