-- ===== src/Social/Returns/Homes.antt =====
-- The account that account.rs of social-web3/contract/src finds or makes has the node that the root names.
use contract_new_project_tem.Prelude.{
  ℕ, ◌≡◌, refl, false, Option, none, some, String, Holds, bind-Holds, Holds-ok, seq-Holds,
  lift-Holds_last, asks-Holds, require-Holds, any_Holds, expect, Action, asks, pure, ◌>>◌,
  saturating_add, u128_mod,
}
use contract_new_project_tem.Prelude.Dict.{find}
use contract_new_project_tem.Social.State.{
  Env, Contract, Account, NodeValue, value, node, deleted_entry,
}
use contract_new_project_tem.Social.Accounts.{
  account_of, account_at, internal_get_account, internal_unwrap_account,
  internal_unwrap_account_or_create, internal_create_account,
}
use contract_new_project_tem.Social.Tree.Accounts.{account_at-node_id}

-- The entry of an account in the root is its node.
abbrev pub PlacedIn : String → Contract → Option Account → Type 0
PlacedIn account s none = Unit
PlacedIn account s (some a) = find account s.root_node.children ≡ some (node a.node_id)

account_of-PlacedIn :
    (account : String) (s : Contract) (found : Option NodeValue)
    → find account s.root_node.children ≡ found
    → Holds (PlacedIn account s) (account_of found s)
account_of-PlacedIn account s none eq = tt
account_of-PlacedIn account s (some (node id)) eq =
    bind-Holds (PlacedIn account s) (account_at id s) _
      λ a found. rw (Holds-ok (λ b. b.node_id ≡ id) found (account_at-node_id id s)) eq
account_of-PlacedIn account s (some (value v)) eq = tt
account_of-PlacedIn account s (some (deleted_entry h)) eq = tt

internal_get_account-PlacedIn :
    (account : String) (s : Contract) → Holds (PlacedIn account s) (internal_get_account account s)
unfolding internal_get_account
internal_get_account-PlacedIn account s =
    account_of-PlacedIn account s (find account s.root_node.children) refl

internal_unwrap_account-PlacedIn :
    (account : String) (s : Contract)
    → Holds (λ a. PlacedIn account s (some a)) (internal_unwrap_account account s)
unfolding internal_unwrap_account
internal_unwrap_account-PlacedIn account s =
    bind-Holds _ (internal_get_account account s) _ λ o found.
      present o (Holds-ok (PlacedIn account s) found (internal_get_account-PlacedIn account s))
  where
    present :
        (o : Option Account)
        → PlacedIn account s o
        → Holds (λ a. PlacedIn account s (some a)) (expect o "The account doesn't exist")
    present none h = tt
    present (some a) h = h

pub internal_unwrap_account_or_create-PlacedIn :
    (e : Env) (account : String) (deposit : ℕ) (s : Contract)
    → Holds
        (λ r. PlacedIn account r.1 (some r.0))
        (internal_unwrap_account_or_create e account deposit s)
unfolding internal_unwrap_account_or_create
internal_unwrap_account_or_create-PlacedIn e account deposit s =
    require-Holds _ (e.is_valid_account_id account) "Invalid account id" _ s λ _.
      asks-Holds _ _ (internal_get_account account) _ s (internal_get_account-PlacedIn account s)
        λ found placed. found_or_made found placed
  where
    found_or_made :
        (found : Option Account)
        → PlacedIn account s found
        → Holds
            (λ r. PlacedIn account r.1 (some r.0))
            ((elim found as (λ _. Action Contract Account) [
              | some a ↦
                  pure (record a {
                    storage_balance = saturating_add u128_mod a.storage_balance deposit;
                  })
              | none ↦
                  internal_create_account e account deposit false
                  >> asks (internal_unwrap_account account)
            ])
              s)
    found_or_made (some a) h = h
    found_or_made none h =
        seq-Holds (λ _. Unit) _ (internal_create_account e account deposit false) _ s (any_Holds _)
          λ _ t _.
            lift-Holds_last _ _ (internal_unwrap_account account t) t
              (internal_unwrap_account-PlacedIn account t) λ a placed. placed
