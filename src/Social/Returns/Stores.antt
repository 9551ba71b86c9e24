-- ===== src/Social/Returns/Stores.antt =====
-- `set` of social-web3/contract/src/api.rs on one key of one account leaves the text where `get` looks.
use contract_new_project_tem.Prelude.{
  ℕ, ◌≡◌, Bool, true, false, not, Option, none, String, [], ◌∷◌, ok, Holds, Holds_mono, Holds_both,
  seq-Holds, lift-Holds, asks-Holds, require-Holds, require-Holds_last, any_Holds, ltb,
}
use contract_new_project_tem.Prelude.Dict.{find, same}
use contract_new_project_tem.Social.State.{
  Env, Contract, string, object, end, field, is_live, assert_live,
}
use contract_new_project_tem.Social.Pools.{start, stop, unwrap_or}
use contract_new_project_tem.Social.Accounts.{
  internal_unwrap_account_or_create, internal_set_account,
}
use contract_new_project_tem.Social.Nodes.{internal_unwrap_node}
use contract_new_project_tem.Social.Keys.{is_key_valid, path_of}
use contract_new_project_tem.Social.Setting.{
  set, set_accounts, set_account, recursive_set, writable_node_ids, refund_unused,
}
use contract_new_project_tem.Social.Reading.{get}
use contract_new_project_tem.Social.Tree.{IsDescending}
use contract_new_project_tem.Social.Tree.Pieces.{internal_unwrap_node-Within}
use contract_new_project_tem.Social.Tree.Same.{
  SameNodes, SameNodes-trans, internal_set_account-same,
}
use contract_new_project_tem.Social.Tree.Accounts.{internal_unwrap_account_or_create-Tended}
use contract_new_project_tem.Social.Tree.Frames.{refund_unused-same}
use contract_new_project_tem.Social.Tree.Methods.{set-Tended}
use contract_new_project_tem.Social.Returns.Reads.{Stores, get-Stores}
use contract_new_project_tem.Social.Returns.Entries.{recursive_set-Filled, Shows-nodes}
use contract_new_project_tem.Social.Returns.Homes.{internal_unwrap_account_or_create-PlacedIn}

set_account-Stores :
    (e : Env) (refund : Bool) (account key x : String) (balance : ℕ) (s : Contract)
    → IsDescending s
    → Holds
        (λ r. Stores account key x r.1)
        (set_account e refund account (object (field key (string x) end)) balance s)
unfolding set_account
set_account-Stores e refund account key x balance s v =
    let own = same account e.predecessor_account_id in
    seq-Holds _ _ (internal_unwrap_account_or_create e account balance) _ s
      (Holds_both _ _ (internal_unwrap_account_or_create e account balance s)
        (internal_unwrap_account_or_create-Tended e account balance s v)
        (internal_unwrap_account_or_create-PlacedIn e account balance s))
      λ a t (((tree, _), _), placed).
        asks-Holds _ _ (internal_unwrap_node a.node_id) _ t
          (internal_unwrap_node-Within a.node_id t tree)
          λ n (its_id, inside, _).
            lift-Holds (λ _. Unit) _ (start (e.storage_usage t) a.storage_tracker) _ t (any_Holds _)
              λ started _.
                seq-Holds _ _
                  (recursive_set e (object (field key (string x) end)) own
                    (writable_node_ids e own a t) n)
                  _ t (recursive_set-Filled e key x own (writable_node_ids e own a t) n t inside)
                  λ _ u filled.
                    lift-Holds (λ _. Unit) _ (stop (e.storage_usage u) started) _ u (any_Holds _)
                      λ stopped _.
                        seq-Holds _ _
                          (internal_set_account e (record a { storage_tracker = stopped })) _ u
                          (internal_set_account-same e _ u)
                          λ _ w frame.
                            Holds_mono (refund_unused e account refund balance w)
                              (λ r after.
                                let both : SameNodes u r.1 = SameNodes-trans frame after in
                                record {
                                  id = n.node_id;
                                  home = filled.home;
                                  placed = rw (both.root, filled.root, its_id) placed;
                                  there = rw (both.nodes) filled.there;
                                  shows =
                                      Shows-nodes x (find key filled.home.children) u r.1 both.nodes
                                        filled.shows;
                                })
                              (refund_unused-same e account refund balance w)

set-Stores :
    (e : Env) (account key x : String) (refund : Option Bool) (s : Contract)
    → IsDescending s
    → Holds
        (λ r. Stores account key x r.1)
        (set e (object (field account (object (field key (string x) end)) end)) refund s)
unfolding set set_accounts assert_live
set-Stores e account key x refund s v =
    require-Holds _ (is_live s.status) "The contract status is not Live" _ s λ _.
      seq-Holds (λ r. Stores account key x r.1) _
        (set_accounts e (unwrap_or false refund)
          (field account (object (field key (string x) end)) end) e.attached_deposit)
        _ s
        (seq-Holds _ _
          (set_account e (unwrap_or false refund) account (object (field key (string x) end))
            e.attached_deposit)
          _ s (set_account-Stores e (unwrap_or false refund) account key x e.attached_deposit s v)
          λ _ t h. h)
        λ left t h.
          require-Holds_last _ (not (ltb 0 left))
            "The attached deposit could not be added to any account" t h

-- Where the nodes descend, a call of `set`, by anyone, that goes through and writes a text under a valid key of an
-- account whose name is a valid key too, is followed by a `get` of the path of the two that returns the
-- object that was written, also if the key was a node and the text went under its empty key.
pub set-get :
    (e : Env) (account key x path : String) (refund : Option Bool) (s : Contract)
    → IsDescending s
    → is_key_valid account ≡ true
    → is_key_valid key ≡ true
    → path_of path ≡ account ∷ key ∷ []
    → Holds
        (λ r.
          get (path ∷ []) none r.1
          ≡ ok (object (field account (object (field key (string x) end)) end)))
        (set e (object (field account (object (field key (string x) end)) end)) refund s)
set-get e account key x path refund s v va vk is =
    let json = object (field account (object (field key (string x) end)) end) in
    Holds_mono (set e json refund s)
      (λ r (stores, (tree, _)). get-Stores account key x path r.1 va vk is tree.counted stores)
      (Holds_both _ _ (set e json refund s) (set-Stores e account key x refund s v)
        (set-Tended e json refund s v))
