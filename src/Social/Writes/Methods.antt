-- ===== src/Social/Writes/Methods.antt =====
-- `set` of social-web3/contract/src/api.rs writes to marked nodes only.
use contract_new_project_tem.Prelude.{
  ℕ, ◌≡◌, refl, Bool, true, false, not, Option, String, Holds, seq-Holds, lift-Holds, any_Holds,
  asks-Holds, require-Holds, require-Holds_last, ltb,
}
use contract_new_project_tem.Prelude.Dict.{same}
use contract_new_project_tem.Social.State.{
  Env, Contract, Account, NodeId, assert_live, is_live, Json, Fields, end, field,
}
use contract_new_project_tem.Social.Pools.{start, stop, unwrap_or}
use contract_new_project_tem.Social.Accounts.{
  new_account, internal_unwrap_account_or_create, internal_set_account,
}
use contract_new_project_tem.Social.Nodes.{internal_unwrap_node}
use contract_new_project_tem.Social.Permissions.{contains, internal_get_writeable_node_ids}
use contract_new_project_tem.Social.Setting.{
  recursive_set, writable_node_ids, set_account, set_accounts, as_object, set,
}
use contract_new_project_tem.Social.Tree.Same.{internal_set_account-same}
use contract_new_project_tem.Social.Tree.Frames.{refund_unused-same}
use contract_new_project_tem.Social.Writes.{writeable-Marked, Marked, Spares}
use contract_new_project_tem.Social.Writes.Entries.{recursive_set-marked}
use contract_new_project_tem.Social.Writes.Pieces.{Guards, stored-Seen}
use contract_new_project_tem.Social.Writes.Accounts.{
  Guards-trans, same-Guards, internal_unwrap_account_or_create-Opens,
}

module _ (e : Env) (w : NodeId → Bool) where
  set_account-Guards :
      (refund : Bool) (key : String) (json : Json) (balance : ℕ) (s : Contract)
      → Marked e w s
      → Holds (Guards e w s) (set_account e refund key json balance s)
  unfolding set_account new_account internal_get_writeable_node_ids
  set_account-Guards refund key json balance s v =
      let own_key = same key e.predecessor_account_id in
      seq-Holds _ _ (internal_unwrap_account_or_create e key balance) _ s
        (internal_unwrap_account_or_create-Opens e w key balance s v)
        λ a t (k, own).
          asks-Holds _ _ (internal_unwrap_node a.node_id) _ t (stored-Seen e w a.node_id t k.marked)
            λ n (its_id, seen).
              lift-Holds (λ _. Unit) _ (start (e.storage_usage t) a.storage_tracker) _ t
                (any_Holds _)
                λ started _. Guards-trans e w s t _ k (
                  seq-Holds _ _ (recursive_set e json own_key (writable_node_ids e own_key a t) n) _
                    t
                    (recursive_set-marked e w (writable_node_ids e own_key a t)
                      (granted a t k.marked own_key) json own_key n t k.marked seen
                      (λ h. rw (its_id) (own h)))
                    λ _ u l.
                      lift-Holds (λ _. Unit) _ (stop (e.storage_usage u) started) _ u (any_Holds _)
                        λ stopped _. Guards-trans e w t u _ l (
                          seq-Holds _ _
                            (internal_set_account e (record a { storage_tracker = stopped })) _ u
                            (same-Guards e w u _ l.marked (internal_set_account-same e _ u))
                            λ _ x m. Guards-trans e w u x _ m (
                              same-Guards e w x _ m.marked
                                (refund_unused-same e key refund balance x))))
    where
      granted :
          (a : Account) (t : Contract)
          → Marked e w t
          → (approved : Bool) (id : NodeId) → contains id (writable_node_ids e approved a t) ≡ true
          → w id ≡ true
      granted a t v true id h = cc
      granted a t v false id h = writeable-Marked e w a t id v h

  set_accounts-Guards :
      (refund : Bool) (fs : Fields) (balance : ℕ) (s : Contract)
      → Marked e w s
      → Holds (Guards e w s) (set_accounts e refund fs balance s)
  unfolding set_accounts
  set_accounts-Guards refund end balance s v = record { marked = v; spares = λ i j. refl }
  set_accounts-Guards refund (field key json fs) balance s v =
      seq-Holds _ _ (set_account e refund key json balance) _ s
        (set_account-Guards refund key json balance s v)
        λ _ t k. Guards-trans e w s t _ k (set_accounts-Guards refund fs 0 t k.marked)

-- A call of `set`, whatever it asks for, leaves the entries of each stored node as they were unless
-- the node is marked; and any marking of the ids will do that holds of the node of the caller's own
-- account, of every node that some account has granted to the caller or to its key, of all children of
-- marked nodes, and of all ids that are not in use.
pub set-Spares :
    (e : Env) (w : NodeId → Bool) (json : Json) (refund : Option Bool) (s : Contract)
    → Marked e w s
    → Holds (Spares w s) (set e json refund s)
unfolding set assert_live
set-Spares e w json refund s v =
    require-Holds _ (is_live s.status) "The contract status is not Live" _ s λ _.
      lift-Holds (λ _. Unit) _ (as_object json) _ s (any_Holds _)
        λ fs _.
          seq-Holds _ _ (set_accounts e (unwrap_or false refund) fs e.attached_deposit) _ s
            (set_accounts-Guards e w _ fs e.attached_deposit s v)
            λ left t k.
              require-Holds_last (Spares w s) (not (ltb 0 left))
                "The attached deposit could not be added to any account" t k.spares
