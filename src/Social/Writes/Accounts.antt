-- ===== src/Social/Writes/Accounts.antt =====
-- account.rs of social-web3/contract/src writes to marked nodes only: a new account is given a new node,
-- and the caller's own account is marked.
use contract_new_project_tem.Prelude.{
  ℕ, ◌≡◌, ◌∙◌, refl, inl, inr, Bool, true, false, not, ◌&&◌, Option, none, some, String, Holds,
  Holds_mono, Holds-ok, bind-Holds, expect, seq-Holds, lift-Holds, lift-Holds_last, any_Holds,
  asks-Holds, require-Holds, Outcome, arith, ltb, Bool-cases, Action, ◌>>◌, asks, pure,
  saturating_add, u128_mod,
}
use contract_new_project_tem.Prelude.Dict.{find, same, find-put, eq_of_same}
use contract_new_project_tem.Social.State.{
  Env, Contract, Account, NodeId, NodeValue, value, node, deleted_entry, new_node, create_node_id,
  send,
}
use contract_new_project_tem.Social.Pools.{start, stop}
use contract_new_project_tem.Social.Accounts.{
  new_account, account_at, account_of, internal_get_account, internal_unwrap_account,
  internal_unwrap_account_or_create, internal_initial_set_account, internal_create_account,
  internal_set_account, internal_set_node,
}
use contract_new_project_tem.Social.Permissions.{internal_get_writeable_node_ids, permissions_of}
use contract_new_project_tem.Social.Tree.Accounts.{account_at-node_id, sent-same, rooted}
use contract_new_project_tem.Social.Tree.Same.{
  SameNodes, SameNodes-trans, internal_set_account-same,
}
use contract_new_project_tem.Social.Writes.{Marked, same-Marked, same-Spares}
use contract_new_project_tem.Social.Writes.Pieces.{
  Guards, new_node-Seen, create_node_id-Guards, write-Guards,
}

module _ (e : Env) (w : NodeId → Bool) where
  pub Guards-trans :
      {A B : Type 0} {a : A} (s t : Contract) (r : Outcome (B × Contract))
      → Guards e w s (a, t)
      → Holds (Guards e w t) r
      → Holds (Guards e w s) r
  Guards-trans s t r k h =
      Holds_mono r
        (λ q l. record { marked = l.marked; spares = λ i j. l.spares i j ∙ k.spares i j }) h

  -- An action that leaves the nodes alone.
  pub same-Guards :
      {A : Type 0} (s : Contract) (r : Outcome (A × Contract))
      → Marked e w s
      → Holds (λ q. SameNodes s q.1) r
      → Holds (Guards e w s) r
  same-Guards s r v h =
      Holds_mono r
        (λ q frame. record { marked = same-Marked e w frame v; spares = same-Spares e w q frame }) h

  rooted-Marked :
      (account_id : String) (id : NodeId) (s : Contract)
      → Marked e w s
      → w id ≡ true
      → Marked e w (rooted e account_id id s)
  unfolding internal_get_writeable_node_ids permissions_of
  rooted-Marked account_id id s v h = record {
    fresh = v.fresh;
    granted = v.granted;
    own = λ c found. ground (
      arith,
      find-put account_id e.predecessor_account_id (node id) s.root_node.children,
      v.own c,
    );
    below = v.below;
  }

  internal_initial_set_account-Guards :
      (account_id : String) (a : Account) (s : Contract)
      → Marked e w s
      → w a.node_id ≡ true
      → Holds (Guards e w s) (internal_initial_set_account e account_id a s)
  unfolding internal_initial_set_account
  internal_initial_set_account-Guards account_id a s v h =
      lift-Holds (λ _. Unit) _ (start (e.storage_usage s) a.storage_tracker) _ s (any_Holds _)
        λ started _.
          lift-Holds _ _ (new_node e a.node_id none) _ s (new_node-Seen e w a.node_id none s h)
            λ fresh (its_id, seen).
              seq-Holds _ _ (internal_set_node e fresh) _ s
                (write-Guards e w fresh s s v (λ id j. refl) seen)
                λ _ t k.
                  let u = rooted e account_id a.node_id t in
                  let marked_u : Marked e w u = rooted-Marked account_id a.node_id t k.marked h in
                  seq-Holds _ _
                    (internal_set_account e
                      (record (new_account a.node_id) { shared_storage = a.shared_storage }))
                    _ u (internal_set_account-same e _ u)
                    λ existed x frame.
                      require-Holds _ (not existed) "Internal bug. Account already exists." _ x λ _.
                        lift-Holds (λ _. Unit) _ (stop (e.storage_usage x) started) _ x
                          (any_Holds _)
                          λ stopped _.
                            seq-Holds _ _
                              (internal_set_account e (record a { storage_tracker = stopped })) _ x
                              (internal_set_account-same e _ x)
                              λ known y after.
                                let both : SameNodes u y = SameNodes-trans frame after in
                                record {
                                  marked = same-Marked e w both marked_u;
                                  spares = λ i j. rw (both.nodes) (k.spares i j);
                                }

  internal_create_account-Guards :
      (account_id : String) (deposit : ℕ) (only : Bool) (s : Contract)
      → Marked e w s
      → Holds (Guards e w s) (internal_create_account e account_id deposit only s)
  unfolding internal_create_account new_account
  internal_create_account-Guards account_id deposit only s v =
      seq-Holds _ _ create_node_id _ s (create_node_id-Guards e w s v) λ id t (marked_id, k).
        Guards-trans s t _ k (elim (Bool-cases (only && ltb 0 deposit)) [
          | inl back ↦
              rw (back, Holds)
                (Guards-trans {a = tt} t (send e.predecessor_account_id deposit t) _
                  (record {
                    marked = same-Marked e w (sent-same e deposit t) k.marked;
                    spares = λ i j. refl;
                  })
                  (internal_initial_set_account-Guards account_id _
                    (send e.predecessor_account_id deposit t)
                    (same-Marked e w (sent-same e deposit t) k.marked) marked_id))
          | inr kept ↦
              rw (kept, Holds)
                (internal_initial_set_account-Guards account_id _ t k.marked marked_id)
        ])

  -- An account that is the caller's is marked.
  abbrev pub IsOwn : String → Account → Type 0
  IsOwn key a = same key e.predecessor_account_id ≡ true → w a.node_id ≡ true

  abbrev OwnIn : String → Option Account → Type 0
  OwnIn key none = Unit
  OwnIn key (some a) = IsOwn key a

  account_of-OwnIn :
      (key : String) (s : Contract) (found : Option NodeValue)
      → Marked e w s
      → find key s.root_node.children ≡ found
      → Holds (OwnIn key) (account_of found s)
  account_of-OwnIn key s none v eq = tt
  account_of-OwnIn key s (some (node id)) v eq =
      bind-Holds (OwnIn key) (account_at id s) _ λ a found is.
        rw (Holds-ok (λ b. b.node_id ≡ id) found (account_at-node_id id s))
          (v.own id (rw (eq_of_same key e.predecessor_account_id is) at eq))
  account_of-OwnIn key s (some (value x)) v eq = tt
  account_of-OwnIn key s (some (deleted_entry h)) v eq = tt

  internal_get_account-OwnIn :
      (key : String) (s : Contract) → Marked e w s → Holds (OwnIn key) (internal_get_account key s)
  unfolding internal_get_account
  internal_get_account-OwnIn key s v = account_of-OwnIn key s (find key s.root_node.children) v refl

  -- The account that is found or made.
  abbrev pub Opens : String → Contract → Account × Contract → Type 0
  Opens key s r = Guards e w s r × IsOwn key r.0

  unwrapped-IsOwn :
      (key : String) (s t : Contract)
      → Guards e w s (tt, t)
      → Holds (Opens key s) (asks (internal_unwrap_account key) t)
  unfolding internal_unwrap_account
  unwrapped-IsOwn key s t k =
      asks_last (Opens key s)
        (bind-Holds (IsOwn key) (internal_get_account key t) _ λ o found.
          present o (Holds-ok (OwnIn key) found (internal_get_account-OwnIn key t k.marked)))
        (λ a own. (record { marked = k.marked; spares = k.spares }, own))
    where
      present :
          (o : Option Account)
          → OwnIn key o
          → Holds (IsOwn key) (expect o "The account doesn't exist")
      present none h = tt
      present (some a) h = h

      asks_last :
          (Q : Account × Contract → Type 0)
          → Holds (IsOwn key) (internal_unwrap_account key t)
          → ((a : Account) → IsOwn key a → Q (a, t))
          → Holds Q (asks (internal_unwrap_account key) t)
      asks_last Q h next = lift-Holds_last (IsOwn key) Q (internal_unwrap_account key t) t h next

  pub internal_unwrap_account_or_create-Opens :
      (key : String) (deposit : ℕ) (s : Contract)
      → Marked e w s
      → Holds (Opens key s) (internal_unwrap_account_or_create e key deposit s)
  unfolding internal_unwrap_account_or_create
  internal_unwrap_account_or_create-Opens key deposit s v =
      require-Holds _ (e.is_valid_account_id key) "Invalid account id" _ s λ _.
        asks-Holds _ _ (internal_get_account key) _ s (internal_get_account-OwnIn key s v)
          λ found own. found_or_made found own
    where
      found_or_made :
          (found : Option Account)
          → OwnIn key found
          → Holds (Opens key s) (
              (elim found as (λ _. Action Contract Account) [
                | some a ↦ pure (record a {
                  storage_balance = saturating_add u128_mod a.storage_balance deposit;
                })
                | none ↦
                    internal_create_account e key deposit false
                    >> asks (internal_unwrap_account key)
              ])
                s)
      found_or_made (some a) own = (record { marked = v; spares = λ i j. refl }, own)
      found_or_made none own =
          seq-Holds _ _ (internal_create_account e key deposit false) _ s
            (internal_create_account-Guards key deposit false s v)
            λ _ t k. unwrapped-IsOwn key s t k
