-- ===== src/Social/Tree/Accounts.antt =====
-- account.rs of social-web3/contract/src keeps the nodes descending: a new account is a new child of the
-- root.
use contract_new_project_tem.Prelude.{
  ℕ, ◌<◌, ◌≡◌, refl, sym, inl, inr, Bool, false, not, ◌&&◌, Option, none, some, String, Holds,
  seq-Holds, lift-Holds, asks-Holds, require-Holds, any_Holds, Outcome-cases, bind-Holds, Holds-ok,
  expect, pure, asks, ◌>>◌, saturating_add, u128_mod, arith, ltb, leb, Bool-cases, Action,
}
use contract_new_project_tem.Prelude.Map.{lookup}
use contract_new_project_tem.Prelude.Dict.{find, put, find-In}
use contract_new_project_tem.Social.State.{
  Env, Contract, Account, NodeId, NodeValue, value, node, deleted_entry, new_node, create_node_id,
  send, min_storage_bytes, into_account, from_v0,
}
use contract_new_project_tem.Social.Pools.{
  start, stop, available_shared, internal_unwrap_shared_storage_pool,
}
use contract_new_project_tem.Social.Accounts.{
  new_account, account_at, account_of, internal_get_account, internal_unwrap_account,
  internal_unwrap_account_or_create, internal_initial_set_account, internal_create_account,
  internal_create_account_from_shared_storage, internal_set_node, internal_set_account,
}
use contract_new_project_tem.Social.Tree.{
  IsPresent, IsDescending, Grows, Grows-refl, Grows-trans, put-Within,
  internal_set_node-IsDescending,
}
use contract_new_project_tem.Social.Tree.Pieces.{new_node-Within, create_node_id_lem}
use contract_new_project_tem.Social.Tree.Same.{
  SameNodes, SameNodes-trans, SameNodes-Grows, SameNodes-IsDescending, internal_set_account-same,
  Tended, then-Tended,
}

-- The node of an account lies below the root.
abbrev pub IsRooted : Account → Contract → Type 0
IsRooted a s = (0 < a.node_id) × (a.node_id < s.node_count) × IsPresent a.node_id s

abbrev pub RootedIn : Contract → Option Account → Type 0
RootedIn s none = Unit
RootedIn s (some a) = IsRooted a s

pub account_at-node_id :
    (id : NodeId) (s : Contract) → Holds (λ a. a.node_id ≡ id) (account_at id s)
unfolding into_account from_v0
account_at-node_id id s =
    bind-Holds _ (expect (lookup id s.accounts) "called `Option::unwrap()` on a `None` value") _
      λ x _. bind-Holds _ (into_account x) _ λ a _. refl

account_of-RootedIn :
    (s : Contract) (account_id : String) (found : Option NodeValue)
    → IsDescending s
    → find account_id s.root_node.children ≡ found
    → Holds (RootedIn s) (account_of found s)
account_of-RootedIn s account_id none v eq = tt
account_of-RootedIn s account_id (some (node id)) v eq =
    bind-Holds (RootedIn s) (account_at id s) _ λ a found.
      rw (Holds-ok (λ b. b.node_id ≡ id) found (account_at-node_id id s))
        (v.root id (find-In account_id (node id) s.root_node.children eq))
account_of-RootedIn s account_id (some (value x)) v eq = tt
account_of-RootedIn s account_id (some (deleted_entry h)) v eq = tt

pub internal_get_account-RootedIn :
    (account_id : String) (s : Contract)
    → IsDescending s
    → Holds (RootedIn s) (internal_get_account account_id s)
unfolding internal_get_account
internal_get_account-RootedIn account_id s v =
    account_of-RootedIn s account_id (find account_id s.root_node.children) v refl

pub internal_unwrap_account-IsRooted :
    (account_id : String) (s : Contract)
    → IsDescending s
    → Holds (λ a. IsRooted a s) (internal_unwrap_account account_id s)
unfolding internal_unwrap_account
internal_unwrap_account-IsRooted account_id s v =
    bind-Holds _ (internal_get_account account_id s) _ λ o found.
      present o (Holds-ok (RootedIn s) found (internal_get_account-RootedIn account_id s v))
  where
    present :
        (o : Option Account)
        → RootedIn s o
        → Holds (λ a. IsRooted a s) (expect o "The account doesn't exist")
    present none h = tt
    present (some a) h = h

-- A new child of the root.
abbrev pub rooted : Env → String → NodeId → Contract → Contract
rooted e account_id id s = record s {
  root_node = record s.root_node {
    block_height = e.block_height;
    children = put account_id (node id) s.root_node.children;
  };
}

rooted-IsDescending :
    (e : Env) (account_id : String) (id : NodeId) (s : Contract)
    → IsDescending s
    → (0 < id) × (id < s.node_count) × IsPresent id s
    → IsDescending (rooted e account_id id s)
rooted-IsDescending e account_id id s v h = record {
  counted = v.counted;
  root =
      put-Within s 0 account_id (node id) s.root_node.children
        (λ c is. ground (arith, h.0, h.1, h.2)) v.root;
  below = v.below;
}

pub internal_initial_set_account-Tended :
    (e : Env) (account_id : String) (a : Account) (s : Contract)
    → IsDescending s
    → 0 < a.node_id
    → a.node_id < s.node_count
    → Holds (Tended s) (internal_initial_set_account e account_id a s)
unfolding internal_initial_set_account
internal_initial_set_account-Tended e account_id a s v positive counted =
    lift-Holds (λ _. Unit) _ (start (e.storage_usage s) a.storage_tracker) _ s (any_Holds _)
      λ started _.
        lift-Holds _ _ (new_node e a.node_id none) _ s (new_node-Within e a.node_id none s)
          λ fresh (its_id, inside).
            seq-Holds _ _ (internal_set_node e fresh) _ s
              (internal_set_node-IsDescending e fresh s v (rw its_id inside))
              λ _ t (tree, grows, there).
                let u = rooted e account_id a.node_id t in
                let tree_u =
                  rooted-IsDescending e account_id a.node_id t tree
                    (positive, omega (arith, counted, grows.count), rw (sym its_id) there) in
                seq-Holds _ _
                  (internal_set_account e
                    (record (new_account a.node_id) { shared_storage = a.shared_storage }))
                  _ u (internal_set_account-same e _ u)
                  λ existed w frame.
                    require-Holds _ (not existed) "Internal bug. Account already exists." _ w λ _.
                      lift-Holds (λ _. Unit) _ (stop (e.storage_usage w) started) _ w (any_Holds _)
                        λ stopped _.
                          seq-Holds _ _
                            (internal_set_account e (record a { storage_tracker = stopped })) _ w
                            (internal_set_account-same e _ w)
                            λ known x after.
                              let both : SameNodes u x = SameNodes-trans frame after in
                              let g : Grows u x = SameNodes-Grows both in
                              (
                                SameNodes-IsDescending both tree_u,
                                Grows-trans grows (record {
                                  past = g.past;
                                  count = g.count;
                                  present = g.present;
                                }),
                              )

-- A transfer is none of the tree's.
pub sent-same :
    (e : Env) (deposit : ℕ) (t : Contract) → SameNodes t (send e.predecessor_account_id deposit t)
sent-same e deposit t = record {
  past = inr refl;
  root = refl;
  nodes = refl;
  count = refl;
  permissions = refl;
}

pub internal_create_account-Tended :
    (e : Env) (account_id : String) (deposit : ℕ) (only : Bool) (s : Contract)
    → IsDescending s
    → Holds (Tended s) (internal_create_account e account_id deposit only s)
unfolding internal_create_account new_account
internal_create_account-Tended e account_id deposit only s v =
    seq-Holds _ _ create_node_id _ s (create_node_id_lem s v)
      λ id t (is_next, counted, tree, grows).
        let positive : 0 < id = rw (is_next) v.counted in
        then-Tended s t _ grows (elim (Bool-cases (only && ltb 0 deposit)) [
          | inl back ↦
              rw (back, Holds)
                (then-Tended t _ _ (SameNodes-Grows (sent-same e deposit t)) (
                  internal_initial_set_account-Tended e account_id _
                    (send e.predecessor_account_id deposit t)
                    (SameNodes-IsDescending (sent-same e deposit t) tree) positive counted))
          | inr kept ↦
              rw (kept, Holds)
                (internal_initial_set_account-Tended e account_id _ t tree positive counted)
        ])

pub internal_create_account_from_shared_storage-Tended :
    (e : Env) (account_id : String) (max_bytes : ℕ) (pool_id : String) (s : Contract)
    → IsDescending s
    → Holds
        (Tended s)
        (internal_create_account_from_shared_storage e account_id max_bytes pool_id s)
unfolding internal_create_account_from_shared_storage new_account
internal_create_account_from_shared_storage-Tended e account_id max_bytes pool_id s v =
    require-Holds _ (leb min_storage_bytes max_bytes)
      "The max bytes is less than the minimum storage required" _ s
      λ _.
        asks-Holds (λ _. Unit) _ (internal_unwrap_shared_storage_pool pool_id) _ s (any_Holds _)
          λ pool _.
            lift-Holds (λ _. Unit) _ (available_shared e pool _) _ s (any_Holds _)
              λ free _.
                require-Holds _ (leb min_storage_bytes free)
                  "Not enough storage available in the shared storage pool to create an account" _ s
                  λ _.
                    seq-Holds _ _ create_node_id _ s (create_node_id_lem s v)
                      λ id t (is_next, counted, tree, grows). then-Tended s t _ grows (
                        internal_initial_set_account-Tended e account_id _ t tree
                          (rw (is_next) v.counted) counted)

-- The account that is found or made, below the root.
pub internal_unwrap_account_or_create-Tended :
    (e : Env) (account_id : String) (deposit : ℕ) (s : Contract)
    → IsDescending s
    → Holds
        (λ r. Tended s r × IsRooted r.0 r.1)
        (internal_unwrap_account_or_create e account_id deposit s)
unfolding internal_unwrap_account_or_create
internal_unwrap_account_or_create-Tended e account_id deposit s v =
    require-Holds _ (e.is_valid_account_id account_id) "Invalid account id" _ s λ _.
      asks-Holds _ _ (internal_get_account account_id) _ s
        (internal_get_account-RootedIn account_id s v) λ found rooted. found_or_made found rooted
  where
    found_or_made :
        (found : Option Account)
        → RootedIn s found
        → Holds
            (λ r. Tended s r × IsRooted r.0 r.1)
            ((elim found as (λ _. Action Contract Account) [
              | some a ↦
                  pure (record a {
                    storage_balance = saturating_add u128_mod a.storage_balance deposit;
                  })
              | none ↦
                  internal_create_account e account_id deposit false
                  >> asks (internal_unwrap_account account_id)
            ])
              s)
    found_or_made (some a) h = ((v, Grows-refl s), h)
    found_or_made none h =
        seq-Holds _ _ (internal_create_account e account_id deposit false) _ s
          (internal_create_account-Tended e account_id deposit false s v)
          λ _ t (tree, grows).
            created t tree grows (internal_unwrap_account-IsRooted account_id t tree)
      where
        created :
            (t : Contract)
            → IsDescending t
            → Grows s t
            → Holds (λ a. IsRooted a t) (internal_unwrap_account account_id t)
            → Holds
                (λ r. Tended s r × IsRooted r.0 r.1)
                (asks (internal_unwrap_account account_id) t)
        created t tree grows h = elim (Outcome-cases (internal_unwrap_account account_id t)) [
          | inl (a, eq) ↦ rw (eq, Holds) ((tree, grows), Holds-ok _ eq h)
          | inr (x, eq) ↦ rw (eq, Holds) tt
        ]
