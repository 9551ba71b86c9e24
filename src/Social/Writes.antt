-- ===== src/Social/Writes.antt =====
-- Which nodes a call of `set` in social-web3/contract/src may write to. The nodes are marked: those of
-- the caller, those it was granted, all that lie below these, and all ids that are new.
pub mod Pieces
pub mod Entries
pub mod Accounts
pub mod Methods
use contract_new_project_tem.Prelude.{
  ℕ, ◌+◌, ◌<◌, ◌≤◌, ◌≡◌, ◌∙◌, refl, sym, ap, inl, inr, Bool, true, false, Option, none, some,
  String, List, [], ◌∷◌, ◌++◌, ◌⊎◌, Bool-cases, Option-cases, Holds, Outcome, ok, panic, arith,
  ◌==◌, if◌then◌else◌,
}
use contract_new_project_tem.Prelude.Map.{lookup, insert, lookup-insert, insert-cases}
use contract_new_project_tem.Prelude.Dict.{Dict, eq_of_same, find, put, In, put-In}
use contract_new_project_tem.Social.State.{
  Env, Contract, Account, Node, NodeId, NodeValue, node, PermissionKey, Permission, account_id,
  signer_public_key, same_key,
}
use contract_new_project_tem.Social.Pools.{unwrap_or}
use contract_new_project_tem.Social.Accounts.{internal_set_node, new_account}
use contract_new_project_tem.Social.Permissions.{
  Permissions, find_permission, contains, internal_get_writeable_node_ids, permissions_of,
}
use contract_new_project_tem.Social.Tree.{after_write, written}
use contract_new_project_tem.Social.Tree.Same.{SameNodes}

abbrev pub children_in : Option Node → Option (Dict NodeValue)
children_in none = none
children_in (some n) = some n.children

-- The entries that are stored for a node.
abbrev pub entries : NodeId → Contract → Option (Dict NodeValue)
entries id s = children_in (lookup id s.nodes)

-- An account's permissions list these nodes for a key.
abbrev pub Lists : PermissionKey → Permission → Permissions → Type 0
Lists k ids [] = ⊥
Lists k ids ((j, p) ∷ ps) = ((k ≡ j) × (ids ≡ p)) ⊎ Lists k ids ps

-- The keys by which a caller is known: its account, and the key that it signs with.
abbrev pub IsCaller : Env → PermissionKey → Type 0
IsCaller e k =
    (k ≡ account_id e.predecessor_account_id) ⊎ (k ≡ signer_public_key e.signer_account_pk)

-- The account of this node has granted a node to the caller.
abbrev pub IsGranted : Env → Contract → NodeId → NodeId → Type 0
IsGranted e s account id =
    (ps : Permissions) × (k : PermissionKey) × (ids : Permission) × (lookup account s.permissions
      ≡ some ps)
    × Lists k ids ps
    × IsCaller e k
    × (contains id ids ≡ true)

-- The marked nodes, for a caller: what it was granted, its own, and all that is below these or new.
pub record Marked (e : Env) (w : NodeId → Bool) (s : Contract) : Type 0 where
  pub fresh : (id : NodeId) → s.node_count ≤ id → w id ≡ true
  pub granted : (account id : NodeId) → IsGranted e s account id → w id ≡ true
  pub own :
      (id : NodeId)
      → find e.predecessor_account_id s.root_node.children ≡ some (node id)
      → w id ≡ true
  pub below :
      (id c : NodeId) (n : Node)
      → lookup id s.nodes ≡ some n
      → w id ≡ true
      → In (node c) n.children
      → w c ≡ true

-- The entries of the nodes that are not marked are as they were.
abbrev pub Spares : (NodeId → Bool) → {A : Type 0} → Contract → A × Contract → Type 0
Spares w s r = (id : NodeId) → w id ≡ false → entries id r.1 ≡ entries id s

-- A node in hand is marked with its children, or stands as it is stored.
pub record Seen (w : NodeId → Bool) (n : Node) (s : Contract) : Type 0 where
  pub stored : w n.node_id ≡ false → entries n.node_id s ≡ some n.children
  pub below : w n.node_id ≡ true → (c : NodeId) → In (node c) n.children → w c ≡ true

eq_of_same_key : (j k : PermissionKey) → same_key j k ≡ true → k ≡ j
unfolding same_key
eq_of_same_key (account_id a) (account_id b) h = ap (λ c. account_id c) (sym (eq_of_same a b h))
eq_of_same_key (account_id a) (signer_public_key b) h = ground arith
eq_of_same_key (signer_public_key a) (account_id b) h = ground arith
eq_of_same_key (signer_public_key a) (signer_public_key b) h = ground arith

find_permission-Lists :
    (k : PermissionKey) (ids : Permission) (ps : Permissions)
    → find_permission k ps ≡ some ids
    → Lists k ids ps
unfolding find_permission
find_permission-Lists k ids [] h = ground arith
find_permission-Lists k ids ((j, p) ∷ ps) h = elim (Bool-cases (same_key j k)) [
  | inl is ↦ inl (eq_of_same_key j k is, some_eq (rw (is) at h))
  | inr differs ↦ inr (find_permission-Lists k ids ps (rw (differs) at h))
]
  where
    some_eq : some p ≡ some ids → ids ≡ p
    some_eq h = cc

contains-++ :
    (id : NodeId) (xs ys : List NodeId)
    → contains id (xs ++ ys) ≡ true
    → (contains id xs ≡ true) ⊎ (contains id ys ≡ true)
contains-++ id [] ys h = inr h
contains-++ id (x ∷ xs) ys h = ground (arith, contains-++ id xs ys)

-- A node that an account lists for a key of the caller is granted.
listed-IsGranted :
    (e : Env) (s : Contract) (account id : NodeId) (k : PermissionKey) (found : Option Permissions)
    → lookup account s.permissions ≡ found
    → IsCaller e k
    → contains id (unwrap_or [] (find_permission k (unwrap_or [] found))) ≡ true
    → IsGranted e s account id
unfolding find_permission
listed-IsGranted e s account id k none eq caller h = ground arith
listed-IsGranted e s account id k (some ps) eq caller h =
    elim (Option-cases (find_permission k ps)) [
      | inl missing ↦ absurd (nothing (rw (missing) at h))
      | inr (ids, listed) ↦
          (ps, k, ids, eq, find_permission-Lists k ids ps listed, caller, rw (listed) at h)
    ]
  where
    nothing : false ≡ true → ⊥
    nothing h = cc

module _ (e : Env) (w : NodeId → Bool) where
  -- What `set` takes for granted is marked.
  pub writeable-Marked :
      (a : Account) (s : Contract) (id : NodeId)
      → Marked e w s
      → contains id (internal_get_writeable_node_ids e a s) ≡ true
      → w id ≡ true
  unfolding internal_get_writeable_node_ids permissions_of
  writeable-Marked a s id v h =
      elim (contains-++ id
        (unwrap_or [] (
          find_permission (account_id e.predecessor_account_id)
            (unwrap_or [] (lookup a.node_id s.permissions))))
        _ h) [
          | inl by_account ↦ v.granted a.node_id id (
              listed-IsGranted e s a.node_id id (account_id e.predecessor_account_id)
                (lookup a.node_id s.permissions) refl (inl refl) by_account)
          | inr by_key ↦ v.granted a.node_id id (
              listed-IsGranted e s a.node_id id (signer_public_key e.signer_account_pk)
                (lookup a.node_id s.permissions) refl (inr refl) by_key)
        ]

  pub write-Marked :
      (n : Node) (s : Contract) → Marked e w s → Seen w n s → Marked e w (after_write e n s)
  write-Marked n s v seen = record {
    fresh = v.fresh;
    granted = v.granted;
    own = v.own;
    below = λ id c m h marked inside. elim (insert-cases id n.node_id (written e n) m s.nodes h) [
      | inl (same_id, same_node) ↦
          seen.below (rw (sym same_id) marked) c (rw (sym same_node) at inside)
      | inr before ↦ v.below id c m before marked inside
    ];
  }

  pub write-Spares :
      (n : Node) (s : Contract) (id : NodeId)
      → Seen w n s
      → w id ≡ false
      → entries id (after_write e n s) ≡ entries id s
  write-Spares n s id seen h =
      ground (arith, lookup-insert id n.node_id (written e n) s.nodes, seen.stored)

  pub same-Marked : {s t : Contract} → SameNodes s t → Marked e w s → Marked e w t
  same-Marked {s} {t} f v = record {
    fresh = λ id h. v.fresh id (omega (arith, f.count, h));
    granted = λ account id (ps, k, ids, found, listed, caller, inside).
        v.granted account id (ps, k, ids, rw (f.permissions) at found, listed, caller, inside);
    own = λ id h. v.own id (rw (f.root) at h);
    below = λ id c n h marked inside. v.below id c n (rw (f.nodes) at h) marked inside;
  }

  pub same-Spares : {A : Type 0} {s : Contract} (r : A × Contract) → SameNodes s r.1 → Spares w s r
  same-Spares r f id h = rw (f.nodes) refl
