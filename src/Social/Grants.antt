-- ===== src/Social/Grants.antt =====
-- The question of social-web3/contract/src/permission.rs whether a permission covers a key, against a
-- plain description of it.
use contract_new_project_tem.Prelude.{
  ◌≡◌, refl, Bool, false, ◌||◌, Option, none, some, String, List, [], ◌∷◌, ok, Holds-ok, arith,
}
use contract_new_project_tem.Prelude.Map.{lookup}
use contract_new_project_tem.Prelude.Dict.{Dict, find, find-In}
use contract_new_project_tem.Social.State.{
  Contract, Account, Node, NodeId, NodeValue, value, node, deleted_entry, PermissionKey, Permission,
}
use contract_new_project_tem.Host.{PublicKey}
use contract_new_project_tem.Social.Keys.{split}
use contract_new_project_tem.Social.Tree.Accounts.{
  IsRooted, RootedIn, internal_get_account-RootedIn,
}
use contract_new_project_tem.Social.Accounts.{internal_get_account}
use contract_new_project_tem.Social.Permissions.{
  contains, find_permission, permissions_of, granted_below, granted_at, permission_key,
  is_write_permission_granted,
}
use contract_new_project_tem.Social.Tree.{Within, IsDescending}
use contract_new_project_tem.Social.Tree.Walks.{found_node}

-- The ids of the nodes that a path leads through, as far as it leads.
abbrev pub follow : Option Node → (Dict NodeValue → List NodeId) → List NodeId
follow none f = []
follow (some n) f = f n.children

unfoldable pub nodes_on : List String → Dict NodeValue → Contract → List NodeId
nodes_on [] children s = []
nodes_on (key ∷ path) children s = elim (find key children) [
  | some (node id) ↦ id ∷ follow (lookup id s.nodes) (λ below. nodes_on path below s)
  | _ ↦ []
]

abbrev pub any_in : List NodeId → List NodeId → Bool
any_in ids [] = false
any_in ids (id ∷ more) = contains id ids || any_in ids more

granted_below_lem :
    (ids : List NodeId) (path : List String) (n : Node) (id : NodeId) (s : Contract)
    → IsDescending s
    → Within id s n.children
    → granted_below ids path n s ≡ ok (any_in ids (nodes_on path n.children s))
unfolding granted_below nodes_on
granted_below_lem ids [] n id s v w = refl
granted_below_lem ids (key ∷ path) n id s v w =
    at (find key n.children) refl
      (λ c m inside. granted_below_lem ids path (record m { node_id = c }) c s v inside)
  where
    at :
        (found : Option NodeValue)
        → find key n.children ≡ found
        → ((c : NodeId) (m : Node)
            → Within c s m.children
            → granted_below ids path (record m { node_id = c }) s
              ≡ ok (any_in ids (nodes_on path m.children s)))
        → granted_below ids (key ∷ path) n s ≡ ok (any_in ids (nodes_on (key ∷ path) n.children s))
    at none eq rest = ground arith
    at (some (value x)) eq rest = ground arith
    at (some (deleted_entry h)) eq rest = ground arith
    at (some (node c)) eq rest =
        let (later, counted, present) = w c (find-In key (node c) n.children eq) in
        let (m, stored, unwrapped, inside) = found_node c s v present in
        ground (arith, eq, stored, unwrapped, rest c m inside)

-- Whether a permission covers a path below an account.
abbrev pub covers : Option Permission → Account → List String → Contract → Bool
covers none a path s = false
covers (some ids) a path s =
    any_in ids (a.node_id ∷ follow (lookup a.node_id s.nodes) (λ below. nodes_on path below s))

granted_at_lem :
    (p : Option Permission) (a : Account) (path : List String) (s : Contract)
    → IsDescending s
    → IsRooted a s
    → granted_at p a path s ≡ ok (covers p a path s)
granted_at_lem none a path s v r = refl
granted_at_lem (some ids) a path s v r =
    let (positive, counted, present) = r in
    let (m, stored, unwrapped, inside) = found_node a.node_id s v present in
    let below =
      granted_below_lem ids path (record m { node_id = a.node_id }) a.node_id s v inside in
    ground (arith, stored, unwrapped, below)

-- Where nodes descend, the question whether a permission covers a key is answered, and with yes exactly when
-- the account at the head of the key has granted the caller's key at least one of the nodes that the
-- key leads through, from the account's own node on, as far as it leads.
pub is_write_permission_granted-covers :
    (predecessor_id : Option String) (public_key : Option PublicKey) (key : String) (s : Contract)
    (k : PermissionKey) (first : String) (path : List String) (a : Account)
    → IsDescending s
    → permission_key predecessor_id public_key ≡ ok k
    → split key ≡ first ∷ path
    → internal_get_account first s ≡ ok (some a)
    → is_write_permission_granted predecessor_id public_key key s
      ≡ ok (covers (find_permission k (permissions_of a.node_id s)) a path s)
unfolding is_write_permission_granted
is_write_permission_granted-covers predecessor_id public_key key s k first path a v named parts
      account =
    rw (named, parts, account)
      (granted_at_lem (find_permission k (permissions_of a.node_id s)) a path s v
        (Holds-ok (RootedIn s) account (internal_get_account-RootedIn first s v)))
