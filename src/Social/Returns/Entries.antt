-- ===== src/Social/Returns/Entries.antt =====
-- `recursive_set` of social-web3/contract/src/api.rs on one key: the node shows the text under it.
use contract_new_project_tem.Prelude.{
  ◌<◌, ◌≡◌, refl, inl, inr, lift, Bool, not, ◌||◌, Option, none, some, String, List, Holds,
  bind-Holds, seq-Holds, lift-Holds, lift-Holds_last, asks-Holds, require-Holds, ensure, arith,
  Option-cases,
}
use contract_new_project_tem.Prelude.Map.{lookup, lookup-insert}
use contract_new_project_tem.Prelude.Dict.{find, find-put, find-In, same_refl}
use contract_new_project_tem.Social.State.{
  Env, Contract, Node, NodeId, NodeValue, value, node, deleted_entry, empty_key, string, object,
  end, field,
}
use contract_new_project_tem.Social.Accounts.{internal_set_node}
use contract_new_project_tem.Social.Nodes.{
  internal_get_node, internal_unwrap_node, set_value, holds_node,
}
use contract_new_project_tem.Social.Keys.{is_key_valid}
use contract_new_project_tem.Social.Permissions.{contains}
use contract_new_project_tem.Social.Setting.{recursive_set, set_fields, set_entry, set_leaf}
use contract_new_project_tem.Social.Tree.{Within, after_write, written}
use contract_new_project_tem.Social.Returns.Reads.{Shows}

-- An entry that is a node lies below.
abbrev Below : NodeId → Option NodeValue → Type 0
Below k none = Unit
Below k (some (value v)) = Unit
Below k (some (deleted_entry h)) = Unit
Below k (some (node id)) = k < id

pub Shows-nodes :
    (x : String) (found : Option NodeValue) (s t : Contract)
    → t.nodes ≡ s.nodes
    → Shows x found s
    → Shows x found t
Shows-nodes x none s t eq h = absurd h
Shows-nodes x (some (value v)) s t eq h = h
Shows-nodes x (some (deleted_entry b)) s t eq h = absurd h
Shows-nodes x (some (node id)) s t eq (m, v, there, own, text) = (m, v, rw (eq) there, own, text)

-- A write above the entry leaves what it shows.
Shows-write :
    (e : Env) (x : String) (found : Option NodeValue) (n : Node) (s : Contract)
    → Below n.node_id found
    → Shows x found s
    → Shows x found (after_write e n s)
Shows-write e x none n s b h = absurd h
Shows-write e x (some (value v)) n s b h = h
Shows-write e x (some (deleted_entry k)) n s b h = absurd h
Shows-write e x (some (node id)) n s b (m, v, there, own, text) =
    (m, v, ground (arith, lookup-insert id n.node_id (written e n) s.nodes), own, text)

set_value-find :
    (e : Env) (key x : String) (n : Node)
    → Holds
        (λ m.
          (m.node_id ≡ n.node_id)
          × (find key m.children
              ≡ some (value (record { content = x; block_height = e.block_height }))))
        (set_value e key (string x) n)
unfolding set_value
set_value-find e key x n =
    bind-Holds _
      (ensure (not (holds_node (find key n.children)))
        "Internal error, the replaced value was a node")
      _
      λ _ _. (
        refl,
        ground (
          arith,
          find-put key key (value (record { content = x; block_height = e.block_height }))
              n.children,
          same_refl key,
        ),
      )

-- What a step of the writing leaves of the node with this id, which shows the text under the key.
pub record Filled (id : NodeId) (key x : String) (s t : Contract) : Type 0 where
  pub root : t.root_node ≡ s.root_node
  pub home : Node
  pub there : lookup id t.nodes ≡ some home
  pub shows : Shows x (find key home.children) t

set_leaf-Shows :
    (e : Env) (x : String) (approved : Bool) (id : NodeId) (n : Node) (s : Contract)
    → n.node_id ≡ id
    → Holds
        (λ r. (r.1.root_node ≡ s.root_node) × Shows x (some (node id)) r.1)
        (set_leaf e (string x) approved n s)
unfolding set_leaf internal_set_node
set_leaf-Shows e x approved id n s is = require-Holds _ approved "Permission Denied" _ s λ _.
    lift-Holds _ _ (set_value e empty_key (string x) n) _ s (set_value-find e empty_key x n)
      λ m (its_id, found). (
        refl,
        (
          written e m,
          record { content = x; block_height = e.block_height },
          ground (arith, lookup-insert id m.node_id (written e m) s.nodes),
          found,
          refl,
        ),
      )

record Entered (key x : String) (n : Node) (s : Contract) (r : Node × Contract) : Type 0 where
  same_node : r.0.node_id ≡ n.node_id
  root : r.1.root_node ≡ s.root_node
  below : Below n.node_id (find key r.0.children)
  shows : Shows x (find key r.0.children) r.1

overwrite-Entered :
    (e : Env) (key x : String) (n : Node) (s : Contract)
    → Holds (Entered key x n s) (lift (set_value e key (string x) n) s)
overwrite-Entered e key x n s =
    lift-Holds_last _ _ (set_value e key (string x) n) s (set_value-find e key x n)
      λ m (its_id, found). record {
        same_node = its_id;
        root = refl;
        below = rw (found) tt;
        shows = rw (found) refl;
      }

unwrap_id : (id : NodeId) (s : Contract) → Holds (λ m. m.node_id ≡ id) (internal_unwrap_node id s)
unfolding internal_unwrap_node internal_get_node
unwrap_id id s = elim (Option-cases (lookup id s.nodes)) [
  | inl missing ↦ rw (missing, Holds) tt
  | inr (n, there) ↦ rw (there, Holds) refl
]

set_entry-Entered :
    (e : Env) (key x : String) (approved : Bool) (ids : List NodeId) (found : Option NodeValue)
    (n : Node) (s : Contract)
    → Within n.node_id s n.children
    → find key n.children ≡ found
    → Holds
        (Entered key x n s)
        (set_entry e key (string x) approved (recursive_set e (string x) approved ids) found n s)
unfolding set_entry recursive_set
set_entry-Entered e key x approved ids none n s w eq =
    require-Holds _ approved "Permission Denied" _ s λ _. overwrite-Entered e key x n s
set_entry-Entered e key x approved ids (some (value v)) n s w eq =
    require-Holds _ approved "Permission Denied" _ s λ _. overwrite-Entered e key x n s
set_entry-Entered e key x approved ids (some (deleted_entry h)) n s w eq =
    require-Holds _ approved "Permission Denied" _ s λ _. overwrite-Entered e key x n s
set_entry-Entered e key x approved ids (some (node id)) n s w eq =
    asks-Holds _ _ (internal_unwrap_node id) _ s (unwrap_id id s) λ inner its_id.
      seq-Holds _ _ (set_leaf e (string x) (approved || contains inner.node_id ids) inner) _ s
        (set_leaf-Shows e x _ id inner s its_id)
        λ _ t (root, shows). record {
          same_node = refl;
          root = root;
          below = rw (eq) ((w id (find-In key (node id) n.children eq)).0);
          shows = rw (eq) shows;
        }

pub recursive_set-Filled :
    (e : Env) (key x : String) (approved : Bool) (ids : List NodeId) (n : Node) (s : Contract)
    → Within n.node_id s n.children
    → Holds
        (λ r. Filled n.node_id key x s r.1)
        (recursive_set e (object (field key (string x) end)) approved ids n s)
unfolding recursive_set set_fields internal_set_node
recursive_set-Filled e key x approved ids n s w =
    seq-Holds (Entered key x n s) _
      (set_fields e (field key (string x) end) (approved || contains n.node_id ids) ids n) _ s
      (require-Holds _ (is_key_valid key) "Key contains invalid character or longer than 256" _ s
        λ _.
          seq-Holds _ _
            (set_entry e key (string x) _ (recursive_set e (string x) _ ids) (find key n.children)
              n)
            _ s (set_entry-Entered e key x _ ids (find key n.children) n s w refl) λ m t h. h)
      λ m t h. record {
        root = h.root;
        home = written e m;
        there =
            ground (arith, h.same_node, lookup-insert n.node_id m.node_id (written e m) t.nodes);
        shows = Shows-write e x (find key m.children) m t (rw (h.same_node) h.below) h.shows;
      }
