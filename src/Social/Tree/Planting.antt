-- ===== src/Social/Tree/Planting.antt =====
-- `recursive_set` of social-web3/contract/src/api.rs keeps the nodes descending.
use contract_new_project_tem.Prelude.{
  ◌<◌, ◌≡◌, ◌∙◌, refl, sym, inl, inr, Bool, ◌||◌, Option, none, some, List, String, Holds,
  Holds_mono, seq-Holds, lift-Holds, asks-Holds, require-Holds, Outcome-cases, Outcome, Holds-ok,
  Bool-cases, not, lift, arith, if◌then◌else◌, Action,
}
use contract_new_project_tem.Prelude.Dict.{find, same, find-In}
use contract_new_project_tem.Social.State.{
  Env, Contract, Node, NodeId, NodeValue, value, node, deleted_entry, new_node, create_node_id,
  Json, null, boolean, number, string, array, object, Fields, end, field, empty_key,
}
use contract_new_project_tem.Social.Accounts.{internal_set_node}
use contract_new_project_tem.Social.Nodes.{internal_unwrap_node, set_value}
use contract_new_project_tem.Social.Keys.{is_key_valid}
use contract_new_project_tem.Social.Permissions.{contains}
use contract_new_project_tem.Social.Setting.{
  set_entry, grow, set_leaf, recursive_set, set_fields, is_leaf,
}
use contract_new_project_tem.Social.Tree.{
  Within, IsDescending, Grows, Grows-refl, Grows-trans, Within-Grows, put-Within, Planted,
  internal_set_node-IsDescending,
}
use contract_new_project_tem.Social.Tree.Pieces.{
  internal_unwrap_node-Within, set_value-Within, new_node-Within, create_node_id_lem,
}

-- What a change of a node's entries leaves behind.
pub record Kept (n : Node) (s : Contract) (r : Node × Contract) : Type 0 where
  pub same_node : r.0.node_id ≡ n.node_id
  pub tree : IsDescending r.1
  pub grows : Grows s r.1
  pub within : Within n.node_id r.1 r.0.children

-- An action that plants a node in the tree.
abbrev pub Plants : (Node → Action Contract (Unit {0})) → Type 0
Plants recur =
    (m : Node) (t : Contract)
    → IsDescending t
    → Within m.node_id t m.children
    → m.node_id < t.node_count
    → Holds (Planted m.node_id t) (recur m t)

grow-Kept :
    (e : Env) (key : String) (first : Option NodeValue) (recur : Node → Action Contract (Unit {0}))
    (n : Node) (s : Contract)
    → Plants recur
    → IsDescending s
    → Within n.node_id s n.children
    → n.node_id < s.node_count
    → Holds (Kept n s) (grow e key first recur n s)
unfolding grow
grow-Kept e key first recur n s plants v w early =
    seq-Holds _ _ create_node_id _ s (create_node_id_lem s v)
      λ id t (is_next, counted, tree, grows).
        lift-Holds _ _ (new_node e id first) _ t (new_node-Within e id first t)
          λ fresh (its_id, inside).
            seq-Holds _ _ (recur fresh) _ t
              (plants fresh t tree (rw its_id inside) (rw its_id counted))
              λ _ u (tree_u, grows_u, there). record {
                same_node = refl;
                tree = tree_u;
                grows = Grows-trans grows grows_u;
                within =
                    put-Within u n.node_id key (node id) n.children
                      (λ c is.
                        ground (arith, grows_u.count, there, early, is_next, counted, its_id))
                      (Within-Grows n.node_id n.children (Grows-trans grows grows_u) w);
              }

-- An entry that becomes a text or null, or a new node.
overwrite-Kept :
    (e : Env) (key : String) (json : Json) (n : Node) (s : Contract)
    → IsDescending s
    → Within n.node_id s n.children
    → Holds (Kept n s) (lift (set_value e key json n) s)
overwrite-Kept e key json n s v w = elim (Outcome-cases (set_value e key json n)) [
  | inl (m, eq) ↦
      let (same_id, inside) = Holds-ok _ eq (set_value-Within e key json n s w) in
      rw (eq, Holds)
        (record { same_node = same_id; tree = v; grows = Grows-refl s; within = inside })
  | inr (x, eq) ↦ rw (eq, Holds) tt
]

replace-Kept :
    (e : Env) (key : String) (json : Json) (more : Action Contract Node) (n : Node) (s : Contract)
    → IsDescending s
    → Within n.node_id s n.children
    → Holds (Kept n s) (more s)
    → Holds (Kept n s) ((if is_leaf json then lift (set_value e key json n) else more) s)
replace-Kept e key json more n s v w h = elim (Bool-cases (is_leaf json)) [
  | inl leaf ↦ rw (leaf, Holds) (overwrite-Kept e key json n s v w)
  | inr inner ↦ rw (inner, Holds) h
]

set_entry-Kept :
    (e : Env) (key : String) (json : Json) (approved : Bool)
    (recur : Node → Action Contract (Unit {0})) (n : Node) (s : Contract)
    → Plants recur
    → IsDescending s
    → Within n.node_id s n.children
    → n.node_id < s.node_count
    → (found : Option NodeValue) → find key n.children ≡ found
    → Holds (Kept n s) (set_entry e key json approved recur found n s)
unfolding set_entry
set_entry-Kept e key json approved recur n s plants v w early none eq =
    require-Holds _ approved "Permission Denied" _ s
      λ _. replace-Kept e key json _ n s v w (grow-Kept e key none recur n s plants v w early)
set_entry-Kept e key json approved recur n s plants v w early (some (node id)) eq =
    let (later, counted, present) = w id (find-In key (node id) n.children eq) in
    asks-Holds _ _ (internal_unwrap_node id) _ s (internal_unwrap_node-Within id s v)
      λ inner (its_id, inside, _).
        seq-Holds _ _ (recur inner) _ s (plants inner s v inside (rw its_id counted))
          λ _ t (tree, grows, _). record {
            same_node = refl;
            tree = tree;
            grows = grows;
            within = Within-Grows n.node_id n.children grows w;
          }
set_entry-Kept e key json approved recur n s plants v w early (some (value x)) eq =
    require-Holds _ approved "Permission Denied" _ s λ _. replace-Kept e key json _ n s v w (
      require-Holds _ (not (same key empty_key)) "The empty key's value should be a string or null"
        _ s λ _. grow-Kept e key (some (value x)) recur n s plants v w early)
set_entry-Kept e key json approved recur n s plants v w early (some (deleted_entry h)) eq =
    require-Holds _ approved "Permission Denied" _ s λ _. replace-Kept e key json _ n s v w (
      require-Holds _ (not (same key empty_key)) "The empty key's value should be a string or null"
        _ s λ _. grow-Kept e key (some (deleted_entry h)) recur n s plants v w early)

write-Planted :
    (e : Env) (n : Node) (id : NodeId) (s t : Contract)
    → IsDescending t
    → Grows s t
    → n.node_id ≡ id
    → Within id t n.children
    → Holds (Planted id s) (internal_set_node e n t)
write-Planted e n id s t v g its_id w = rw (sym its_id) (
    Holds_mono (internal_set_node e n t)
      (λ r (tree, grows, there). (tree, Grows-trans g grows, there))
      (internal_set_node-IsDescending e n t v (rw its_id w)))

-- One change after another.
Kept-trans :
    (n : Node) (s : Contract) (m : Node) (t : Contract) (r : Outcome (Node × Contract))
    → Kept n s (m, t)
    → Holds (Kept m t) r
    → Holds (Kept n s) r
Kept-trans n s m t r k h =
    Holds_mono r
      (λ q l. record {
        same_node = l.same_node ∙ k.same_node;
        tree = l.tree;
        grows = Grows-trans k.grows l.grows;
        within = rw (sym k.same_node) l.within;
      })
      h

set_leaf-Planted :
    (e : Env) (json : Json) (approved : Bool) (n : Node) (s : Contract)
    → IsDescending s
    → Within n.node_id s n.children
    → Holds (Planted n.node_id s) (set_leaf e json approved n s)
unfolding set_leaf
set_leaf-Planted e json approved n s v w = require-Holds _ approved "Permission Denied" _ s λ _.
    lift-Holds _ _ (set_value e empty_key json n) _ s (set_value-Within e empty_key json n s w)
      λ m (its_id, inside). write-Planted e m n.node_id s s v (Grows-refl s) its_id inside

mutual
  unfolding recursive_set set_fields

  pub recursive_set-Plants :
      (e : Env) (json : Json) (approved : Bool) (ids : List NodeId)
      → Plants (recursive_set e json approved ids)
  recursive_set-Plants e null approved ids m t v w early = set_leaf-Planted e null _ m t v w
  recursive_set-Plants e (string x) approved ids m t v w early =
      set_leaf-Planted e (string x) _ m t v w
  recursive_set-Plants e (object fs) approved ids m t v w early =
      seq-Holds _ _ (set_fields e fs (approved || contains m.node_id ids) ids m) _ t
        (set_fields-Kept e fs (approved || contains m.node_id ids) ids m t v w early)
        λ n u k. write-Planted e n m.node_id t u k.tree k.grows k.same_node k.within
  recursive_set-Plants e (boolean b) approved ids m t v w early = tt
  recursive_set-Plants e (number k) approved ids m t v w early = tt
  recursive_set-Plants e (array xs) approved ids m t v w early = tt

  set_fields-Kept :
      (e : Env) (fs : Fields) (approved : Bool) (ids : List NodeId) (n : Node) (s : Contract)
      → IsDescending s
      → Within n.node_id s n.children
      → n.node_id < s.node_count
      → Holds (Kept n s) (set_fields e fs approved ids n s)
  set_fields-Kept e end approved ids n s v w early = record {
    same_node = refl;
    tree = v;
    grows = Grows-refl s;
    within = w;
  }
  set_fields-Kept e (field key json fs) approved ids n s v w early =
      require-Holds _ (is_key_valid key) "Key contains invalid character or longer than 256" _ s
        λ _.
          seq-Holds _ _
            (set_entry e key json approved (recursive_set e json approved ids) (find key n.children)
              n)
            _ s
            (set_entry-Kept e key json approved (recursive_set e json approved ids) n s
              (recursive_set-Plants e json approved ids) v w early (find key n.children) refl)
            λ m t k. Kept-trans n s m t _ k (
              set_fields-Kept e fs approved ids m t k.tree (rw k.same_node k.within)
                (omega (arith, k.same_node, early, k.grows.count)))
