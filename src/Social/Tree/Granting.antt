-- ===== src/Social/Tree/Granting.antt =====
-- `grant_write_permission` of social-web3/contract/src/permission.rs keeps the nodes descending. On its
-- way down a path it writes a node before the child that it gave it: the node in hand may be missing.
use contract_new_project_tem.Prelude.{
  ◌<◌, ◌≡◌, refl, inl, inr, not, Option, none, some, List, [], ◌∷◌, String, Holds, Holds_mono,
  seq-Holds, asks-Holds, lift-Holds_last, ◌>>=◌, lift, asks, pure, require-Holds, arith,
  Option-cases,
}
use contract_new_project_tem.Prelude.Map.{lookup}
use contract_new_project_tem.Prelude.Dict.{find, put, same, find-In}
use contract_new_project_tem.Social.State.{
  Env, Contract, Account, Node, NodeId, NodeValue, value, node, deleted_entry, new_node,
  create_node_id, empty_key,
}
use contract_new_project_tem.Social.Accounts.{internal_set_node}
use contract_new_project_tem.Social.Nodes.{internal_get_node, internal_unwrap_node}
use contract_new_project_tem.Social.Keys.{is_key_valid}
use contract_new_project_tem.Social.Permissions.{step_into, walk, granted_node}
use contract_new_project_tem.Social.Tree.{
  Within, Within-Grows, IsDescending, Grows, Grows-refl, Grows-trans, after_write,
  after_write-Grows,
}
use contract_new_project_tem.Social.Tree.Pieces.{internal_unwrap_node-Within, new_node-Within}
use contract_new_project_tem.Social.Tree.Same.{Tended}
use contract_new_project_tem.Social.Tree.Hand.{
  IsDescendingBut, Within-WithinBut, IsDescending-IsDescendingBut, IsDescendingBut-IsDescending,
  write-IsDescendingBut, next_id, put-WithinBut,
}

-- A node in hand, all of whose children are there.
record InHand (s : Contract) (r : Node × Contract) : Type 0 where
  pub tree : IsDescendingBut r.0.node_id r.1
  pub inside : Within r.0.node_id r.1 r.0.children
  pub counted : r.0.node_id < r.1.node_count
  pub grows : Grows s r.1

stored_node :
    (id : NodeId) (s : Contract) (d : NodeId)
    → IsDescendingBut d s
    → d < id
    → Holds (λ n. (n.node_id ≡ id) × Within n.node_id s n.children) (internal_unwrap_node id s)
unfolding internal_unwrap_node internal_get_node
stored_node id s d v h = elim (Option-cases (lookup id s.nodes)) [
  | inl missing ↦ rw (missing, Holds) tt
  | inr (n, found) ↦ rw (found, Holds) (refl, λ c f. ground (arith, v.below id n found c f))
]

-- A new child in hand.
child-InHand :
    (e : Env) (key : String) (first : Option NodeValue) (n : Node) (s : Contract)
    → IsDescendingBut n.node_id s
    → Within n.node_id s n.children
    → n.node_id < s.node_count
    → Holds (InHand s) (
        (create_node_id >>= λ node_id.
        internal_set_node e (record n { children = put key (node node_id) n.children }) >>= λ _.
        lift (new_node e node_id first))
          s)
unfolding internal_set_node
child-InHand e key first n s v w early =
    seq-Holds _ _ create_node_id _ s (next_id n.node_id s v) λ id t (is_next, counted, tree, grows).
      let parent : Node = record n { children = put key (node id) n.children } in
      let u = after_write e parent t in
      let written_tree : IsDescendingBut id u = write-IsDescendingBut e parent t id tree (
        put-WithinBut id t n.node_id key n.children (omega (arith, early, is_next), counted)
          (Within-Grows n.node_id n.children grows w)) in
      lift-Holds_last _ _ (new_node e id first) u (new_node-Within e id first u)
        λ fresh (its_id, inside). record {
          tree = rw its_id written_tree;
          inside = rw its_id inside;
          counted = rw its_id counted;
          grows = Grows-trans grows (after_write-Grows e parent t);
        }

-- A node that is there already.
inner-InHand :
    (e : Env) (key : String) (id : NodeId) (n : Node) (s : Contract)
    → IsDescendingBut n.node_id s
    → Within n.node_id s n.children
    → find key n.children ≡ some (node id)
    → Holds
        (InHand s)
        ((asks (internal_unwrap_node id) >>= λ next. internal_set_node e n >>= λ _. pure next) s)
unfolding internal_set_node
inner-InHand e key id n s v w eq =
    let (later, counted, present) = w id (find-In key (node id) n.children eq) in
    asks-Holds _ _ (internal_unwrap_node id) _ s (stored_node id s n.node_id v later)
      λ next (its_id, inside). record {
        tree =
            write-IsDescendingBut e n s next.node_id v
              (Within-WithinBut next.node_id n.node_id s n.children w);
        inside = Within-Grows next.node_id next.children (after_write-Grows e n s) inside;
        counted = rw its_id counted;
        grows = after_write-Grows e n s;
      }

step_into-InHand :
    (e : Env) (key : String) (found : Option NodeValue) (n : Node) (s : Contract)
    → IsDescendingBut n.node_id s
    → Within n.node_id s n.children
    → n.node_id < s.node_count
    → find key n.children ≡ found
    → Holds (InHand s) (step_into e key found n s)
unfolding step_into
step_into-InHand e key none n s v w early eq = child-InHand e key none n s v w early
step_into-InHand e key (some (node id)) n s v w early eq = inner-InHand e key id n s v w eq
step_into-InHand e key (some (value x)) n s v w early eq =
    require-Holds _ (not (same key empty_key)) "The empty key's value should be a string" _ s
      λ _. child-InHand e key (some (value x)) n s v w early
step_into-InHand e key (some (deleted_entry h)) n s v w early eq =
    require-Holds _ (not (same key empty_key)) "The empty key's value should be a string" _ s
      λ _. child-InHand e key (some (deleted_entry h)) n s v w early

walk-InHand :
    (e : Env) (path : List String) (n : Node) (s : Contract)
    → IsDescendingBut n.node_id s
    → Within n.node_id s n.children
    → n.node_id < s.node_count
    → Holds (InHand s) (walk e path n s)
unfolding walk
walk-InHand e [] n s v w early = record {
  tree = v;
  inside = w;
  counted = early;
  grows = Grows-refl s;
}
walk-InHand e (key ∷ path) n s v w early =
    require-Holds _ (is_key_valid key) "Key contains invalid character or longer than 256" _ s λ _.
      seq-Holds _ _ (step_into e key (find key n.children) n) _ s
        (step_into-InHand e key (find key n.children) n s v w early refl)
        λ next t k.
          Holds_mono (walk e path next t)
            (λ r l. record {
              tree = l.tree;
              inside = l.inside;
              counted = l.counted;
              grows = Grows-trans k.grows l.grows;
            })
            (walk-InHand e path next t k.tree k.inside k.counted)

pub granted_node-Tended :
    (e : Env) (owner : String) (path : List String) (a : Account) (s : Contract)
    → IsDescending s
    → a.node_id < s.node_count
    → Holds (Tended s) (granted_node e owner path a s)
unfolding granted_node internal_set_node
granted_node-Tended e owner [] a s v counted = tt
granted_node-Tended e owner (first ∷ path) a s v counted =
    require-Holds _ (same first owner) "The path should start with the expected account_id" _ s λ _.
      asks-Holds _ _ (internal_unwrap_node a.node_id) _ s
        (internal_unwrap_node-Within a.node_id s v)
        λ n (its_id, inside, present).
          seq-Holds _ _ (walk e path n) _ s
            (walk-InHand e path n s (IsDescending-IsDescendingBut n.node_id s v) inside
              (rw its_id counted))
            λ last t k. (
              IsDescendingBut-IsDescending (after_write e last t) (
                  write-IsDescendingBut e last t 0 k.tree
                    (Within-WithinBut 0 last.node_id t last.children k.inside)),
              Grows-trans k.grows (after_write-Grows e last t),
            )
