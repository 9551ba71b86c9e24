-- ===== src/Social/Tree/Pieces.antt =====
-- What the pieces of node.rs in social-web3/contract/src read from descending nodes and add to them.
use contract_new_project_tem.Prelude.{
  ℕ, ◌+◌, ◌<◌, ◌≤◌, ◌≡◌, refl, inl, inr, false, Option, none, some, String, Holds, ensure,
  bind-Holds, Holds-ok, Bool-cases, not, [], u32_mod, arith, ltb, Option-cases,
}
use contract_new_project_tem.Prelude.Map.{lookup}
use contract_new_project_tem.Prelude.Dict.{find}
use contract_new_project_tem.Social.State.{
  Env, Contract, Node, NodeId, NodeValue, node, new_node, is_node, create_node_id, Json, null,
  boolean, number, string, array, object, empty_key, leaf_value,
}
use contract_new_project_tem.Social.Nodes.{
  internal_get_node, internal_unwrap_node, set_value, holds_node,
}
use contract_new_project_tem.Social.Tree.{
  IsPresent, Within, IsDescending, Grows, Within-Grows, put-Within,
}

pub internal_unwrap_node-Within :
    (id : NodeId) (s : Contract)
    → IsDescending s
    → Holds
        (λ n. (n.node_id ≡ id) × Within n.node_id s n.children × IsPresent id s)
        (internal_unwrap_node id s)
unfolding internal_unwrap_node internal_get_node
internal_unwrap_node-Within id s v = elim (Option-cases (lookup id s.nodes)) [
  | inl missing ↦ rw (missing, Holds) tt
  | inr (n, found) ↦ rw (found, Holds) (refl, v.below id n found, ground arith)
]

-- A text or null makes no node.
pub leaf_value-is_node :
    (e : Env) (json : Json) → Holds (λ v. is_node v ≡ false) (leaf_value e json)
leaf_value-is_node e null = refl
leaf_value-is_node e (boolean b) = tt
leaf_value-is_node e (number n) = tt
leaf_value-is_node e (string t) = refl
leaf_value-is_node e (array xs) = tt
leaf_value-is_node e (object fs) = tt

pub no_node : {A : Type 0} (v : NodeValue) (c : NodeId) → is_node v ≡ false → v ≡ node c → A
no_node v c h eq = ground arith

pub set_value-Within :
    (e : Env) (key : String) (json : Json) (n : Node) (s : Contract)
    → Within n.node_id s n.children
    → Holds (λ m. (m.node_id ≡ n.node_id) × Within n.node_id s m.children) (set_value e key json n)
unfolding set_value
set_value-Within e key json n s w = bind-Holds _ (leaf_value e json) _ λ v eq.
    bind-Holds _
      (ensure (not (holds_node (find key n.children)))
        "Internal error, the replaced value was a node")
      _
      λ _ _. (
        refl,
        put-Within s n.node_id key v n.children
            (λ c is. no_node v c (Holds-ok _ eq (leaf_value-is_node e json)) is) w,
      )

no_child : (s : Contract) (id : NodeId) → Within id s []
no_child s id c h = absurd h

pub new_node-Within :
    (e : Env) (id : NodeId) (first : Option NodeValue) (s : Contract)
    → Holds (λ m. (m.node_id ≡ id) × Within id s m.children) (new_node e id first)
unfolding new_node
new_node-Within e id none s = (refl, no_child s id)
new_node-Within e id (some v) s = elim (Bool-cases (is_node v)) [
  | inl is ↦ rw (is, Holds) tt
  | inr leaf ↦
      rw (leaf, Holds)
        (refl, put-Within s id empty_key v [] (λ c is. no_node v c leaf is) (no_child s id))
]

counted-IsDescending :
    (s : Contract) (m : ℕ)
    → s.node_count ≤ m
    → IsDescending s
    → IsDescending (record s { node_count = m }) × Grows s (record s { node_count = m })
counted-IsDescending s m h v =
    let grows : Grows s (record s { node_count = m }) = record {
      past = inr refl;
      count = h;
      present = λ c p. p;
    } in
    (
      record {
        counted = omega (arith, h, v.counted);
        root = Within-Grows 0 s.root_node.children grows v.root;
        below = λ id n found. Within-Grows id n.children grows (v.below id n found);
      },
      grows,
    )

-- The new id is the next one.
pub create_node_id_lem :
    (s : Contract)
    → IsDescending s
    → Holds
        (λ r. (r.0 ≡ s.node_count) × (r.0 < r.1.node_count) × IsDescending r.1 × Grows s r.1)
        (create_node_id s)
unfolding create_node_id
create_node_id_lem s v = elim (Bool-cases (ltb (s.node_count + 1) u32_mod)) [
  | inl fits ↦
      let (tree, grows) = counted-IsDescending s (s.node_count + 1) (omega arith) v in
      rw (fits, Holds) (refl, omega arith, tree, grows)
  | inr full ↦ rw (full, Holds) tt
]
