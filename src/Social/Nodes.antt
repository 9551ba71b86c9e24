-- ===== src/Social/Nodes.antt =====
-- The nodes of the tree: node.rs of social-web3/contract/src. A
-- `UnorderedMap` writes each entry through to the storage. Here the entries are a part of the node,
-- and `internal_set_node`, which ends every change of a node in the source, writes them.
use Prim.Native.Nat.{min}
use Prim.Native.String.{String}
use contract_new_project_tem.Prelude.{
  ℕ, zero, suc, ◌+◌, ◌-◌, Bool, false, not, Option, none, some, List, [], ◌∷◌, Outcome, ok, bind,
  ensure, expect, checked_add, u32_mod, ◌==◌, if◌then◌else◌, length, take, drop,
}
use contract_new_project_tem.Prelude.Map.{lookup}
use contract_new_project_tem.Prelude.Dict.{Dict, find, put}
use contract_new_project_tem.Social.State.{
  Env, Contract, Node, NodeId, NodeValue, value, node, deleted_entry, Json, is_node, leaf_value,
}
use contract_new_project_tem.Social.Pools.{unwrap_or}

unfoldable pub into_current_height : Env → NodeValue → NodeValue
into_current_height e (value v) = value (record v { block_height = e.block_height })
into_current_height e (node id) = node id
into_current_height e (deleted_entry h) = deleted_entry e.block_height

unfoldable pub get_block_height : NodeValue → Option ℕ
get_block_height (value v) = some v.block_height
get_block_height (node id) = none
get_block_height (deleted_entry h) = some h

abbrev pub holds_node : Option NodeValue → Bool
holds_node none = false
holds_node (some v) = is_node v

-- `Node::set`.
unfoldable pub set_value : Env → String → Json → Node → Outcome Node
set_value e key json n = bind (leaf_value e json) λ v.
    bind
      (ensure (not (holds_node (find key n.children)))
        "Internal error, the replaced value was a node")
      λ _. ok (record n { children = put key v n.children })

unfoldable pub internal_get_node : NodeId → Contract → Option Node
internal_get_node node_id s = elim (lookup node_id s.nodes) [
  | none ↦ none
  | some n ↦ some (record n { node_id = node_id })
]

unfoldable pub internal_unwrap_node : NodeId → Contract → Outcome Node
internal_unwrap_node node_id s = expect (internal_get_node node_id s) "Node is missing"

unfoldable pub get_node_count : Contract → ℕ
get_node_count s = s.node_count

pub record PartialNode : Type 0 where
  pub node_id : NodeId
  pub block_height : ℕ
  pub children : Dict NodeValue
  pub from_index : ℕ
  pub num_children : ℕ

unfoldable pub partial_node_view : Node → Option ℕ → Option ℕ → Outcome PartialNode
partial_node_view n from_index limit =
    let num_children = length n.children in
    let from = unwrap_or 0 from_index in
    bind (checked_add u32_mod from (unwrap_or num_children limit)) λ until. ok (record {
      node_id = n.node_id;
      block_height = n.block_height;
      children = take (min num_children until - from) (drop from n.children);
      from_index = from;
      num_children = num_children;
    })

unfoldable pub get_node : NodeId → Option ℕ → Option ℕ → Contract → Outcome (Option PartialNode)
get_node node_id from_index limit s =
    if node_id == 0
    then (bind (partial_node_view s.root_node from_index limit) λ v. ok (some v))
    else elim (internal_get_node node_id s) [
      | none ↦ ok none
      | some n ↦ bind (partial_node_view n from_index limit) λ v. ok (some v)
    ]

-- The nodes from an id on, so many of them.
abbrev pub nodes_from : ℕ → NodeId → Contract → Outcome (List (Option PartialNode))
nodes_from zero id s = ok []
nodes_from (suc n) id s =
    bind (get_node id none none s) λ v. bind (nodes_from n (id + 1) s) λ rest. ok (v ∷ rest)

unfoldable pub get_nodes : Option ℕ → Option ℕ → Contract → Outcome (List (Option PartialNode))
get_nodes from_index limit s =
    let from = unwrap_or 0 from_index in
    bind (checked_add u32_mod from (unwrap_or s.node_count limit))
      λ until. nodes_from (min s.node_count until - from) from s
