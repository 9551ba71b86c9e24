-- ===== src/Social/Listing.antt =====
-- `keys` of social-web3/contract/src/api.rs.
use contract_new_project_tem.Prelude.{
  Bool, true, false, not, ◌||◌, ◌&&◌, Option, none, some, List, [], ◌∷◌, String, Outcome, ok, panic,
  bind, expect, if◌then◌else◌,
}
use contract_new_project_tem.Prelude.Dict.{Dict, find, same}
use contract_new_project_tem.Social.State.{
  Contract, Node, NodeId, NodeValue, value, node, deleted_entry, empty_key, Json, null, boolean,
  number, object, Fields, end,
}
use contract_new_project_tem.Social.Pools.{unwrap_or}
use contract_new_project_tem.Social.Nodes.{internal_unwrap_node, get_block_height}
use contract_new_project_tem.Social.Keys.{star, is_last, path_of}
use contract_new_project_tem.Social.Objects.{
  put_field, json_map_get_inner_object, json_map_set_value, json_map_recursive_cleanup,
}
use contract_new_project_tem.Social.Reading.{matched_entries}

pub data KeysReturnType : Type 0 where
  return_true : KeysReturnType
  return_block_height : KeysReturnType
  return_node_id : KeysReturnType

pub record KeysOptions : Type 0 where
  pub return_type : Option KeysReturnType
  pub return_deleted : Option Bool
  pub values_only : Option Bool

-- The answer for a value, by the kind of answer that is asked for.
abbrev pub answer : KeysReturnType → Json → Json → Json
answer return_true height id = boolean true
answer return_block_height height id = height
answer return_node_id height id = id

abbrev pub return_of : KeysOptions → KeysReturnType
return_of o = unwrap_or return_true o.return_type

abbrev pub is_deleted : NodeValue → Bool
is_deleted (value v) = false
is_deleted (node id) = false
is_deleted (deleted_entry h) = true

-- The answer for the own value of a node, if there is one to show.
abbrev pub own_answer : KeysOptions → NodeId → NodeValue → Outcome (Option Json)
own_answer o id v =
    if unwrap_or false o.return_deleted || not (is_deleted v)
    then elim (return_of o) [
      | return_block_height ↦
          bind (expect (get_block_height v) "called `Option::unwrap()` on a `None` value")
            λ h. ok (some (number h))
      | return_true ↦ ok (some (boolean true))
      | return_node_id ↦ ok (some (number id))
    ]
    else ok none

unfoldable pub node_answer : Contract → KeysOptions → NodeId → Outcome (Option Json)
node_answer s o id =
    if unwrap_or false o.values_only
    then (bind (internal_unwrap_node id s) λ inner. elim (find empty_key inner.children) [
      | none ↦ ok none
      | some v ↦ own_answer o id v
    ])
    else elim (return_of o) [
      | return_block_height ↦
          bind (internal_unwrap_node id s) λ inner. ok (some (number inner.block_height))
      | return_true ↦ ok (some (boolean true))
      | return_node_id ↦ ok (some (number id))
    ]

abbrev pub add_answer : String → Option Json → Fields → Fields
add_answer key none res = res
add_answer key (some v) res = json_map_set_value key v res

unfoldable pub keys_entry :
    Contract
    → KeysOptions
    → List String
    → (Node → Fields → Outcome Fields)
    → String × NodeValue
    → Fields
    → Outcome Fields
keys_entry s o keys recur (key, node id) res =
    if is_last keys
    then (bind (node_answer s o id) λ v. ok (add_answer key v res))
    else (bind (internal_unwrap_node id s) λ inner.
        bind (recur inner (json_map_get_inner_object key res))
          λ found. ok (put_field key (object found) res))
keys_entry s o keys recur (key, value v) res = ok (
    if is_last keys
    then json_map_set_value key (answer (return_of o) (number v.block_height) null) res
    else res)
keys_entry s o keys recur (key, deleted_entry h) res = ok (
    if is_last keys && unwrap_or false o.return_deleted
    then json_map_set_value key (answer (return_of o) (number h) null) res
    else res)

unfoldable pub keys_entries :
    Contract
    → KeysOptions
    → List String
    → (Node → Fields → Outcome Fields)
    → Dict NodeValue
    → Fields
    → Outcome Fields
keys_entries s o keys recur [] res = ok res
keys_entries s o keys recur (c ∷ cs) res =
    bind (keys_entry s o keys recur c res) λ found. keys_entries s o keys recur cs found

unfoldable pub recursive_keys :
    Contract → KeysOptions → List String → Node → Fields → Outcome Fields
recursive_keys s o [] n res = panic "index out of bounds"
recursive_keys s o (key ∷ keys) n res =
    keys_entries s o keys (recursive_keys s o keys) (matched_entries (same key star) key n) res

abbrev pub keys_path : Contract → KeysOptions → List String → Fields → Outcome Fields
keys_path s o [] res = ok res
keys_path s o (k ∷ ks) res = recursive_keys s o (k ∷ ks) s.root_node res

unfoldable pub keys_paths : Contract → KeysOptions → List String → Fields → Outcome Fields
keys_paths s o [] res = ok res
keys_paths s o (key ∷ keys) res =
    bind (keys_path s o (path_of key) res) λ found. keys_paths s o keys found

abbrev pub no_keys_options : KeysOptions
no_keys_options = record { return_type = none; return_deleted = none; values_only = none }

unfoldable pub keys : List String → Option KeysOptions → Contract → Outcome Json
keys patterns options s =
    bind (keys_paths s (unwrap_or no_keys_options options) patterns end)
      λ found. ok (object (json_map_recursive_cleanup found))
