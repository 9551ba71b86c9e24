-- ===== src/Social/Reading.antt =====
-- `get` of social-web3/contract/src/api.rs. `get` follows a pattern down the tree, and
-- under `**` as far as the tree goes: it runs on fuel. The ids of a tree grow on the way down, so
-- that one more than the number of the nodes is enough.
use Prim.Native.String.{String}
use contract_new_project_tem.Prelude.{
  ℕ, zero, suc, Bool, not, ◌||◌, Option, none, some, List, [], ◌∷◌, Outcome, ok, panic, bind,
  ensure, if◌then◌else◌,
}
use contract_new_project_tem.Prelude.Dict.{Dict, find, same}
use contract_new_project_tem.Social.State.{
  Contract, Node, NodeValue, value, node, deleted_entry, empty_key, Json, number, object, Fields,
  end,
}
use contract_new_project_tem.Social.Pools.{unwrap_or}
use contract_new_project_tem.Social.Nodes.{internal_unwrap_node}
use contract_new_project_tem.Social.Keys.{star, recursive_star, is_last, path_of}
use contract_new_project_tem.Social.Objects.{
  GetOptions, key_block_height, key_node_id, is_true, put_field, json_map_get_inner_object,
  json_map_set_key, json_map_recursive_cleanup,
}

-- The children that one part of a pattern matches.
abbrev pub entry_at : String → Option NodeValue → Dict NodeValue
entry_at key none = []
entry_at key (some v) = (key, v) ∷ []

unfoldable pub matched_entries : Bool → String → Node → Dict NodeValue
matched_entries everything key n =
    if everything then n.children else entry_at key (find key n.children)

-- What `get` asks of the node itself.
unfoldable pub add_node_data : GetOptions → Node → Fields → Fields
add_node_data o n res =
    let res =
      if is_true o.with_block_height
      then put_field key_block_height (number n.block_height) res
      else res in
    if is_true o.with_node_id then put_field key_node_id (number n.node_id) res else res

-- The node's own value, under the empty key.
unfoldable pub get_own_value : GetOptions → String → Node → Fields → Fields
get_own_value o key inner res = elim (find empty_key inner.children) [
  | none ↦ res
  | some v ↦ json_map_set_key o v key (
      if is_true o.with_node_id
      then put_field key
          (object
            (put_field key_node_id (number inner.node_id) (json_map_get_inner_object key res)))
          res
      else res)
]

-- The subtree at a matched node: the rest of the pattern, and `**` again.
abbrev pub deeper :
    Bool
    → List String
    → (List String → Node → Fields → Outcome Fields)
    → Node
    → Fields
    → Outcome Fields
deeper everything keys recur inner res =
    bind (if is_last keys then ok res else recur keys inner res)
      λ found. if everything then recur (recursive_star ∷ keys) inner found else ok found

unfoldable pub get_entry :
    Contract
    → GetOptions
    → Bool
    → List String
    → (List String → Node → Fields → Outcome Fields)
    → String × NodeValue
    → Fields
    → Outcome Fields
get_entry s o everything keys recur (key, node id) res = bind (internal_unwrap_node id s) λ inner.
    if not (is_last keys) || everything
    then (bind (deeper everything keys recur inner (json_map_get_inner_object key res))
        λ found. ok (put_field key (object found) res))
    else ok (get_own_value o key inner res)
get_entry s o everything keys recur (key, value v) res =
    ok (if is_last keys then json_map_set_key o (value v) key res else res)
get_entry s o everything keys recur (key, deleted_entry h) res =
    ok (if is_last keys then json_map_set_key o (deleted_entry h) key res else res)

unfoldable pub get_entries :
    Contract
    → GetOptions
    → Bool
    → List String
    → (List String → Node → Fields → Outcome Fields)
    → Dict NodeValue
    → Fields
    → Outcome Fields
get_entries s o everything keys recur [] res = ok res
get_entries s o everything keys recur (c ∷ cs) res =
    bind (get_entry s o everything keys recur c res)
      λ found. get_entries s o everything keys recur cs found

unfoldable pub recursive_get :
    ℕ → Contract → GetOptions → List String → Node → Fields → Outcome Fields
recursive_get zero s o keys n res = panic "out of fuel"
recursive_get (suc fuel) s o [] n res = panic "index out of bounds"
recursive_get (suc fuel) s o (key ∷ keys) n res =
    bind
      (ensure (not (same key recursive_star) || is_last keys)
        "'**' pattern can only be used as a suffix")
      λ _.
        get_entries s o (same key recursive_star) keys (recursive_get fuel s o)
          (matched_entries (same key star || same key recursive_star) key n) (add_node_data o n res)

abbrev pub get_path : Contract → GetOptions → List String → Fields → Outcome Fields
get_path s o [] res = ok res
get_path s o (k ∷ ks) res = recursive_get (suc s.node_count) s o (k ∷ ks) s.root_node res

unfoldable pub get_paths : Contract → GetOptions → List String → Fields → Outcome Fields
get_paths s o [] res = ok res
get_paths s o (key ∷ keys) res =
    bind (get_path s o (path_of key) res) λ found. get_paths s o keys found

abbrev pub no_options : GetOptions
no_options = record { with_block_height = none; with_node_id = none; return_deleted = none }

unfoldable pub get : List String → Option GetOptions → Contract → Outcome Json
get keys options s =
    bind (get_paths s (unwrap_or no_options options) keys end)
      λ found. ok (object (json_map_recursive_cleanup found))
