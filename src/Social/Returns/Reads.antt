-- ===== src/Social/Returns/Reads.antt =====
-- `get` of social-web3/contract/src/api.rs on the key of an account under which a text is stored.
use contract_new_project_tem.Prelude.{
  ℕ, zero, suc, ◌<◌, ◌≡◌, refl, ap, true, false, inl, inr, Option, none, some, String, [], ◌∷◌, ok,
  bind, Bool-cases, arith,
}
use contract_new_project_tem.Prelude.Map.{lookup}
use contract_new_project_tem.Prelude.Dict.{find, same, eq_of_same}
use contract_new_project_tem.Social.State.{
  Contract, Node, NodeId, NodeValue, ValueAtHeight, value, node, deleted_entry, empty_key, string,
  object, end, field,
}
use contract_new_project_tem.Social.Nodes.{internal_get_node, internal_unwrap_node}
use contract_new_project_tem.Social.Keys.{is_key_valid, star, recursive_star, path_of}
use contract_new_project_tem.Social.Objects.{
  is_special, json_map_recursive_cleanup, json_map_set_key, json_map_get_inner_object, put_field,
  find_field,
}
use contract_new_project_tem.Social.Reading.{
  get, get_paths, recursive_get, get_entries, get_entry, get_own_value, add_node_data,
  matched_entries, no_options, entry_at,
}

-- An entry shows a text: its own, or the one that its node has under the empty key.
abbrev pub Shows : String → Option NodeValue → Contract → Type 0
Shows x none s = ⊥
Shows x (some (value v)) s = v.content ≡ x
Shows x (some (deleted_entry h)) s = ⊥
Shows x (some (node id)) s =
    (m : Node) × (v : ValueAtHeight) × (lookup id s.nodes ≡ some m)
    × (find empty_key m.children ≡ some (value v))
    × (v.content ≡ x)

-- The node of the account is there and shows a text under the key.
pub record Stores (account key x : String) (s : Contract) : Type 0 where
  pub id : NodeId
  pub home : Node
  pub placed : find account s.root_node.children ≡ some (node id)
  pub there : lookup id s.nodes ≡ some home
  pub shows : Shows x (find key home.children) s

is_special_valid : (key : String) → is_key_valid key ≡ true → is_special key ≡ false
unfolding is_key_valid
is_special_valid String.[] h = refl
is_special_valid (String.◌∷◌ c s) h = ground arith

same_pattern :
    (key pattern : String)
    → is_key_valid key ≡ true
    → is_key_valid pattern ≡ false
    → same key pattern ≡ false
same_pattern key pattern h invalid = elim (Bool-cases (same key pattern)) [
  | inl is ↦ absurd (is_not (rw (eq_of_same key pattern is) at h) invalid)
  | inr differs ↦ differs
]
  where
    is_not : is_key_valid pattern ≡ true → is_key_valid pattern ≡ false → ⊥
    is_not a b = cc

not_star : (key : String) → is_key_valid key ≡ true → same key star ≡ false
unfolding is_key_valid
not_star key h = same_pattern key star h refl

not_recursive_star : (key : String) → is_key_valid key ≡ true → same key recursive_star ≡ false
unfolding is_key_valid
not_recursive_star key h = same_pattern key recursive_star h refl

unwrapped :
    (id : NodeId) (m : Node) (s : Contract)
    → lookup id s.nodes ≡ some m
    → internal_unwrap_node id s ≡ ok (record m { node_id = id })
unfolding internal_unwrap_node internal_get_node
unwrapped id m s h = ground arith

get_own_value_shows :
    (key x : String) (m : Node) (v : ValueAtHeight)
    → find empty_key m.children ≡ some (value v)
    → v.content ≡ x
    → get_own_value no_options key m end ≡ field key (string x) end
unfolding get_own_value json_map_set_key
get_own_value_shows key x m v own text = rw (own, text, get_own_value) refl

get_entries-Shows :
    (s : Contract) (key x : String) (found : Option NodeValue) (fuel : ℕ)
    → Shows x found s
    → get_entries s no_options false [] (recursive_get fuel s no_options) (entry_at key found) end
      ≡ ok (field key (string x) end)
unfolding get_entries get_entry get_own_value json_map_set_key
get_entries-Shows s key x none fuel h = absurd h
get_entries-Shows s key x (some (deleted_entry b)) fuel h = absurd h
get_entries-Shows s key x (some (value v)) fuel h = rw (h) refl
get_entries-Shows s key x (some (node id)) fuel (m, v, there, own, text) =
    rw (unwrapped id m s there, bind)
      (ap (λ r. ok r) (get_own_value_shows key x (record m { node_id = id }) v own text))

recursive_get_key :
    (fuel : ℕ) (s : Contract) (key x : String) (n : Node)
    → is_key_valid key ≡ true
    → Shows x (find key n.children) s
    → recursive_get (suc fuel) s no_options (key ∷ []) n end ≡ ok (field key (string x) end)
unfolding recursive_get matched_entries add_node_data
recursive_get_key fuel s key x n valid h =
    rw (not_star key valid, not_recursive_star key valid)
      (get_entries-Shows s key x (find key n.children) fuel h)

recursive_get-Stores :
    (fuel : ℕ) (account key x : String) (s : Contract)
    → is_key_valid account ≡ true
    → is_key_valid key ≡ true
    → 0 < fuel
    → Stores account key x s
    → recursive_get (suc fuel) s no_options (account ∷ key ∷ []) s.root_node end
      ≡ ok (field account (object (field key (string x) end)) end)
unfolding recursive_get matched_entries add_node_data get_entries get_entry
    json_map_get_inner_object find_field put_field
recursive_get-Stores zero account key x s va vk positive h = absurd (omega (arith, positive))
recursive_get-Stores (suc fuel) account key x s va vk positive h =
    rw
      (
        not_star account va,
        not_recursive_star account va,
        h.placed,
        unwrapped h.id h.home s h.there,
        bind,
        recursive_get_key fuel s key x (record h.home { node_id = h.id }) vk h.shows,
      )
      refl

pub get-Stores :
    (account key x path : String) (s : Contract)
    → is_key_valid account ≡ true
    → is_key_valid key ≡ true
    → path_of path ≡ account ∷ key ∷ []
    → 0 < s.node_count
    → Stores account key x s
    → get (path ∷ []) none s ≡ ok (object (field account (object (field key (string x) end)) end))
unfolding get get_paths json_map_recursive_cleanup
get-Stores account key x path s va vk is counted h =
    rw
      (
        is,
        recursive_get-Stores s.node_count account key x s va vk counted h,
        is_special_valid account va,
        is_special_valid key vk,
        bind,
      )
      (rw (is_special_valid key vk) refl)
