-- ===== src/Social/Tree/Walks.antt =====
-- `get` and `keys` of social-web3/contract/src/api.rs come to an end where the nodes descend.
use contract_new_project_tem.Prelude.{
  ℕ, zero, suc, ◌+◌, ◌<◌, ◌≤◌, ◌≡◌, refl, sym, ap, ◌∙◌, inl, inr, Bool, true, false, not, ◌||◌,
  ◌&&◌, Option, none, some, List, [], ◌∷◌, String, Outcome, ok, panic, Succeeds, bind, arith,
  Bool-cases, Option-cases,
}
use contract_new_project_tem.Prelude.Map.{lookup}
use contract_new_project_tem.Prelude.Dict.{Dict, find, find-In, same}
use contract_new_project_tem.Social.State.{
  is_genesis, Env, Contract, Node, NodeId, NodeValue, value, node, deleted_entry, Fields, end,
}
use contract_new_project_tem.Social.Pools.{unwrap_or}
use contract_new_project_tem.Social.Nodes.{internal_get_node, internal_unwrap_node}
use contract_new_project_tem.Social.Keys.{star, recursive_star, is_last, path_of}
use contract_new_project_tem.Social.Objects.{GetOptions, json_map_get_inner_object}
use contract_new_project_tem.Social.Reading.{
  matched_entries, entry_at, deeper, get_entry, get_entries, recursive_get, add_node_data, get_path,
  get_paths, get, no_options,
}
use contract_new_project_tem.Social.Calls.{Call, run}
use contract_new_project_tem.Social.Tree.Methods.{run-IsDescending}
use contract_new_project_tem.Social.Tree.{IsPresent, Within, IsDescending}

-- A pattern has a part, and `**` only as its last one.
abbrev pub is_pattern : List String → Bool
is_pattern [] = false
is_pattern (k ∷ []) = true
is_pattern (k ∷ (j ∷ ks)) = not (same k recursive_star) && is_pattern (j ∷ ks)

bind-Succeeds :
    {A B : Type 0} (m : Outcome A) (f : A → Outcome B)
    → Succeeds m
    → ((a : A) → m ≡ ok a → Succeeds (f a))
    → Succeeds (bind m f)
bind-Succeeds (ok a) f h next = next a refl
bind-Succeeds (panic e) f h next = h

missing_node : false ≡ true → ⊥
missing_node h = cc

-- A node that is present is found, with its children in the tree.
pub found_node :
    (id : NodeId) (s : Contract)
    → IsDescending s
    → IsPresent id s
    → (m : Node) × (lookup id s.nodes ≡ some m)
      × (internal_unwrap_node id s ≡ ok (record m { node_id = id }))
      × Within id s m.children
unfolding internal_unwrap_node internal_get_node
found_node id s v p = elim (Option-cases (lookup id s.nodes)) [
  | inl missing ↦ absurd (missing_node (rw missing at p))
  | inr (m, found) ↦ (m, found, ground arith, v.below id m found)
]

-- What the subtrees of a node take: any pattern, at any child.
abbrev Follows : NodeId → Contract → (List String → Node → Fields → Outcome Fields) → Type 0
Follows id s recur =
    (keys : List String) (c : NodeId) (inner : Node) (res : Fields)
    → is_pattern keys ≡ true
    → id < c
    → c < s.node_count
    → Within c s inner.children
    → Succeeds (recur keys inner res)

deeper-Succeeds :
    (everything : Bool) (keys : List String) (recur : List String → Node → Fields → Outcome Fields)
    (id : NodeId) (s : Contract) (c : NodeId) (inner : Node) (res : Fields)
    → Follows id s recur
    → (is_last keys || (not everything && is_pattern keys)) ≡ true
    → id < c
    → c < s.node_count
    → Within c s inner.children
    → Succeeds (deeper everything keys recur inner res)
deeper-Succeeds true [] recur id s c inner res follows fits later counted w =
    follows (recursive_star ∷ []) c inner res refl later counted w
deeper-Succeeds false [] recur id s c inner res follows fits later counted w = tt
deeper-Succeeds true (k ∷ ks) recur id s c inner res follows fits later counted w =
    absurd (missing_node fits)
deeper-Succeeds false (k ∷ ks) recur id s c inner res follows fits later counted w =
    bind-Succeeds (recur (k ∷ ks) inner res) _ (follows (k ∷ ks) c inner res fits later counted w)
      λ found _. tt

-- The entries that a part of a pattern matches, one after the other.
module _ (s : Contract) (o : GetOptions) (v : IsDescending s) (everything : Bool)
    (keys : List String) (fits : (is_last keys || (not everything && is_pattern keys)) ≡ true)
    (recur : List String → Node → Fields → Outcome Fields) (id : NodeId)
    (follows : Follows id s recur) where
  get_entry-Succeeds :
      (key : String) (x : NodeValue) (res : Fields)
      → ((c : NodeId) → x ≡ node c → (id < c) × (c < s.node_count) × IsPresent c s)
      → Succeeds (get_entry s o everything keys recur (key, x) res)
  unfolding get_entry
  get_entry-Succeeds key (node c) res child =
      let (later, counted, present) = child c refl in
      let (m, stored, eq, w) = found_node c s v present in
      let inner : Node = record m { node_id = c } in
      rw (eq) (elim (Bool-cases (not (is_last keys) || everything)) [
        | inl deep ↦ rw (deep) (
            bind-Succeeds (deeper everything keys recur inner (json_map_get_inner_object key res)) _
              (deeper-Succeeds everything keys recur id s c inner _ follows fits later counted w)
              λ found _. tt)
        | inr flat ↦ rw (flat) tt
      ])
  get_entry-Succeeds key (value x) res child = tt
  get_entry-Succeeds key (deleted_entry h) res child = tt

  get_entries-Succeeds :
      (cs : Dict NodeValue) (res : Fields)
      → Within id s cs
      → Succeeds (get_entries s o everything keys recur cs res)
  unfolding get_entries
  get_entries-Succeeds [] res w = tt
  get_entries-Succeeds ((key, x) ∷ cs) res w =
      bind-Succeeds (get_entry s o everything keys recur (key, x) res) _
        (get_entry-Succeeds key x res (λ c is. w c (inl (sym is))))
        λ found _. get_entries-Succeeds cs found (λ c h. w c (inr h))

matched_entries-Within :
    (everything : Bool) (key : String) (n : Node) (id : NodeId) (s : Contract)
    → Within id s n.children
    → Within id s (matched_entries everything key n)
unfolding matched_entries
matched_entries-Within true key n id s w = w
matched_entries-Within false key n id s w = at_key (find key n.children) refl
  where
    at_key :
        (found : Option NodeValue) → find key n.children ≡ found → Within id s (entry_at key found)
    at_key none eq c h = absurd h
    at_key (some x) eq c (inl is) = w c (find-In key (node c) n.children (eq ∙ ap some (sym is)))
    at_key (some x) eq c (inr h) = absurd h

-- The rest of a pattern.
rest_fits :
    (key : String) (keys : List String)
    → is_pattern (key ∷ keys) ≡ true
    → ((not (same key recursive_star) || is_last keys) ≡ true)
      × ((is_last keys || (not (same key recursive_star) && is_pattern keys)) ≡ true)
rest_fits key [] h = ground arith
rest_fits key (k ∷ ks) h = ground arith

recursive_get-Succeeds :
    (fuel : ℕ) (s : Contract) (o : GetOptions) (keys : List String) (n : Node) (id : NodeId)
    (res : Fields)
    → IsDescending s
    → Within id s n.children
    → is_pattern keys ≡ true
    → id < s.node_count
    → s.node_count ≤ fuel + id
    → Succeeds (recursive_get fuel s o keys n res)
unfolding recursive_get
recursive_get-Succeeds zero s o keys n id res v w p counted enough = absurd (omega arith)
recursive_get-Succeeds (suc fuel) s o [] n id res v w p counted enough = absurd (missing_node p)
recursive_get-Succeeds (suc fuel) s o (key ∷ keys) n id res v w p counted enough =
    let (suffix, fits) = rest_fits key keys p in
    rw (suffix) (
      get_entries-Succeeds s o v (same key recursive_star) keys fits (recursive_get fuel s o) id
        (λ ks c inner found q later early x.
          recursive_get-Succeeds fuel s o ks inner c found v x q early (omega arith))
        (matched_entries (same key star || same key recursive_star) key n) (add_node_data o n res)
        (matched_entries-Within (same key star || same key recursive_star) key n id s w))

-- The patterns that `get` takes.
abbrev pub may_be_read : List String → Bool
may_be_read [] = true
may_be_read (k ∷ ks) = is_pattern (k ∷ ks)

abbrev pub all_may_be_read : List String → Bool
all_may_be_read [] = true
all_may_be_read (key ∷ keys) = may_be_read (path_of key) && all_may_be_read keys

get_path-Succeeds :
    (s : Contract) (o : GetOptions) (path : List String) (res : Fields)
    → IsDescending s
    → may_be_read path ≡ true
    → Succeeds (get_path s o path res)
get_path-Succeeds s o [] res v h = tt
get_path-Succeeds s o (k ∷ ks) res v h =
    recursive_get-Succeeds (suc s.node_count) s o (k ∷ ks) s.root_node 0 res v v.root h v.counted
      (omega arith)

get_paths-Succeeds :
    (s : Contract) (o : GetOptions) (keys : List String) (res : Fields)
    → IsDescending s
    → all_may_be_read keys ≡ true
    → Succeeds (get_paths s o keys res)
unfolding get_paths
get_paths-Succeeds s o [] res v h = tt
get_paths-Succeeds s o (key ∷ keys) res v h =
    bind-Succeeds (get_path s o (path_of key) res) _
      (get_path-Succeeds s o (path_of key) res v (ground arith))
      λ found _. get_paths-Succeeds s o keys found v (ground arith)

-- Once a contract is past its genesis with its nodes in order, `get` comes to an end with a result after
-- any history of calls of every method, whatever patterns it is asked for in which `**` stands only as
-- the last part: the fuel, one more than the number of the nodes, is never used up, and no node is
-- missing.
pub run-get-Succeeds :
    (ts : List (Env × Call)) (s : Contract) (keys : List String) (options : Option GetOptions)
    → IsDescending s
    → is_genesis s.status ≡ false
    → all_may_be_read keys ≡ true
    → Succeeds (get keys options (run s ts))
unfolding get
run-get-Succeeds ts s keys options v past h =
    bind-Succeeds (get_paths (run s ts) (unwrap_or no_options options) keys end) _
      (get_paths-Succeeds (run s ts) (unwrap_or no_options options) keys end
        ((run-IsDescending ts s v past).0) h)
      λ found _. tt
