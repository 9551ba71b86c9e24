-- ===== src/Social/Tree.antt =====
-- The nodes of social-web3/contract/src descend: the ids grow on the way down from the root, and
-- no child is missing.
pub mod Pieces
pub mod Planting
pub mod Same
pub mod Accounts
pub mod Hand
pub mod Granting
pub mod Frames
pub mod Crediting
pub mod Methods
pub mod Walks
use contract_new_project_tem.Prelude.{
  ℕ, ◌+◌, ◌<◌, ◌≤◌, ◌≡◌, ◌⊎◌, ◌∙◌, refl, sym, inl, inr, Bool, true, false, Option, none, some,
  String, Holds, Outcome, ok, panic, u32_mod, arith, ◌==◌, if◌then◌else◌, ltb,
}
use contract_new_project_tem.Prelude.Map.{lookup, insert, lookup-insert, insert-cases}
use contract_new_project_tem.Prelude.Dict.{Dict, put, In, put-In}
use contract_new_project_tem.Social.State.{
  Env, Contract, Node, NodeId, NodeValue, value, node, deleted_entry, new_node, first_child,
  is_node, is_genesis, create_node_id,
}
use contract_new_project_tem.Social.Pools.{is_some}
use contract_new_project_tem.Social.Accounts.{internal_set_node}
use contract_new_project_tem.Social.Nodes.{internal_get_node, internal_unwrap_node}

abbrev pub IsPresent : NodeId → Contract → Type 0
IsPresent id s = is_some (lookup id s.nodes) ≡ true

-- The children of a node with an id.
abbrev pub Within : NodeId → Contract → Dict NodeValue → Type 0
Within id s children =
    (c : NodeId) → In (node c) children → (id < c) × (c < s.node_count) × IsPresent c s

pub record IsDescending (s : Contract) : Type 0 where
  pub counted : 0 < s.node_count
  pub root : Within 0 s s.root_node.children
  pub below : (id : NodeId) (n : Node) → lookup id s.nodes ≡ some n → Within id s n.children

-- A contract that is past its genesis stays past it: the status is another one, or as it was.
abbrev pub StaysPast : Contract → Contract → Type 0
StaysPast s t = (is_genesis t.status ≡ false) ⊎ (t.status ≡ s.status)

pub StaysPast-trans : (s t u : Contract) → StaysPast s t → StaysPast t u → StaysPast s u
StaysPast-trans s t u a (inl past) = inl past
StaysPast-trans s t u (inl past) (inr same) = inl (rw (same) past)
StaysPast-trans s t u (inr same) (inr again) = inr (again ∙ same)

-- Nodes are added and never taken away.
pub record Grows (s t : Contract) : Type 0 where
  pub past : StaysPast s t
  pub count : s.node_count ≤ t.node_count
  pub present : (c : NodeId) → IsPresent c s → IsPresent c t

pub Grows-refl : (s : Contract) → Grows s s
Grows-refl s = record { past = inr refl; count = omega arith; present = λ c h. h }

pub Grows-trans : {s t u : Contract} → Grows s t → Grows t u → Grows s u
Grows-trans {s} {t} {u} g h = record {
  past = StaysPast-trans s t u g.past h.past;
  count = omega (arith, g.count, h.count);
  present = λ c p. h.present c (g.present c p);
}

pub Within-Grows :
    {s t : Contract} (id : NodeId) (children : Dict NodeValue)
    → Grows s t
    → Within id s children
    → Within id t children
Within-Grows id children g w c h =
    let old = w c h in (old.0, omega (arith, old.1, g.count), g.present c old.2)

-- A child that is put there is a value, or a later node.
pub put-Within :
    (s : Contract) (id : NodeId) (key : String) (v : NodeValue) (children : Dict NodeValue)
    → ((c : NodeId) → v ≡ node c → (id < c) × (c < s.node_count) × IsPresent c s)
    → Within id s children
    → Within id s (put key v children)
put-Within s id key v children new old c h = elim (put-In key v (node c) children h) [
  | inl is ↦ new c (sym is)
  | inr before ↦ old c before
]

abbrev pub written : Env → Node → Node
written e n = record n { block_height = e.block_height }

abbrev pub after_write : Env → Node → Contract → Contract
after_write e n s = record s { nodes = insert n.node_id (written e n) s.nodes }

pub after_write-Grows : (e : Env) (n : Node) (s : Contract) → Grows s (after_write e n s)
after_write-Grows e n s = record {
  past = inr refl;
  count = omega arith;
  present = λ c p. ground (arith, lookup-insert c n.node_id (written e n) s.nodes);
}

below_write :
    (e : Env) (n : Node) (s : Contract) (id : NodeId) (m : Node)
    → IsDescending s
    → Within n.node_id s n.children
    → lookup id (after_write e n s).nodes ≡ some m
    → Within id s m.children
below_write e n s id m v w h = elim (insert-cases id n.node_id (written e n) m s.nodes h) [
  | inl (same_id, same_node) ↦ rw (same_id, sym same_node) w
  | inr before ↦ v.below id m before
]

-- What an action that writes to a node in the tree leaves behind.
abbrev pub Planted : {A : Type 0} → NodeId → Contract → A × Contract → Type 0
Planted id s r = IsDescending r.1 × Grows s r.1 × IsPresent id r.1

-- Writing a node keeps them descending.
pub internal_set_node-IsDescending :
    (e : Env) (n : Node) (s : Contract)
    → IsDescending s
    → Within n.node_id s n.children
    → Holds (Planted n.node_id s) (internal_set_node e n s)
unfolding internal_set_node
internal_set_node-IsDescending e n s v w =
    let grows = after_write-Grows e n s in
    (
      record {
        counted = v.counted;
        root = Within-Grows 0 s.root_node.children grows v.root;
        below = λ id m h. Within-Grows id m.children grows (below_write e n s id m v w h);
      },
      grows,
      ground (arith, lookup-insert n.node_id n.node_id (written e n) s.nodes),
    )
