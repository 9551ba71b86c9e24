-- ===== src/Social/Tree/Hand.antt =====
-- Descending nodes but for a node in hand: what the walk of permission.rs in social-web3/contract/src keeps.
use contract_new_project_tem.Prelude.{
  ◌+◌, ◌<◌, ◌≡◌, ◌⊎◌, refl, sym, inl, inr, some, String, Holds, arith, ltb, Bool-cases, u32_mod,
}
use contract_new_project_tem.Prelude.Map.{lookup, lookup-insert, insert-cases}
use contract_new_project_tem.Prelude.Dict.{Dict, put, In, put-In}
use contract_new_project_tem.Social.State.{
  Env, Contract, Node, NodeId, NodeValue, node, create_node_id,
}
use contract_new_project_tem.Social.Tree.{
  IsPresent, Within, IsDescending, Grows, after_write, after_write-Grows, written,
}

-- A child that is there, or is the node in hand.
abbrev pub Held : NodeId → NodeId → Contract → Type 0
Held d c s = (c ≡ d) ⊎ IsPresent c s

abbrev pub WithinBut : NodeId → NodeId → Contract → Dict NodeValue → Type 0
WithinBut d id s children =
    (c : NodeId) → In (node c) children → (id < c) × (c < s.node_count) × Held d c s

pub record IsDescendingBut (d : NodeId) (s : Contract) : Type 0 where
  pub counted : 0 < s.node_count
  pub root : WithinBut d 0 s s.root_node.children
  pub below : (id : NodeId) (n : Node) → lookup id s.nodes ≡ some n → WithinBut d id s n.children

pub Within-WithinBut :
    (d id : NodeId) (s : Contract) (cs : Dict NodeValue) → Within id s cs → WithinBut d id s cs
Within-WithinBut d id s cs w c h =
    let (after, before, present) = w c h in (after, before, inr present)

pub IsDescending-IsDescendingBut :
    (d : NodeId) (s : Contract) → IsDescending s → IsDescendingBut d s
IsDescending-IsDescendingBut d s v = record {
  counted = v.counted;
  root = Within-WithinBut d 0 s s.root_node.children v.root;
  below = λ id n h. Within-WithinBut d id s n.children (v.below id n h);
}

-- No child is the root.
WithinBut-Within :
    (id : NodeId) (s : Contract) (cs : Dict NodeValue) → WithinBut 0 id s cs → Within id s cs
WithinBut-Within id s cs w c h = ground (arith, w c h)

pub IsDescendingBut-IsDescending : (s : Contract) → IsDescendingBut 0 s → IsDescending s
IsDescendingBut-IsDescending s v = record {
  counted = v.counted;
  root = WithinBut-Within 0 s s.root_node.children v.root;
  below = λ id n h. WithinBut-Within id s n.children (v.below id n h);
}

-- The node in hand is written, and another one is taken in hand.
module _ (e : Env) (n : Node) (s : Contract) (d : NodeId) where
  Held-write : (c : NodeId) → Held n.node_id c s → Held d c (after_write e n s)
  Held-write c (inl eq) = inr (ground (arith, lookup-insert c n.node_id (written e n) s.nodes))
  Held-write c (inr p) = inr ((after_write-Grows e n s).present c p)

  within_write :
      (id : NodeId) (cs : Dict NodeValue)
      → WithinBut n.node_id id s cs
      → WithinBut d id (after_write e n s) cs
  within_write id cs w c h =
      let (later, counted, held) = w c h in (later, counted, Held-write c held)

  new_write :
      (id : NodeId) (cs : Dict NodeValue)
      → WithinBut d id s cs
      → WithinBut d id (after_write e n s) cs
  new_write id cs w c h =
      let (later, counted, held) = w c h in
      (
        later,
        counted,
        elim held [ inl eq ↦ inl eq | inr p ↦ inr ((after_write-Grows e n s).present c p) ],
      )

  pub write-IsDescendingBut :
      IsDescendingBut n.node_id s
      → WithinBut d n.node_id s n.children
      → IsDescendingBut d (after_write e n s)
  write-IsDescendingBut v w = record {
    counted = v.counted;
    root = within_write 0 s.root_node.children v.root;
    below = λ id m h. elim (insert-cases id n.node_id (written e n) m s.nodes h) [
      | inl (same_id, same_node) ↦ rw (same_id, sym same_node) (new_write n.node_id n.children w)
      | inr before ↦ within_write id m.children (v.below id m before)
    ];
  }

counted-IsDescendingBut :
    (d : NodeId) (s : Contract)
    → IsDescendingBut d s
    → IsDescendingBut d (record s { node_count = s.node_count + 1 })
counted-IsDescendingBut d s v = record {
  counted = omega arith;
  root = λ c h. let (a, b, p) = v.root c h in (a, omega (arith, b), p);
  below = λ id n found c h. let (a, b, p) = v.below id n found c h in (a, omega (arith, b), p);
}

pub next_id :
    (d : NodeId) (s : Contract)
    → IsDescendingBut d s
    → Holds
        (λ r. (r.0 ≡ s.node_count) × (r.0 < r.1.node_count) × IsDescendingBut d r.1 × Grows s r.1)
        (create_node_id s)
unfolding create_node_id
next_id d s v = elim (Bool-cases (ltb (s.node_count + 1) u32_mod)) [
  | inl fits ↦
      rw (fits, Holds)
        (
          refl,
          omega arith,
          counted-IsDescendingBut d s v,
          record { past = inr refl; count = omega arith; present = λ c p. p },
        )
  | inr full ↦ rw (full, Holds) tt
]

pub put-WithinBut :
    (d : NodeId) (s : Contract) (id : NodeId) (key : String) (children : Dict NodeValue)
    → (id < d) × (d < s.node_count)
    → Within id s children
    → WithinBut d id s (put key (node d) children)
put-WithinBut d s id key children new old c h = elim (put-In key (node d) (node c) children h) [
  | inl is ↦ ground arith
  | inr before ↦ ground (arith, old c before)
]
