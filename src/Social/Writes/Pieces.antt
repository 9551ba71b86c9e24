-- ===== src/Social/Writes/Pieces.antt =====
-- The steps of `set` in social-web3/contract/src/api.rs that make, read and write one marked node.
use contract_new_project_tem.Prelude.{
  ◌+◌, ◌≡◌, ◌∙◌, refl, sym, inl, inr, Bool, true, not, Option, none, some, String, Holds,
  Holds_mono, Holds-ok, bind-Holds, ensure, Outcome, arith, ltb, u32_mod, Bool-cases, Option-cases,
  Action,
}
use contract_new_project_tem.Prelude.Map.{lookup}
use contract_new_project_tem.Prelude.Dict.{find, put, put-In}
use contract_new_project_tem.Social.State.{
  Env, Contract, Node, NodeId, NodeValue, node, new_node, is_node, create_node_id, leaf_value, Json,
}
use contract_new_project_tem.Social.Accounts.{internal_set_node}
use contract_new_project_tem.Social.Nodes.{
  internal_get_node, internal_unwrap_node, set_value, holds_node,
}
use contract_new_project_tem.Social.Permissions.{internal_get_writeable_node_ids, permissions_of}
use contract_new_project_tem.Social.Tree.Pieces.{leaf_value-is_node, no_node}
use contract_new_project_tem.Social.Writes.{Marked, Seen, Spares, write-Marked, write-Spares}

module _ (e : Env) (w : NodeId → Bool) where
  -- What a step of the writing keeps.
  pub record Guards {A : Type 0} (s : Contract) (r : A × Contract) : Type 0 where
    pub marked : Marked e w r.1
    pub spares : Spares w s r

  pub record Alters (n : Node) (s : Contract) (r : Node × Contract) : Type 0 where
    pub same_node : r.0.node_id ≡ n.node_id
    pub marked : Marked e w r.1
    pub spares : Spares w s r
    pub seen : Seen w r.0 r.1

  pub stored-Seen :
      (id : NodeId) (s : Contract)
      → Marked e w s
      → Holds (λ n. (n.node_id ≡ id) × Seen w n s) (internal_unwrap_node id s)
  unfolding internal_unwrap_node internal_get_node
  stored-Seen id s v = elim (Option-cases (lookup id s.nodes)) [
    | inl missing ↦ rw (missing, Holds) tt
    | inr (n, found) ↦
        rw (found, Holds)
          (
            refl,
            record {
              stored = λ h. ground arith;
              below = λ h c inside. v.below id c n found h inside;
            },
          )
  ]

  -- A marked node takes a text or null.
  pub set_value-Seen :
      (key : String) (json : Json) (n : Node) (s : Contract)
      → w n.node_id ≡ true
      → Seen w n s
      → Holds (λ m. (m.node_id ≡ n.node_id) × Seen w m s) (set_value e key json n)
  unfolding set_value
  set_value-Seen key json n s h seen = bind-Holds _ (leaf_value e json) _ λ x eq.
      bind-Holds _
        (ensure (not (holds_node (find key n.children)))
          "Internal error, the replaced value was a node")
        _
        λ _ _. (
          refl,
          record {
            stored = λ k. cc;
            below = λ _ c inside. elim (put-In key x (node c) n.children inside) [
              | inl is ↦ no_node x c (Holds-ok _ eq (leaf_value-is_node e json)) (sym is)
              | inr before ↦ seen.below h c before
            ];
          },
        )

  pub new_node-Seen :
      (id : NodeId) (first : Option NodeValue) (s : Contract)
      → w id ≡ true
      → Holds (λ m. (m.node_id ≡ id) × Seen w m s) (new_node e id first)
  unfolding new_node put
  new_node-Seen id none s h =
      (refl, record { stored = λ k. cc; below = λ _ c inside. absurd inside })
  new_node-Seen id (some x) s h = elim (Bool-cases (is_node x)) [
    | inl is ↦ rw (is, Holds) tt
    | inr leaf ↦
        rw (leaf, Holds)
          (
            refl,
            record {
              stored = λ k. cc;
              below = λ _ c inside. elim inside [
                | inl is ↦ no_node x c leaf (sym is)
                | inr none_more ↦ absurd none_more
              ];
            },
          )
  ]

  pub create_node_id-Guards :
      (s : Contract) → Marked e w s → Holds (λ r. (w r.0 ≡ true) × Guards s r) (create_node_id s)
  unfolding create_node_id internal_get_writeable_node_ids permissions_of
  create_node_id-Guards s v = elim (Bool-cases (ltb (s.node_count + 1) u32_mod)) [
    | inl fits ↦
        rw (fits, Holds)
          (
            v.fresh s.node_count (omega arith),
            record {
              marked = record {
                fresh = λ id h. v.fresh id (omega (arith, h));
                granted = v.granted;
                own = v.own;
                below = v.below;
              };
              spares = λ id h. refl;
            },
          )
    | inr full ↦ rw (full, Holds) tt
  ]

  -- An action that writes at a node, with the approval or without it.
  abbrev pub WritesMarked : Bool → (Node → Action Contract (Unit {0})) → Type 0
  WritesMarked approved recur =
      (m : Node) (t : Contract)
      → Marked e w t
      → Seen w m t
      → (approved ≡ true → w m.node_id ≡ true)
      → Holds (Guards t) (recur m t)

  pub write-Guards :
      (n : Node) (s t : Contract)
      → Marked e w t
      → Spares w s (tt, t)
      → Seen w n t
      → Holds (Guards s) (internal_set_node e n t)
  unfolding internal_set_node
  write-Guards n s t v spares seen = record {
    marked = write-Marked e w n t v seen;
    spares = λ id h. write-Spares e w n t id seen h ∙ spares id h;
  }

  pub Alters-trans :
      (n : Node) (s : Contract) (m : Node) (t : Contract) (r : Outcome (Node × Contract))
      → Alters n s (m, t)
      → Holds (Alters m t) r
      → Holds (Alters n s) r
  Alters-trans n s m t r k h =
      Holds_mono r
        (λ q l. record {
          same_node = l.same_node ∙ k.same_node;
          marked = l.marked;
          spares = λ i j. l.spares i j ∙ k.spares i j;
          seen = l.seen;
        })
        h
