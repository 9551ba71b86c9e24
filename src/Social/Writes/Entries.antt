-- ===== src/Social/Writes/Entries.antt =====
-- `recursive_set` of social-web3/contract/src/api.rs writes to marked nodes only.
use contract_new_project_tem.Prelude.{
  ◌≡◌, ◌∙◌, refl, inl, inr, Bool, true, false, not, ◌||◌, Option, none, some, String, List, Holds,
  seq-Holds, lift-Holds, lift-Holds_last, if-pred, asks-Holds, require-Holds, arith, Action, lift,
  if◌then◌else◌,
}
use contract_new_project_tem.Prelude.Dict.{find, find-In, put-In, same}
use contract_new_project_tem.Social.State.{
  Env, Contract, Node, NodeId, NodeValue, value, node, deleted_entry, new_node, create_node_id,
  empty_key, Json, null, boolean, number, string, array, object, Fields, end, field,
}
use contract_new_project_tem.Social.Nodes.{internal_unwrap_node, set_value}
use contract_new_project_tem.Social.Keys.{is_key_valid}
use contract_new_project_tem.Social.Permissions.{contains}
use contract_new_project_tem.Social.Setting.{
  set_entry, grow, set_leaf, recursive_set, set_fields, is_leaf,
}
use contract_new_project_tem.Social.Writes.{Marked, Seen}
use contract_new_project_tem.Social.Writes.Pieces.{
  Guards, Alters, stored-Seen, set_value-Seen, new_node-Seen, create_node_id-Guards, WritesMarked,
  write-Guards, Alters-trans,
}

module _ (e : Env) (w : NodeId → Bool) where
  grow-Alters :
      (key : String) (first : Option NodeValue) (approved : Bool)
      (recur : Node → Action Contract (Unit {0})) (n : Node) (s : Contract)
      → WritesMarked e w approved recur
      → Marked e w s
      → Seen w n s
      → w n.node_id ≡ true
      → Holds (Alters e w n s) (grow e key first recur n s)
  unfolding grow
  grow-Alters key first approved recur n s writes v seen h =
      seq-Holds _ _ create_node_id _ s (create_node_id-Guards e w s v) λ id t (marked_id, k).
        lift-Holds _ _ (new_node e id first) _ t (new_node-Seen e w id first t marked_id)
          λ m (its_id, fresh).
            seq-Holds _ _ (recur m) _ t (writes m t k.marked fresh (λ _. rw (its_id) marked_id))
              λ _ u l. record {
                same_node = refl;
                marked = l.marked;
                spares = λ i j. l.spares i j ∙ k.spares i j;
                seen = record {
                  stored = λ no. cc;
                  below = λ _ c inside. elim (put-In key (node id) (node c) n.children inside) [
                    | inl is ↦ ground arith
                    | inr before ↦ seen.below h c before
                  ];
                };
              }

  overwrite-Alters :
      (key : String) (json : Json) (n : Node) (s : Contract)
      → Marked e w s
      → Seen w n s
      → w n.node_id ≡ true
      → Holds (Alters e w n s) (lift (set_value e key json n) s)
  overwrite-Alters key json n s v seen h =
      lift-Holds_last _ _ (set_value e key json n) s (set_value-Seen e w key json n s h seen)
        λ m (its_id, after). record {
          same_node = its_id;
          marked = v;
          spares = λ i j. refl;
          seen = after;
        }

  -- An entry that is a value, or is not there.
  replace-Alters :
      (key : String) (json : Json) (approved : Bool) (more : Action Contract Node) (n : Node)
      (s : Contract)
      → Marked e w s
      → Seen w n s
      → w n.node_id ≡ true
      → Holds (Alters e w n s) (more s)
      → Holds (Alters e w n s) ((if is_leaf json then lift (set_value e key json n) else more) s)
  replace-Alters key json approved more n s v seen h k =
      if-pred (Holds (Alters e w n s)) (is_leaf json) _ more s
        (λ _. overwrite-Alters key json n s v seen h) (λ _. k)

  set_entry-Alters :
      (key : String) (json : Json) (approved : Bool) (recur : Node → Action Contract (Unit {0}))
      (n : Node) (s : Contract)
      → WritesMarked e w approved recur
      → Marked e w s
      → Seen w n s
      → (approved ≡ true → w n.node_id ≡ true)
      → (found : Option NodeValue) → find key n.children ≡ found
      → Holds (Alters e w n s) (set_entry e key json approved recur found n s)
  unfolding set_entry
  set_entry-Alters key json approved recur n s writes v seen may none eq =
      require-Holds _ approved "Permission Denied" _ s λ yes_approved.
        replace-Alters key json approved _ n s v seen (may yes_approved)
          (grow-Alters key none approved recur n s writes v seen (may yes_approved))
  set_entry-Alters key json approved recur n s writes v seen may (some (node id)) eq =
      asks-Holds _ _ (internal_unwrap_node id) _ s (stored-Seen e w id s v) λ inner (its_id, there).
        seq-Holds _ _ (recur inner) _ s
          (writes inner s v there (λ yes_approved.
            rw (its_id) (seen.below (may yes_approved) id (find-In key (node id) n.children eq))))
          λ _ t k. record {
            same_node = refl;
            marked = k.marked;
            spares = k.spares;
            seen = record {
              stored = λ h. k.spares n.node_id h ∙ seen.stored h;
              below = seen.below;
            };
          }
  set_entry-Alters key json approved recur n s writes v seen may (some (value x)) eq =
      require-Holds _ approved "Permission Denied" _ s λ yes_approved.
        replace-Alters key json approved _ n s v seen (may yes_approved) (
          require-Holds _ (not (same key empty_key))
            "The empty key's value should be a string or null" _ s
            λ _.
              grow-Alters key (some (value x)) approved recur n s writes v seen (may yes_approved))
  set_entry-Alters key json approved recur n s writes v seen may (some (deleted_entry h)) eq =
      require-Holds _ approved "Permission Denied" _ s λ yes_approved.
        replace-Alters key json approved _ n s v seen (may yes_approved) (
          require-Holds _ (not (same key empty_key))
            "The empty key's value should be a string or null" _ s
            λ _.
              grow-Alters key (some (deleted_entry h)) approved recur n s writes v seen
                (may yes_approved))

  set_leaf-Guards :
      (json : Json) (approved : Bool) (n : Node) (s : Contract)
      → Marked e w s
      → Seen w n s
      → (approved ≡ true → w n.node_id ≡ true)
      → Holds (Guards e w s) (set_leaf e json approved n s)
  unfolding set_leaf
  set_leaf-Guards json approved n s v seen may =
      require-Holds _ approved "Permission Denied" _ s λ yes_approved.
        lift-Holds _ _ (set_value e empty_key json n) _ s
          (set_value-Seen e w empty_key json n s (may yes_approved) seen)
          λ m (its_id, after). write-Guards e w m s s v (λ id h. refl) after

  -- The nodes that the caller was granted are marked.
  module _ (ids : List NodeId)
      (granted : (id : NodeId) → contains id ids ≡ true → w id ≡ true) where
    approved_at :
        (approved : Bool) (n : Node)
        → (approved ≡ true → w n.node_id ≡ true)
        → (approved || contains n.node_id ids) ≡ true
        → w n.node_id ≡ true
    approved_at true n may h = may refl
    approved_at false n may h = granted n.node_id h

    mutual
      unfolding recursive_set set_fields

      pub recursive_set-marked :
          (json : Json) (approved : Bool)
          → WritesMarked e w approved (recursive_set e json approved ids)
      recursive_set-marked null approved m t v seen may =
          set_leaf-Guards null _ m t v seen (approved_at approved m may)
      recursive_set-marked (string x) approved m t v seen may =
          set_leaf-Guards (string x) _ m t v seen (approved_at approved m may)
      recursive_set-marked (object fs) approved m t v seen may =
          seq-Holds _ _ (set_fields e fs (approved || contains m.node_id ids) ids m) _ t
            (set_fields-Marked fs _ m t v seen (approved_at approved m may))
            λ n u k. write-Guards e w n t u k.marked k.spares k.seen
      recursive_set-marked (boolean b) approved m t v seen may = tt
      recursive_set-marked (number k) approved m t v seen may = tt
      recursive_set-marked (array xs) approved m t v seen may = tt

      set_fields-Marked :
          (fs : Fields) (approved : Bool) (n : Node) (s : Contract)
          → Marked e w s
          → Seen w n s
          → (approved ≡ true → w n.node_id ≡ true)
          → Holds (Alters e w n s) (set_fields e fs approved ids n s)
      set_fields-Marked end approved n s v seen may = record {
        same_node = refl;
        marked = v;
        spares = λ i j. refl;
        seen = seen;
      }
      set_fields-Marked (field key json fs) approved n s v seen may =
          require-Holds _ (is_key_valid key) "Key contains invalid character or longer than 256" _ s
            λ _.
              seq-Holds _ _
                (set_entry e key json approved (recursive_set e json approved ids)
                  (find key n.children) n)
                _ s
                (set_entry-Alters key json approved (recursive_set e json approved ids) n s
                  (recursive_set-marked json approved) v seen may (find key n.children) refl)
                λ m t k. Alters-trans e w n s m t _ k (
                  set_fields-Marked fs approved m t k.marked k.seen (λ h. rw (k.same_node) (may h)))
