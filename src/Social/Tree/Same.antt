-- ===== src/Social/Tree/Same.antt =====
-- What account.rs of social-web3/contract/src writes to its own records and pools leaves the nodes as
-- they were.
use contract_new_project_tem.Prelude.{
  inr, ◌≡◌, ◌∙◌, refl, sym, Holds, Holds_mono, seq-Holds, Outcome, arith,
}
use contract_new_project_tem.Social.State.{Env, Contract, Account}
use contract_new_project_tem.Social.Pools.{
  internal_unwrap_shared_storage_pool, internal_set_shared_storage_pool,
}
use contract_new_project_tem.Social.Accounts.{
  take_from_pool, give_to_pool, use_more, use_less, settle_bytes, internal_set_account,
}
use contract_new_project_tem.Social.Tree.{
  StaysPast, StaysPast-trans, IsDescending, Grows, Grows-trans, Within-Grows,
}

-- The nodes are as they were.
pub record SameNodes (s t : Contract) : Type 0 where
  pub past : StaysPast s t
  pub root : t.root_node ≡ s.root_node
  pub nodes : t.nodes ≡ s.nodes
  pub count : t.node_count ≡ s.node_count
  pub permissions : t.permissions ≡ s.permissions

abbrev pub Leaves : {A : Type 0} → Contract → A × Contract → Type 0
Leaves s r = SameNodes s r.1

pub SameNodes-refl : (s : Contract) → SameNodes s s
SameNodes-refl s = record {
  past = inr refl;
  root = refl;
  nodes = refl;
  count = refl;
  permissions = refl;
}

pub SameNodes-trans : {s t u : Contract} → SameNodes s t → SameNodes t u → SameNodes s u
SameNodes-trans {s} {t} {u} a b = record {
  past = StaysPast-trans s t u a.past b.past;
  root = b.root ∙ a.root;
  nodes = b.nodes ∙ a.nodes;
  count = b.count ∙ a.count;
  permissions = b.permissions ∙ a.permissions;
}

pub SameNodes-Grows : {s t : Contract} → SameNodes s t → Grows s t
SameNodes-Grows f = record {
  past = f.past;
  count = omega (arith, f.count);
  present = λ c p. rw (f.nodes) p;
}

pub SameNodes-IsDescending : {s t : Contract} → SameNodes s t → IsDescending s → IsDescending t
SameNodes-IsDescending {s} {t} f v =
    let grows = SameNodes-Grows f in
    record {
      counted = rw (f.count) v.counted;
      root = rw (f.root) (Within-Grows 0 s.root_node.children grows v.root);
      below = λ id n h. Within-Grows id n.children grows (v.below id n (rw (sym f.nodes) h));
    }

settle_bytes-same :
    (e : Env) (a : Account) (s : Contract)
    → Holds (λ r. Leaves s r × (r.0.node_id ≡ a.node_id)) (settle_bytes e a s)
unfolding settle_bytes use_more use_less take_from_pool give_to_pool
    internal_set_shared_storage_pool internal_unwrap_shared_storage_pool
settle_bytes-same e a s = ground arith

pub internal_set_account-same :
    (e : Env) (a : Account) (s : Contract) → Holds (Leaves s) (internal_set_account e a s)
unfolding internal_set_account
internal_set_account-same e a s =
    seq-Holds _ _ (settle_bytes e a) _ s (settle_bytes-same e a s) λ b t (frame, _). record {
      past = frame.past;
      root = frame.root;
      nodes = frame.nodes;
      count = frame.count;
      permissions = frame.permissions;
    }

-- What an action leaves of the tree.
abbrev pub Tended : {A : Type 0} → Contract → A × Contract → Type 0
Tended s r = IsDescending r.1 × Grows s r.1

pub Leaves-Tended :
    {A : Type 0} (s : Contract) (r : Outcome (A × Contract))
    → IsDescending s
    → Holds (Leaves s) r
    → Holds (Tended s) r
Leaves-Tended s r v h =
    Holds_mono r (λ q frame. (SameNodes-IsDescending frame v, SameNodes-Grows frame)) h

pub then-Tended :
    {A : Type 0} (s t : Contract) (r : Outcome (A × Contract))
    → Grows s t
    → Holds (Tended t) r
    → Holds (Tended s) r
then-Tended s t r g h = Holds_mono r (λ q (tree, grows). (tree, Grows-trans g grows)) h
