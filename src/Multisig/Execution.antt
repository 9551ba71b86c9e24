-- ===== src/Multisig/Execution.antt =====
-- What `execute_request` of multisig/src/lib.rs asks of the chain.
use contract_new_project_tem.Prelude.{
  ℕ, ◌≡◌, refl, ap, Option, none, some, List, [], ◌∷◌, ◌++◌, ok, length, Holds-ok,
}
use contract_new_project_tem.Host.{Env, AccountId, Promise, PromiseAction}
use contract_new_project_tem.Multisig.State.{
  MultisigMember, MultiSigContract, MultiSigRequest, MultiSigRequestAction, PromiseOrValue,
}
use contract_new_project_tem.Multisig.Methods.{execute_actions, execute_request}

abbrev also : PromiseAction → Option (List PromiseAction) → Option (List PromiseAction)
also x none = none
also x (some xs) = some (x ∷ xs)

-- The actions of a request that the chain is asked for as they are; none if there is another one.
unfoldable pub asked : List MultiSigRequestAction → Option (List PromiseAction)
asked [] = some []
asked (MultiSigRequestAction.transfer n ∷ rest) = also (PromiseAction.transfer n) (asked rest)
asked (MultiSigRequestAction.create_account ∷ rest) = also PromiseAction.create_account (asked rest)
asked (MultiSigRequestAction.deploy_contract c ∷ rest) =
    also (PromiseAction.deploy_contract c) (asked rest)
asked (MultiSigRequestAction.function_call f a d g ∷ rest) =
    also (PromiseAction.function_call f a d g) (asked rest)
asked (MultiSigRequestAction.add_member m ∷ rest) = none
asked (MultiSigRequestAction.delete_member m ∷ rest) = none
asked (MultiSigRequestAction.add_key k p ∷ rest) = none
asked (MultiSigRequestAction.set_num_confirmations n ∷ rest) = none
asked (MultiSigRequestAction.set_active_requests_limit n ∷ rest) = none

-- The promises are those before with one more, if the actions are all asked for as they are.
abbrev pub AsksFor :
    AccountId → List (Promise ⊥) → List (Promise ⊥) → Option (List PromiseAction) → Type 0
AsksFor receiver_id before after none = Unit
AsksFor receiver_id before after (some actions) =
    after ≡ record { receiver_id = receiver_id; actions = actions; callback = none } ∷ before

snoc-++ : (x : PromiseAction) (xs ys : List PromiseAction) → (xs ++ x ∷ []) ++ ys ≡ xs ++ x ∷ ys
snoc-++ x [] ys = refl
snoc-++ x (z ∷ xs) ys = ap (λ zs. z ∷ zs) (snoc-++ x xs ys)

++_nil : (xs : List PromiseAction) → xs ++ [] ≡ xs
++_nil [] = refl
++_nil (z ∷ xs) = ap (λ zs. z ∷ zs) (++_nil xs)

ok_promises :
    {a : PromiseOrValue} {t : MultiSigContract} {r : PromiseOrValue × MultiSigContract}
    → ok (a, t) ≡ ok r
    → r.1.promises ≡ t.promises
ok_promises {t = t} h = Holds-ok (λ q. q.1.promises ≡ t.promises) h refl

module _ (to_string : MultisigMember → ℕ) (e : Env) (receiver : AccountId) (n : ℕ)
    (u : MultiSigContract) (r : PromiseOrValue × MultiSigContract) where
  -- The promise of the actions so far and those that are left.
  abbrev AsksAlso : List PromiseAction → Option (List PromiseAction) → Type 0
  AsksAlso acc none = Unit
  AsksAlso acc (some more) = AsksFor receiver u.promises r.1.promises (some (acc ++ more))

  AsksAlso-also :
      (x : PromiseAction) (acc : List PromiseAction) (more : Option (List PromiseAction))
      → AsksAlso (acc ++ x ∷ []) more
      → AsksAlso acc (also x more)
  AsksAlso-also x acc none h = tt
  AsksAlso-also x acc (some ys) h = rw⁻¹ (snoc-++ x acc ys) h

  execute_actions-asked :
      (actions : List MultiSigRequestAction) (acc : List PromiseAction)
      → execute_actions to_string e receiver n actions acc u ≡ ok r
      → AsksAlso acc (asked actions)
  unfolding execute_actions asked
  execute_actions-asked [] acc h = rw (++_nil acc) (ok_promises h)
  execute_actions-asked (MultiSigRequestAction.transfer k ∷ rest) acc h =
      AsksAlso-also (PromiseAction.transfer k) acc (asked rest) (execute_actions-asked rest _ h)
  execute_actions-asked (MultiSigRequestAction.create_account ∷ rest) acc h =
      AsksAlso-also PromiseAction.create_account acc (asked rest) (execute_actions-asked rest _ h)
  execute_actions-asked (MultiSigRequestAction.deploy_contract c ∷ rest) acc h =
      AsksAlso-also (PromiseAction.deploy_contract c) acc (asked rest)
        (execute_actions-asked rest _ h)
  execute_actions-asked (MultiSigRequestAction.function_call f a d g ∷ rest) acc h =
      AsksAlso-also (PromiseAction.function_call f a d g) acc (asked rest)
        (execute_actions-asked rest _ h)
  execute_actions-asked (MultiSigRequestAction.add_member m ∷ rest) acc h = tt
  execute_actions-asked (MultiSigRequestAction.delete_member m ∷ rest) acc h = tt
  execute_actions-asked (MultiSigRequestAction.add_key k p ∷ rest) acc h = tt
  execute_actions-asked (MultiSigRequestAction.set_num_confirmations k ∷ rest) acc h = tt
  execute_actions-asked (MultiSigRequestAction.set_active_requests_limit k ∷ rest) acc h = tt

-- A request whose actions are all asked for as they are makes one promise of them.
pub execute_request-AsksFor :
    (to_string : MultisigMember → ℕ) (e : Env) (request : MultiSigRequest) (u : MultiSigContract)
    (r : PromiseOrValue × MultiSigContract)
    → execute_request to_string e request u ≡ ok r
    → AsksFor request.receiver_id u.promises r.1.promises (asked request.actions)
unfolding execute_request
execute_request-AsksFor to_string e request u r h = from_nil (asked request.actions) (
    execute_actions-asked to_string e request.receiver_id (length request.actions) u r
      request.actions [] h)
  where
    from_nil :
        (more : Option (List PromiseAction))
        → AsksAlso to_string e request.receiver_id (length request.actions) u r [] more
        → AsksFor request.receiver_id u.promises r.1.promises more
    from_nil none h = tt
    from_nil (some xs) h = h
