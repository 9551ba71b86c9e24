-- ===== src/Airdrop/Transfers.antt =====
-- What the promises of airdrop/src/lib.rs transfer.
use contract_new_project_tem.Prelude.{
  ℕ, ◌+◌, ◌≡◌, refl, Option, none, some, List, [], ◌∷◌, ◌++◌, arith,
}
use contract_new_project_tem.Host.{PublicKey, Promise, PromiseAction}
use contract_new_project_tem.Airdrop.{
  Callback, option_actions, add_full_keys, add_limited_keys, LimitedAccessKey, CreateAccountOptions,
}

-- The tokens that a promise's actions transfer.
unfoldable pub transfers : List PromiseAction → ℕ
transfers [] = 0
transfers (PromiseAction.create_account ∷ xs) = transfers xs
transfers (PromiseAction.transfer n ∷ xs) = n + transfers xs
transfers (PromiseAction.stake n k ∷ xs) = transfers xs
transfers (PromiseAction.add_full_access_key k ∷ xs) = transfers xs
transfers (PromiseAction.add_access_key_allowance k n a ms ∷ xs) = transfers xs
transfers (PromiseAction.delete_key k ∷ xs) = transfers xs
transfers (PromiseAction.deploy_contract c ∷ xs) = transfers xs
transfers (PromiseAction.function_call f a d g ∷ xs) = d + transfers xs

unfoldable pub paid : List (Promise Callback) → ℕ
paid [] = 0
paid (p ∷ ps) = transfers p.actions + paid ps

transfers-++ : (xs bs : List PromiseAction) → transfers (xs ++ bs) ≡ transfers xs + transfers bs
unfolding transfers
transfers-++ [] bs = omega arith
transfers-++ (PromiseAction.create_account ∷ xs) bs = transfers-++ xs bs
transfers-++ (PromiseAction.transfer n ∷ xs) bs = ground (arith, transfers-++ xs bs)
transfers-++ (PromiseAction.stake n k ∷ xs) bs = transfers-++ xs bs
transfers-++ (PromiseAction.add_full_access_key k ∷ xs) bs = transfers-++ xs bs
transfers-++ (PromiseAction.add_access_key_allowance k n a ms ∷ xs) bs = transfers-++ xs bs
transfers-++ (PromiseAction.delete_key k ∷ xs) bs = transfers-++ xs bs
transfers-++ (PromiseAction.deploy_contract c ∷ xs) bs = transfers-++ xs bs
transfers-++ (PromiseAction.function_call f a d g ∷ xs) bs = ground (arith, transfers-++ xs bs)

full_keys_free : (keys : List PublicKey) → transfers (add_full_keys keys) ≡ 0
unfolding transfers add_full_keys
full_keys_free [] = refl
full_keys_free (k ∷ ks) = full_keys_free ks

limited_keys_free : (keys : List LimitedAccessKey) → transfers (add_limited_keys keys) ≡ 0
unfolding transfers add_limited_keys
limited_keys_free [] = refl
limited_keys_free (k ∷ ks) = limited_keys_free ks

pub options_free : (options : CreateAccountOptions) → transfers (option_actions options) ≡ 0
unfolding transfers option_actions
options_free options =
    go options.full_access_keys options.limited_access_keys options.contract_bytes
  where
    full :
        (o : Option (List PublicKey))
        → transfers (elim o [ none ↦ [] | some ks ↦ add_full_keys ks ]) ≡ 0
    full none = refl
    full (some ks) = full_keys_free ks

    limited :
        (o : Option (List LimitedAccessKey))
        → transfers (elim o [ none ↦ [] | some ks ↦ add_limited_keys ks ]) ≡ 0
    limited none = refl
    limited (some ks) = limited_keys_free ks

    code :
        (o : Option ℕ)
        → transfers (elim o [ none ↦ [] | some b ↦ PromiseAction.deploy_contract b ∷ [] ]) ≡ 0
    code none = refl
    code (some b) = refl

    go :
        (f : Option (List PublicKey)) (l : Option (List LimitedAccessKey)) (b : Option ℕ)
        → transfers (
            option_actions
              (record { full_access_keys = f; limited_access_keys = l; contract_bytes = b }))
          ≡ 0
    go f l b = rw (
      transfers-++ (elim f [ none ↦ [] | some ks ↦ add_full_keys ks ]) _,
      transfers-++ (elim l [ none ↦ [] | some ks ↦ add_limited_keys ks ]) _,
      full f,
      limited l,
      code b,
    )
