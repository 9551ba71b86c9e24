-- ===== src/StakingPool/Rounds.antt =====
-- The parts of the methods of staking-pool/src/lib.rs keep the books and the shares.
use contract_new_project_tem.Prelude.{
  ℕ, ◌+◌, ◌-◌, ◌<◌, ◌≤◌, ◌≡◌, refl, inl, inr, Bool, true, false, Holds, Holds_of_ok, Bool-cases,
  ltb→lt, ap, List, arith, ltb, u128_mod,
}
use contract_new_project_tem.Host.{Env, PublicKey, Promise}
use contract_new_project_tem.StakingPool.State.{
  StakingContract, Callback, stake_share_price_guarantee_fund,
}
use contract_new_project_tem.StakingPool.Internal.{
  internal_restake, internal_deposit, internal_withdraw, internal_stake, inner_unstake,
  internal_ping,
}
use contract_new_project_tem.StakingPool.Methods.{restake_if}
use contract_new_project_tem.StakingPool.Balance.{shares_of-le}
use contract_new_project_tem.StakingPool.Effects.{
  internal_stake_effect, inner_unstake_effect, internal_withdraw_effect, internal_deposit_effect,
  internal_ping_effect, after_epoch, after_reward, total_balance, PingEffect, IsNewEpoch,
}
use contract_new_project_tem.StakingPool.Solvency.{
  IsSolvent, add128-exact, after_stake-IsSolvent, after_unstake-IsSolvent, after_withdraw-IsSolvent,
  after_deposit-IsSolvent, after_reward-IsSolvent,
}
use contract_new_project_tem.StakingPool.Shares.{
  IsConserved, after_stake-IsConserved, after_withdraw-IsConserved, after_deposit-IsConserved,
  after_reward-IsConserved,
}

-- The books after `k` roundings, with `c` shares of the pool itself.
pub record IsSound (k c : ℕ) (s : StakingContract) : Type 0 where
  pub solvent : IsSolvent k s
  pub conserved : IsConserved c s

-- What the host keeps to: the balance of an account includes the deposit that a call brings, and no
-- balance exceeds 128 bits.
pub record Fits (e : Env) (s : StakingContract) : Type 0 where
  pub included : e.attached_deposit ≤ e.account_balance
  pub supply : e.account_locked_balance + e.account_balance < u128_mod
  pub room : s.last_total_balance + e.attached_deposit < u128_mod

pub IsSolvent-suc : (k : ℕ) (s : StakingContract) → IsSolvent k s → IsSolvent (k + 1) s
IsSolvent-suc k s v = record {
  unique = v.unique;
  backed = omega (arith, v.backed);
  bounded = v.bounded;
  fee = v.fee;
  priced = v.priced;
}

pub IsSound-suc : (k c : ℕ) (s : StakingContract) → IsSound k c s → IsSound (k + 1) c s
IsSound-suc k c s v = record { solvent = IsSolvent-suc k s v.solvent; conserved = v.conserved }

-- The books do not read the key, the pause or the promises.
pub unrelated-IsSound :
    (k c : ℕ) (s : StakingContract)
    → IsSound k c s
    → (key : PublicKey) (paused : Bool) (promises : List (Promise Callback))
    → IsSound k c (record s { stake_public_key = key; paused = paused; promises = promises })
unrelated-IsSound k c s v key paused promises = record {
  solvent = record {
    unique = v.solvent.unique;
    backed = v.solvent.backed;
    bounded = v.solvent.bounded;
    fee = v.solvent.fee;
    priced = v.solvent.priced;
  };
  conserved = v.conserved;
}

pub internal_restake-IsSound :
    (k c : ℕ) (e : Env) (s : StakingContract)
    → IsSound k c s
    → Holds (λ r. IsSound k c r.1) (internal_restake e s)
unfolding internal_restake
internal_restake-IsSound k c e s v = elim (Bool-cases s.paused) [
  | inl p ↦ rw (p, Holds) (unrelated-IsSound k c s v s.stake_public_key true s.promises)
  | inr p ↦ rw (p, Holds) (unrelated-IsSound k c s v s.stake_public_key false _)
]

pub restake_if-IsSound :
    (k c : ℕ) (e : Env) (b : Bool) (s : StakingContract)
    → IsSound k c s
    → Holds (λ r. IsSound k c r.1) (restake_if e b s)
restake_if-IsSound k c e true s v = internal_restake-IsSound k c e s v
restake_if-IsSound k c e false s v = v

module _ (k c : ℕ) (few : k < stake_share_price_guarantee_fund) where
  -- Only the epoch and the balance differ.
  begun-IsSound :
      (height balance : ℕ) (s : StakingContract)
      → IsSound k c s
      → s.last_total_balance ≤ balance
      → balance < u128_mod
      → IsSound k c (record s { last_epoch_height = height; last_total_balance = balance })
  begun-IsSound height balance s v le fits = record {
    solvent = record {
      unique = v.solvent.unique;
      backed = omega arith;
      bounded = fits;
      fee = v.solvent.fee;
      priced = v.solvent.priced;
    };
    conserved = v.conserved;
  }

  rewarded-IsSound :
      (e : Env) (s : StakingContract)
      → IsSound k c s
      → total_balance e < u128_mod
      → IsNewEpoch e s
      → 0 < total_balance e - s.last_total_balance
      → IsSound k c
          (record (after_reward
            (total_balance e - s.last_total_balance)
            (record s { last_epoch_height = e.epoch_height })) {
              last_total_balance = total_balance e;
            })
  rewarded-IsSound e s v fits (le, inl none_left) more = absurd (omega arith)
  rewarded-IsSound e s v fits (le, inr (den, staked)) more =
      let begun =
        begun-IsSound e.epoch_height s.last_total_balance s v (omega arith) v.solvent.bounded in
      let reward = total_balance e - s.last_total_balance in
      record {
        solvent =
            after_reward-IsSolvent k _ begun.solvent reward (total_balance e) few refl le fits den
              staked;
        conserved =
            after_reward-IsConserved k c _ begun.solvent begun.conserved reward (total_balance e)
              few refl le fits den staked;
      }

  after_epoch-IsSound :
      (e : Env) (s : StakingContract)
      → IsSound k c s
      → total_balance e < u128_mod
      → IsNewEpoch e s
      → IsSound k c (after_epoch e s)
  unfolding after_epoch
  after_epoch-IsSound e s v fits new =
      elim (Bool-cases (ltb 0 (total_balance e - s.last_total_balance))) [
        | inl some_left ↦ rw some_left (rewarded-IsSound e s v fits new (ltb→lt _ _ some_left))
        | inr none_left ↦
            rw none_left (begun-IsSound e.epoch_height (total_balance e) s v new.0 fits)
      ]

  balance_after_epoch :
      (e : Env) (s : StakingContract) → (after_epoch e s).last_total_balance ≡ total_balance e
  unfolding after_epoch
  balance_after_epoch e s = ground arith

  -- After the ping there is room for the deposit.
  pub internal_ping-IsSound :
      (e : Env) (s : StakingContract)
      → IsSound k c s
      → Fits e s
      → Holds
          (λ r. IsSound k c r.1 × (r.1.last_total_balance + e.attached_deposit < u128_mod))
          (internal_ping e s)
  internal_ping-IsSound e s v f =
      Holds_of_ok _ _ λ r h. after (r.0) (r.1) (internal_ping_effect e s h)
    where
      after :
          (b : Bool) (t : StakingContract)
          → PingEffect e s b t
          → IsSound k c t × (t.last_total_balance + e.attached_deposit < u128_mod)
      after b t (inl (_, _, same)) = rw same (v, f.room)
      after b t (inr (_, _, new, same)) =
          let exact : total_balance e
              ≡ e.account_locked_balance + e.account_balance - e.attached_deposit =
            ap (λ x. x - e.attached_deposit) (add128-exact _ _ f.supply) in
          rw same (
            after_epoch-IsSound e s v (omega arith) new,
            rw balance_after_epoch (omega (arith, f.supply, f.included)),
          )

  pub internal_deposit-IsSound :
      (e : Env) (s : StakingContract)
      → IsSound k c s
      → s.last_total_balance + e.attached_deposit < u128_mod
      → Holds (λ r. IsSound k c r.1) (internal_deposit e s)
  internal_deposit-IsSound e s v room =
      rw (internal_deposit_effect e s, Holds)
        (record {
          solvent = after_deposit-IsSolvent k s v.solvent e room;
          conserved = after_deposit-IsConserved k c s v.solvent v.conserved e;
        })

  pub internal_withdraw-IsSound :
      (e : Env) (amount : ℕ) (s : StakingContract)
      → IsSound k c s
      → Holds (λ r. IsSound k c r.1) (internal_withdraw e amount s)
  internal_withdraw-IsSound e amount s v = Holds_of_ok _ _ λ r h.
      let (_, covered, _, same) = internal_withdraw_effect e amount s h in
      rw same (record {
        solvent =
            after_withdraw-IsSolvent k s v.solvent e.predecessor_account_id amount few covered;
        conserved =
            after_withdraw-IsConserved k c s v.solvent v.conserved e.predecessor_account_id amount;
      })

  pub internal_stake-IsSound :
      (e : Env) (amount : ℕ) (s : StakingContract)
      → IsSound k c s
      → Holds (λ r. IsSound (k + 1) c r.1) (internal_stake e amount s)
  internal_stake-IsSound e amount s v = Holds_of_ok _ _ λ r h.
      let (_, _, pos, covered, same) = internal_stake_effect e amount s h in
      rw same (record {
        solvent = after_stake-IsSolvent k s v.solvent e.predecessor_account_id _ few pos covered;
        conserved =
            after_stake-IsConserved k c s v.solvent v.conserved e.predecessor_account_id _ few pos
              covered;
      })

  pub inner_unstake-IsSolvent :
      (e : Env) (amount : ℕ) (s : StakingContract)
      → IsSound k c s
      → Holds (λ r. IsSolvent (k + 1) r.1) (inner_unstake e amount s)
  inner_unstake-IsSolvent e amount s v = Holds_of_ok _ _ λ r h.
      let (_, _, pos, owned, same) = inner_unstake_effect e amount s h in
      let held = shares_of-le e.predecessor_account_id s.accounts in
      rw same (after_unstake-IsSolvent k s v.solvent e _ few pos (omega arith))
