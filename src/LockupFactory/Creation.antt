-- ===== src/LockupFactory/Creation.antt =====
-- What becomes of a lockup that lockup-factory/src/lib.rs asks for, with `new` of lockup/src/lib.rs.
use contract_new_project_tem.Prelude.{
  ℕ, ◌≤◌, ◌≡◌, refl, true, false, Option, none, some, [], ◌∷◌, Outcome, ok, panic, Holds,
  require-Holds, leb→le, arith, leb,
}
use contract_new_project_tem.Host.{Env, AccountId, failed}
use contract_new_project_tem.Lockup.State
use contract_new_project_tem.Lockup.State.{
  LockupContract, transfers_enabled, VestingScheduleOrHash, hashed, explicit, initial_vesting,
}
use contract_new_project_tem.LockupFactory.{
  LockupArgs, LockupFactory, create_lockup, transfer, lockup_create, min_attached_balance,
  transfers_started, foundation_for, or_default, create, is_promise_success, on_lockup_create,
}

-- The call of `new` on the new account, with the arguments in their JSON's place.
unfoldable pub install : Env → LockupArgs → Outcome LockupContract
install d a =
    State.new d a.owner_account_id a.lockup_duration a.lockup_timestamp a.transfers_information
      a.vesting_schedule a.release_duration a.staking_pool_whitelist_account_id
      a.foundation_account_id

-- The lockup that starts with these arguments.
abbrev pub Starts :
    Env
    → AccountId
    → ℕ
    → Option ℕ
    → Option VestingScheduleOrHash
    → Option ℕ
    → AccountId
    → Outcome LockupContract
    → Type 0
Starts d owner duration timestamp vesting release foundation (panic _) = ⊥
Starts d owner duration timestamp vesting release foundation (ok l) =
    (l.owner_account_id ≡ owner)
    × (l.lockup_information ≡ record {
      lockup_amount = d.account_balance;
      termination_withdrawn_tokens = 0;
      lockup_duration = duration;
      release_duration = release;
      lockup_timestamp = timestamp;
      transfers_information = transfers_enabled transfers_started;
    })
    × (l.staking_information ≡ none)
    × (l.foundation_account_id ≡ foundation_for vesting foundation)

install-Starts :
    (d : Env) (owner : AccountId) (duration : ℕ) (timestamp : Option ℕ)
    (vesting : Option VestingScheduleOrHash) (release : Option ℕ) (whitelist foundation : AccountId)
    → d.is_valid_account_id owner ≡ true
    → d.is_valid_account_id whitelist ≡ true
    → d.is_valid_account_id foundation ≡ true
    → Starts d owner duration timestamp vesting release foundation (
        install d (record {
          owner_account_id = owner;
          lockup_duration = duration;
          lockup_timestamp = timestamp;
          transfers_information = transfers_enabled transfers_started;
          vesting_schedule = vesting;
          release_duration = release;
          staking_pool_whitelist_account_id = whitelist;
          foundation_account_id = foundation_for vesting foundation;
        }))
unfolding install State.new initial_vesting
install-Starts d owner duration timestamp none release whitelist foundation vo vw vf = ground arith
install-Starts d owner duration timestamp (some (hashed h)) release whitelist foundation vo vw vf =
    ground arith
install-Starts d owner duration timestamp (some (explicit v)) release whitelist foundation vo vw
      vf =
    ground arith

-- A creation that goes through has paid for the storage and asks for one new account, with all of the
-- deposit. The lockup contract accepts the arguments that it is sent, if its host takes the three ids
-- for valid: it starts as the owner's, with its whole balance locked, transfers enabled since the fixed
-- date, the durations that were asked for, no pool, and with a foundation exactly where there is a
-- vesting. If the creation fails instead, the callback, and nothing else, sends the deposit back.
pub create-Starts :
    (lockup_account : AccountId → AccountId → AccountId) (e d g : Env) (owner : AccountId)
    (duration : ℕ) (timestamp : Option ℕ) (vesting : Option VestingScheduleOrHash)
    (release : Option ℕ) (whitelist : Option AccountId) (s : LockupFactory)
    → d.is_valid_account_id owner ≡ true
    → d.is_valid_account_id (or_default s.whitelist_account_id whitelist) ≡ true
    → d.is_valid_account_id s.foundation_account_id ≡ true
    → g.predecessor_account_id ≡ g.current_account_id
    → g.promise_results ≡ failed ∷ []
    → Holds
        (λ r.
          (min_attached_balance ≤ e.attached_deposit)
          × (args : LockupArgs) × (r.1.promises
              ≡ record {
                receiver_id = lockup_account owner e.current_account_id;
                request = create_lockup e.attached_deposit args;
                callback = some (
                    lockup_create
                      (lockup_account owner e.current_account_id)
                      e.attached_deposit
                      e.predecessor_account_id);
              }
                ∷ s.promises)
          × Starts d owner duration timestamp vesting release s.foundation_account_id
              (install d args)
          × (elim (on_lockup_create g
                (lockup_account owner e.current_account_id)
                e.attached_deposit
                e.predecessor_account_id
                r.1)
              as (λ _. Type 0) [
                | panic _ ↦ ⊥
                | ok u ↦
                    (u.0 ≡ false)
                    × (u.1.promises
                        ≡ record {
                          receiver_id = e.predecessor_account_id;
                          request = transfer e.attached_deposit;
                          callback = none;
                        }
                          ∷ r.1.promises)
              ]))
        (create lockup_account e owner duration timestamp vesting release whitelist s)
unfolding create on_lockup_create is_promise_success
create-Starts lockup_account e d g owner duration timestamp vesting release whitelist s vo vw vf
      self result =
    require-Holds _ (leb min_attached_balance e.attached_deposit) "Not enough attached deposit" _ s
      λ paid.
        require-Holds _ (e.is_valid_account_id (lockup_account owner e.current_account_id))
          "called `Result::unwrap()` on an `Err` value" _ s
          λ valid. (
            leb→le min_attached_balance e.attached_deposit paid,
            record {
              owner_account_id = owner;
              lockup_duration = duration;
              lockup_timestamp = timestamp;
              transfers_information = transfers_enabled transfers_started;
              vesting_schedule = vesting;
              release_duration = release;
              staking_pool_whitelist_account_id = or_default s.whitelist_account_id whitelist;
              foundation_account_id = foundation_for vesting s.foundation_account_id;
            },
            refl,
            install-Starts d owner duration timestamp vesting release
                (or_default s.whitelist_account_id whitelist) s.foundation_account_id vo vw vf,
            ground arith,
          )
