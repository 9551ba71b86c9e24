-- ===== src/Prelude/Calls.antt =====
-- What a contract call computes: a value, or a panic, which rolls the whole call back.
-- `Outcome` is for code that only reads (`&self`), `Action` for code that writes (`&mut self`).
use Prim.Native.String.{String}
use mathlib.Core.Path.{◌≡◌, refl}
use mathlib.Core.Logic.{◌⊎◌, inl, inr}
use mathlib.Core.Bool.{Bool, true, false}
use mathlib.Core.Option.{Option, none, some}

-- `panic message` is a failed `assert!`, an overflow check, an `expect` or `env::panic_str`.
pub data Outcome (A : Type 0) : Type 0 where
  ok : A → Outcome A
  panic : String → Outcome A

abbrev pub Action : Type 0 → Type 0 → Type 0
Action S A = S → Outcome (A × S)

abbrev pub bind : {A B : Type 0} → Outcome A → (A → Outcome B) → Outcome B
bind (ok a) f = f a
bind (panic m) f = panic m

abbrev pub ensure : Bool → String → Outcome (Unit {0})
ensure true m = ok tt
ensure false m = panic m

abbrev pub expect : {A : Type 0} → Option A → String → Outcome A
expect (some a) m = ok a
expect none m = panic m

-- The call rolled back, or it left a state and a value with the property.
abbrev pub Holds : {A : Type 0} → (A → Type 0) → Outcome A → Type 0
Holds P (ok a) = P a
Holds P (panic _) = Unit

abbrev pub IsPanic : {A : Type 0} → Outcome A → Type 0
IsPanic (ok a) = ⊥
IsPanic (panic _) = Unit

abbrev pub Succeeds : {A : Type 0} → Outcome A → Type 0
Succeeds (ok a) = Unit
Succeeds (panic _) = ⊥

-- A transaction: what a panic began is rolled back.
abbrev pub settle : {S A : Type 0} → S → Outcome (A × S) → S
settle s (ok (a, t)) = t
settle s (panic _) = s

pub Outcome-cases :
    {A : Type 0} (m : Outcome A) → ((a : A) × (m ≡ ok a)) ⊎ ((e : String) × (m ≡ panic e))
Outcome-cases (ok a) = inl (a, refl)
Outcome-cases (panic e) = inr (e, refl)

pub Holds_of_ok :
    {A : Type 0} (P : A → Type 0) (m : Outcome A) → ((a : A) → m ≡ ok a → P a) → Holds P m
Holds_of_ok P (ok a) h = h a refl
Holds_of_ok P (panic _) h = tt

pub bind-Holds :
    {A B : Type 0} (P : B → Type 0) (m : Outcome A) (f : A → Outcome B)
    → ((a : A) → m ≡ ok a → Holds P (f a))
    → Holds P (bind m f)
bind-Holds P (ok a) f h = h a refl
bind-Holds P (panic m) f h = tt

pub Holds_mono :
    {A : Type 0} {P Q : A → Type 0} (m : Outcome A) → ((a : A) → P a → Q a) → Holds P m → Holds Q m
Holds_mono (ok a) f h = f a h
Holds_mono (panic _) f h = tt

pub Holds_both :
    {A : Type 0} (P Q : A → Type 0) (m : Outcome A)
    → Holds P m
    → Holds Q m
    → Holds (λ a. P a × Q a) m
Holds_both P Q (ok a) h k = (h, k)
Holds_both P Q (panic _) h k = tt

pub settle-Holds :
    {S A : Type 0} (P : S → Type 0) (s : S) (m : Outcome (A × S))
    → P s
    → Holds (λ r. P r.1) m
    → P (settle s m)
settle-Holds P s (ok (a, t)) old new = new
settle-Holds P s (panic _) old new = old

-- The rule for a sequence of actions.
pub seq-Holds :
    {S A B : Type 0} (P : A × S → Type 0) (Q : B × S → Type 0) (m : Action S A) (f : A → Action S B)
    (s : S)
    → Holds P (m s)
    → ((a : A) (t : S) → P (a, t) → Holds Q (f a t))
    → Holds Q (elim (m s) [ ok (a, t) ↦ f a t | panic e ↦ panic e ])
seq-Holds {S} {A} {B} P Q m f s h next = go (m s) h
  where
    go :
        (r : Outcome (A × S))
        → Holds P r
        → Holds Q (elim r [ ok (a, t) ↦ f a t | panic e ↦ panic e ])
    go (ok (a, t)) h = next a t h
    go (panic e) h = tt

pub Holds-ok : {A : Type 0} (P : A → Type 0) {m : Outcome A} {a : A} → m ≡ ok a → Holds P m → P a
Holds-ok P {m = ok b} e h = rw (ok-injective e) at h
  where
    ok-injective : {A : Type 0} {x y : A} → ok x ≡ ok y → x ≡ y
    ok-injective e = cc
Holds-ok P {m = panic _} e h = cc

module _ {S : Type 0} where
  abbrev pub pure : {A : Type 0} → A → Action S A
  pure a s = ok (a, s)

  abbrev pub gets : {A : Type 0} → (S → A) → Action S A
  gets f s = ok (f s, s)

  -- A method that only reads, called from one that writes.
  abbrev pub asks : {A : Type 0} → (S → Outcome A) → Action S A
  asks f s = elim (f s) [ ok a ↦ ok (a, s) | panic e ↦ panic e ]

  abbrev pub lift : {A : Type 0} → Outcome A → Action S A
  lift m s = elim m [ ok a ↦ ok (a, s) | panic e ↦ panic e ]

  abbrev pub modify : (S → S) → Action S (Unit {0})
  modify f s = ok (tt, f s)

  abbrev pub require : Bool → String → Action S (Unit {0})
  require true m s = ok (tt, s)
  require false m s = panic m

  abbrev pub fail : {A : Type 0} → String → Action S A
  fail m s = panic m

infixl 5 ◌>>=◌ ◌>>◌
abbrev pub ◌>>=◌ : {S A B : Type 0} → Action S A → (A → Action S B) → Action S B
◌>>=◌ m f s = elim (m s) [ ok (a, t) ↦ f a t | panic e ↦ panic e ]

abbrev pub ◌>>◌ : {S B : Type 0} → Action S (Unit {0}) → Action S B → Action S B
m >> k = m >>= λ _. k

-- The rule for a guard.
pub require-Holds :
    {S B : Type 0} (Q : B × S → Type 0) (c : Bool) (m : String) (f : Unit {0} → S → Outcome (B × S))
    (s : S)
    → (c ≡ true → Holds Q (f tt s))
    → Holds Q (elim (require c m s) [ ok (a, t) ↦ f a t | panic e ↦ panic e ])
require-Holds Q true m f s h = h refl
require-Holds Q false m f s h = tt

-- The rules for an action that only reads.
pub lift-Holds :
    {S A B : Type 0} (P : A → Type 0) (Q : B × S → Type 0) (m : Outcome A) (f : A → Action S B)
    (s : S)
    → Holds P m
    → ((a : A) → P a → Holds Q (f a s))
    → Holds Q (elim (lift m s) [ ok (a, t) ↦ f a t | panic e ↦ panic e ])
lift-Holds P Q (ok a) f s h next = next a h
lift-Holds P Q (panic e) f s h next = tt

pub asks-Holds :
    {S A B : Type 0} (P : A → Type 0) (Q : B × S → Type 0) (m : S → Outcome A) (f : A → Action S B)
    (s : S)
    → Holds P (m s)
    → ((a : A) → P a → Holds Q (f a s))
    → Holds Q (elim (asks m s) [ ok (a, t) ↦ f a t | panic e ↦ panic e ])
asks-Holds P Q m f s h next = lift-Holds P Q (m s) f s h next

pub lift-Holds_last :
    {S A : Type 0} (P : A → Type 0) (Q : A × S → Type 0) (m : Outcome A) (s : S)
    → Holds P m
    → ((a : A) → P a → Q (a, s))
    → Holds Q (lift m s)
lift-Holds_last P Q (ok a) s h next = next a h
lift-Holds_last P Q (panic e) s h next = tt

-- What holds of nothing in particular.
pub any_Holds : {A : Type 0} (m : Outcome A) → Holds (λ _. Unit) m
any_Holds (ok a) = tt
any_Holds (panic e) = tt

pub require-Holds_last :
    {S : Type 0} (Q : Unit {0} × S → Type 0) (c : Bool) (m : String) (s : S)
    → Q (tt, s)
    → Holds Q (require c m s)
require-Holds_last Q true m s h = h
require-Holds_last Q false m s h = tt
