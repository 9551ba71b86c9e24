-- ===== src/Prelude/Words.antt =====
-- Unsigned machine integers: a value is a native number, and each operation says what it does at
-- the end of the range. Every crate is built with `overflow-checks = true`, so `+` and `-` panic.
use Prim.Native.Nat.{ℕ, ◌+◌, ◌-◌, ◌*◌, ◌^◌}
use contract_new_project_tem.Prelude.Tests.{ltb, leb, if◌then◌else◌}
use contract_new_project_tem.Prelude.Calls.{Outcome, ok, panic}

abbrev pub u32_mod : ℕ
u32_mod = 2 ^ 32

abbrev pub u64_mod : ℕ
u64_mod = 2 ^ 64

abbrev pub u128_mod : ℕ
u128_mod = 2 ^ 128

-- `a + b` and `a - b` under the overflow checks.
abbrev pub checked_add : ℕ → ℕ → ℕ → Outcome ℕ
checked_add bound a b =
    if ltb (a + b) bound then ok (a + b) else panic "attempt to add with overflow"

abbrev pub checked_sub : ℕ → ℕ → Outcome ℕ
checked_sub a b = if leb b a then ok (a - b) else panic "attempt to subtract with overflow"

abbrev pub checked_mul : ℕ → ℕ → ℕ → Outcome ℕ
checked_mul bound a b =
    if ltb (a * b) bound then ok (a * b) else panic "attempt to multiply with overflow"

-- `saturating_add`; `saturating_sub` is the truncated subtraction of the native numbers.
abbrev pub saturating_add : ℕ → ℕ → ℕ → ℕ
saturating_add bound a b = if ltb (a + b) bound then a + b else bound - 1

abbrev pub saturating_sub : ℕ → ℕ → ℕ
saturating_sub a b = a - b

-- `U256::as_u128`.
abbrev pub as_u128 : ℕ → Outcome ℕ
as_u128 n = if ltb n u128_mod then ok n else panic "Integer overflow when casting to u128"
