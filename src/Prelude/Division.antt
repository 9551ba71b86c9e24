-- ===== src/Prelude/Division.antt =====
-- Quotients, by multiplication.
use Prim.Native.Nat.{ℕ, ◌+◌, ◌-◌, ◌*◌, ◌/◌, ◌<◌, ◌≤◌}
use native.Mathlib.Omega.{arith}

-- Floor and ceiling of a quotient, by multiplication.
pub floor_bounds : (a b : ℕ) → 0 < b → (a / b * b ≤ a) × (a < (a / b + 1) * b)
floor_bounds a b h = grind arith

pub ceil_bounds : (a b : ℕ) → 0 < b → (a ≤ (a + (b - 1)) / b * b) × ((a + (b - 1)) / b * b < a + b)
ceil_bounds a b h = grind arith

pub le_of_mul_le : (a b c : ℕ) → 0 < c → a * c ≤ b * c → a ≤ b
le_of_mul_le a b c pos h = grind arith

pub lt_of_mul_lt : (a b c : ℕ) → a * c < b * c → a < b
lt_of_mul_lt a b c h = grind arith

-- The ceiling is at most one above the floor.
pub ceil_floor : (a b : ℕ) → 0 < b → (a / b ≤ (a + (b - 1)) / b) × ((a + (b - 1)) / b ≤ a / b + 1)
ceil_floor a b h =
    let f = floor_bounds a b h in
    let c = ceil_bounds a b h in
    (
      le_of_mul_le (a / b) ((a + (b - 1)) / b) b h (omega arith),
      omega (arith, lt_of_mul_lt ((a + (b - 1)) / b) (a / b + 2) b (omega arith)),
    )

pub mul_le_left : (a b c : ℕ) → b ≤ c → a * b ≤ a * c
mul_le_left a b c h = grind arith

-- A part of an amount, and a smaller part of it.
pub part_le : (a part whole : ℕ) → 0 < whole → part ≤ whole → a * part / whole ≤ a
part_le a part whole pos h =
    let f = floor_bounds (a * part) whole pos in
    le_of_mul_le (a * part / whole) a whole pos (omega (arith, mul_le_left a part whole h))

pub part_mono :
    (a part more whole : ℕ) → 0 < whole → part ≤ more → a * part / whole ≤ a * more / whole
part_mono a part more whole pos h =
    let f = floor_bounds (a * part) whole pos in
    let g = floor_bounds (a * more) whole pos in
    omega (
      arith,
      lt_of_mul_lt (a * part / whole) (a * more / whole + 1) whole
          (omega (arith, mul_le_left a part more h)),
    )
