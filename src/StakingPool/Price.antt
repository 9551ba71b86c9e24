-- ===== src/StakingPool/Price.antt =====
-- The share conversions of staking-pool/src/internal.rs: rounding, and the price of a share.
use native.Mathlib.Nat.{mul-sub, mul_comm, le_trans}
use contract_new_project_tem.Prelude.{
  floor_bounds, ceil_bounds, le_of_mul_le, lt_of_mul_lt, mul_le_left, ℕ, ◌+◌, ◌-◌, ◌*◌, ◌/◌, ◌<◌,
  ◌≤◌, arith,
}

-- What `n` shares cost at a price of `t` for `s` shares: the two roundings around it.
module _ (t s n : ℕ) (pos : 0 < s) where
  -- Adding the amount rounded up, with its shares, lowers no price.
  pub price_up : t * (s + n) ≤ (t + (t * n + (s - 1)) / s) * s
  price_up = let c = ceil_bounds (t * n) s pos in omega arith

  -- Nor does taking out the amount rounded down.
  pub price_down : t * (s - n) ≤ (t - t * n / s) * s
  price_down =
      let f = floor_bounds (t * n) s pos in
      let left = mul-sub t s n in
      let right = mul-sub s t (t * n / s) in omega (arith, mul_comm (t - t * n / s) s)

-- Nor a reward of which the part `f` buys shares, behind the part `r` that does not.
pub price_reward : (t s r f : ℕ) → 0 < t + r → t * (s + s * f / (t + r)) ≤ (t + r + f) * s
price_reward t s r f pos = let b = floor_bounds (s * f) (t + r) pos in grind arith

-- Shares bought for an amount are worth no more than it, and those that an amount takes no less.
pub bought_worth : (t s a : ℕ) → 0 < t → 0 < s → t * (s * a / t) / s ≤ a
bought_worth t s a pt ps =
    let n = floor_bounds (s * a) t pt in
    let c = floor_bounds (t * (s * a / t)) s ps in le_of_mul_le _ a s ps (omega arith)

pub sold_worth : (t s a : ℕ) → 0 < t → 0 < s → a ≤ (t * ((s * a + (t - 1)) / t) + (s - 1)) / s
sold_worth t s a pt ps =
    let n = ceil_bounds (s * a) t pt in
    let c = ceil_bounds (t * ((s * a + (t - 1)) / t)) s ps in le_of_mul_le a _ s ps (omega arith)

-- A share is worth at least one token: so it stays under each of the three changes.
module _ (t s n : ℕ) (pos : 0 < s) (priced : s ≤ t) where
  pub priced_up : s + n ≤ t + (t * n + (s - 1)) / s
  priced_up = let p = price_up t s n pos in le_of_mul_le _ _ s pos (grind arith)

  pub priced_down : s - n ≤ t - t * n / s
  priced_down = let p = price_down t s n pos in le_of_mul_le _ _ s pos (grind arith)

pub priced_reward : (t s r f : ℕ) → s ≤ t → 0 < t + r → s + s * f / (t + r) ≤ t + r + f
priced_reward t s r f priced pos =
    let b = floor_bounds (s * f) (t + r) pos in
    let n = le_of_mul_le (s * f / (t + r)) f (t + r) pos (grind arith) in omega arith

-- At a price that is no lower, shares are worth no less.
pub worth_mono : (t s u m n : ℕ) → 0 < s → 0 < m → t * m ≤ u * s → t * n / s ≤ u * n / m
worth_mono t s u m n ps pm price =
    let c = floor_bounds (t * n) s ps in
    let d = floor_bounds (u * n) m pm in
    let worth = t * n / s in
    let scaled : worth * m * s ≤ u * n * s =
      le_trans (scale worth m s t n c.0) (grow t m u s n price) in
    let below = le_of_mul_le (worth * m) (u * n) s ps scaled in
    omega (arith, lt_of_mul_lt worth (u * n / m + 1) m (omega arith))
  where
    scale : (w m s t n : ℕ) → w * s ≤ t * n → w * m * s ≤ t * m * n
    scale w m s t n h = omega (arith, mul_le_left m (w * s) (t * n) h)

    grow : (t m u s n : ℕ) → t * m ≤ u * s → t * m * n ≤ u * n * s
    grow t m u s n h = omega (arith, mul_le_left n (t * m) (u * s) h)
