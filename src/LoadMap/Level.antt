-- ===== src/LoadMap/Level.antt =====
-- Percents and levels of internal/loadmap/loadmap.go.
use native.Mathlib.Nat.{
  lt-mul-div-succ, mul-div-le, le-div_iff_mul-le, div-lt_iff_lt-mul, div-mul-le_self,
}
use rapido_go.Prelude.{
  ℕ, ◌+◌, ◌*◌, ◌/◌, ◌≤◌, ◌<◌, ℤ, pos, pos_part, ltb_ℤ, String, ltb, if◌then◌else◌, ◌≡◌, refl, arith,
  eq_false,
}

pub data Level : Type 0 where
  unknown : Level
  free : Level
  normal : Level
  busy : Level
  full : Level

-- `LevelFor`
unfoldable pub level_for : ℕ → Level
level_for percent =
    if ltb percent 40
    then free
    else if ltb percent 70
    then normal
    else if ltb percent 90
    then busy
    else full

-- `Level.Emoji`
pub emoji : Level → String
emoji unknown = ""
emoji free = "🟢"
emoji normal = "🟡"
emoji busy = "🟠"
emoji full = "🔴"

abbrev pub default_capacity : ℕ
default_capacity = 10000

-- A capacity below 1 falls back.
abbrev pub capacity_or : ℤ → ℕ
capacity_or capacity = if ltb_ℤ capacity (pos 1) then default_capacity else pos_part capacity

-- math.Round of a quotient, halves up. The quotient of the floats rounds like the exact one while
-- the counts stay below 2^40.
abbrev pub round_div : ℕ → ℕ → ℕ
round_div a b = (2 * a + b) / (2 * b)

-- `Percent`
unfoldable pub percent : ℕ → ℤ → ℕ
percent conns capacity =
    let p = round_div (100 * conns) (capacity_or capacity) in if ltb 100 p then 100 else p

capacity_or_pos : (capacity : ℤ) → 0 < capacity_or capacity
capacity_or_pos capacity = ground arith

round_div_nearest :
    (a c : ℕ)
    → 0 < c
    → (2 * c * round_div a c ≤ 2 * a + c) × (2 * a + c < 2 * c * (round_div a c + 1))
round_div_nearest a c h =
    (mul-div-le (2 * a + c) (2 * c), lt-mul-div-succ (2 * a + c) (omega arith))

round_div_mono : (a b c : ℕ) → 0 < c → a ≤ b → round_div a c ≤ round_div b c
round_div_mono a b c h k =
    (le-div_iff_mul-le {k = 2 * c} {x = round_div a c} {y = 2 * b + c} (omega arith)).1
      (omega (arith, div-mul-le_self (2 * a + c) (2 * c)))

round_div_small : (n c : ℕ) → 0 < c → n ≤ c → round_div (100 * n) c < 101
round_div_small n c h k =
    (div-lt_iff_lt-mul {k = 2 * c} {x = 2 * (100 * n) + c} {y = 101} (omega arith)).1 (omega arith)

pub percent-le : (conns : ℕ) (capacity : ℤ) → percent conns capacity ≤ 100
unfolding percent
percent-le conns capacity = ground arith

percent_small :
    (conns : ℕ) (capacity : ℤ)
    → conns ≤ capacity_or capacity
    → percent conns capacity ≡ round_div (100 * conns) (capacity_or capacity)
unfolding percent
percent_small conns capacity h =
    let small = round_div_small conns (capacity_or capacity) (capacity_or_pos capacity) h in
    rw
      (eq_false (ltb 100 (round_div (100 * conns) (capacity_or capacity)))
        (λ e. ground (arith, small)))
      refl

-- Up to the capacity the percent is the nearest whole number, halves rounded up; a capacity below
-- 1 counts as the default.
pub percent_nearest :
    (conns : ℕ) (capacity : ℤ)
    → conns ≤ capacity_or capacity
    → (2 * capacity_or capacity * percent conns capacity ≤ 200 * conns + capacity_or capacity)
      × (200 * conns + capacity_or capacity
          < 2 * capacity_or capacity * (percent conns capacity + 1))
percent_nearest conns capacity h =
    let c : ℕ = capacity_or capacity in
    let near = round_div_nearest (100 * conns) c (capacity_or_pos capacity) in
    rw (percent_small conns capacity h) (omega (arith, near.0), omega (arith, near.1))

-- More connections never make a lower percent.
pub percent_mono : (a b : ℕ) (capacity : ℤ) → a ≤ b → percent a capacity ≤ percent b capacity
unfolding percent
percent_mono a b capacity h =
    let mono =
      round_div_mono (100 * a) (100 * b) (capacity_or capacity) (capacity_or_pos capacity)
        (omega arith) in
    grind (arith, mono)
