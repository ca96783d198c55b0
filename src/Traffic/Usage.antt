-- ===== src/Traffic/Usage.antt =====
-- internal/nodecore/traffic/traffic.go: the bytes that each user has moved since the last drain,
-- as int64 counters that wrap. Each method is one step.
pub mod Drain
pub mod Conserve
mod Tests
use rapido_go.Prelude.{
  ℤ, pos, ◌+ℤ◌, int64, beq_ℤ, String, string_eq, Bool, not, ◌&&◌, ◌||◌, Option, none, some, List,
  [], ◌∷◌, Assoc, lookup, insert, if◌then◌else◌,
}

-- `Usage`, and `userCounter` behind its atomics.
pub record Usage : Type 0 where
  pub up : ℤ
  pub down : ℤ

abbrev pub no_usage : Usage
no_usage = record { up = pos 0; down = pos 0 }

-- `Manager`: its `users`.
abbrev pub Manager : Type 0
Manager = Assoc String Usage

abbrev pub or_none : Option Usage → Usage
or_none none = no_usage
or_none (some c) = c

abbrev pub is_zero : ℤ → Bool
is_zero n = beq_ℤ n (pos 0)

-- c.up.Add and c.down.Add, each only for a count that is not 0.
pub count_bytes : ℤ → ℤ → Usage → Usage
count_bytes up down c = record {
  up = if is_zero up then c.up else int64 (c.up +ℤ up);
  down = if is_zero down then c.down else int64 (c.down +ℤ down);
}

-- `Add`
pub add : Manager → String → ℤ → ℤ → Manager
unfolding count_bytes
add m user up down =
    if is_zero up && is_zero down
    then m
    else insert user (count_bytes up down (or_none (lookup user m))) m

-- What `Drain` returns.
unfoldable pub drained : Manager → Assoc String Usage
drained [] = []
drained ((u, c) ∷ m) =
    let rest = drained m in
    if not (is_zero c.up) || not (is_zero c.down) then (u, c) ∷ rest else rest

-- What `Drain` leaves: every counter swapped for 0.
unfoldable pub reset : Manager → Manager
reset [] = []
reset ((u, c) ∷ m) = (u, no_usage) ∷ reset m

-- `Drain`
pub drain : Manager → Manager × Assoc String Usage
drain m = (reset m, drained m)
