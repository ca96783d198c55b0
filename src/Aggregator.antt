-- ===== src/Aggregator.antt =====
-- internal/nodelog/aggregate.go: counts of the dropped log lines by kind. The mutex makes each
-- method one step. Instants and durations are integers of nanoseconds; a flushed line has the
-- exact duration of its window, which the code rounds to seconds.
pub mod Counts
mod Tests
use rapido_go.Prelude.Sorted.{insert_sorted}
use rapido_go.Prelude.{
  ℤ, pos, ◌+ℤ◌, ◌-ℤ◌, int64, String, string_eq, Option, none, some, List, [], ◌∷◌, Assoc, lookup,
  insert,
}

pub record Aggregator : Type 0 where
  pub window : Assoc String ℤ
  pub total : Assoc String ℤ
  pub since : ℤ

-- `NewAggregator`, at the time of its making.
abbrev pub new_aggregator : ℤ → Aggregator
new_aggregator now = record { window = []; total = []; since = now }

-- m[kind] of a map to int64: 0 where the key is missing.
abbrev pub count_of : Option ℤ → ℤ
count_of none = pos 0
count_of (some n) = n

-- m[kind]++
abbrev pub increment : String → Assoc String ℤ → Assoc String ℤ
increment kind m = insert kind (int64 (count_of (lookup kind m) +ℤ pos 1)) m

-- `Count`
pub count : Aggregator → String → Aggregator
count a kind = record a { window = increment kind a.window; total = increment kind a.total }

-- `Totals`
abbrev pub totals : Aggregator → Assoc String ℤ
totals a = a.total

-- The attributes of a logged line.
pub record Line : Type 0 where
  pub total : ℤ
  pub elapsed : ℤ
  pub kinds : Assoc String ℤ

pub sum_of : Assoc String ℤ → ℤ
sum_of [] = pos 0
sum_of ((k, n) ∷ m) = int64 (n +ℤ sum_of m)

-- The counts in the order of sort.Strings.
pub sort_kinds : Assoc String ℤ → Assoc String ℤ
sort_kinds [] = []
sort_kinds ((k, n) ∷ m) = insert_sorted k n (sort_kinds m)

-- The line for a window: none where nothing was dropped.
abbrev pub line_of : ℤ → Assoc String ℤ → Option Line
line_of elapsed [] = none
line_of elapsed (p ∷ m) =
    some (record { total = sum_of (p ∷ m); elapsed = elapsed; kinds = sort_kinds (p ∷ m) })

-- `Flush`: the aggregator after it, and what it logs.
pub flush : Aggregator → ℤ → Aggregator × Option Line
flush a now = (record a { window = []; since = now }, line_of (now -ℤ a.since) a.window)
