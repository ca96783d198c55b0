-- ===== src/Aggregator/Tests.antt =====
-- Two windows of dropped lines.
use rapido_go.Prelude.{◌+◌, pos, pos_part, ◌+ℤ◌, ◌-ℤ◌, int64, List, [], ◌∷◌, ◌≡◌, refl, arith}
use rapido_go.Prelude.Sorted.{insert_sorted}
use rapido_go.Aggregator.{new_aggregator, count, totals, flush, sum_of, sort_kinds, Line}
use rapido_go.Aggregator.Counts.{Event, counts, flushes, run, figure, shown, run-occurrences}

abbrev hour : List Event
hour =
    counts "eof"
    ∷ counts "dial"
    ∷ counts "eof"
    ∷ flushes (pos 60)
    ∷ flushes (pos 120)
    ∷ counts "eof"
    ∷ []

abbrev one_line : List Line
one_line =
    record { total = pos 3; elapsed = pos 60; kinds = ("dial", pos 1) ∷ ("eof", pos 2) ∷ [] } ∷ []

run-hour : (run hour (new_aggregator (pos 0))).1 ≡ one_line
unfolding count flush sum_of sort_kinds insert_sorted int64 ◌+ℤ◌ ◌-ℤ◌
run-hour = refl

run-occurrences_example :
    (shown "eof" (run hour (new_aggregator (pos 0))).1
        + pos_part (figure "eof" (run hour (new_aggregator (pos 0))).0.window)
      ≡ 3)
    × (figure "eof" (totals (run hour (new_aggregator (pos 0))).0) ≡ pos 3)
run-occurrences_example = run-occurrences "eof" hour (pos 0) (omega arith)
