-- ===== src/Traffic/Usage/Tests.antt =====
-- Concrete runs of the byte counters, which the properties speak about.
use rapido_go.Prelude.{pos, ◌+ℤ◌, int64, none, List, [], ◌∷◌, lookup, ◌≡◌, refl, string_eq}
use rapido_go.Traffic.Usage.{no_usage, Manager, or_none, drain}
use rapido_go.Traffic.Usage.Drain.{drain_lem}
use rapido_go.Traffic.Usage.Conserve.{uplink, Call, adds, drains, run, reported, held, run_lem}

abbrev two_users : Manager
two_users = ("ann", record { up = pos 10; down = pos 2 }) ∷ ("bob", no_usage) ∷ []

abbrev a_day : List Call
a_day =
    adds "ann" (pos 100) (pos 0)
    ∷ adds "bob" (pos 5) (pos 7)
    ∷ drains
    ∷ adds "ann" (pos 0) (pos 30)
    ∷ adds "ann" (pos 1) (pos 1)
    ∷ drains
    ∷ adds "ann" (pos 9) (pos 9)
    ∷ []

drain_lem_example :
    (lookup "bob" (drain two_users).1 ≡ none)
    × (or_none (lookup "bob" (drain two_users).0) ≡ no_usage)
drain_lem_example = drain_lem two_users "bob" (refl, (refl, tt))

run_lem_example :
    int64 (reported uplink "ann" (run a_day []).1 +ℤ held uplink "ann" (run a_day []).0)
    ≡ int64 (pos 110)
unfolding ◌+ℤ◌
run_lem_example = run_lem uplink "ann" a_day
