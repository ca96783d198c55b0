-- ===== src/UsageSweep/Tests.antt =====
-- Two batches of two rows.
use rapido_go.Prelude.{ℕ, ◌^◌, ℤ, pos, int32, Bool, false, List, [], ◌∷◌, ◌≡◌, refl, arith}
use rapido_go.UsageSweep.{Fate, answers, lost, finished, query_failed, sweep, sweep_from}
use rapido_go.UsageSweep.Batches.{Sweeps, sweep_lem}

abbrev never : ℕ → Bool
never round = false

abbrev always : ℕ → Fate
always round = answers

abbrev unheard : ℕ → Fate
unheard round = lost

abbrev instants : List ℤ
instants = pos 1 ∷ pos 9 ∷ pos 2 ∷ pos 3 ∷ []

sweep_lem_example : Sweeps (pos 5) 2 0 instants (sweep always never (pos 5) (pos 2) instants)
sweep_lem_example = sweep_lem always never (pos 5) 2 (omega arith) (omega arith) instants

swept :
    sweep always never (pos 5) (pos 2) instants
    ≡ record { ending = finished; total = 3; rows = pos 9 ∷ [] }
unfolding sweep sweep_from int32
swept = refl

swept_unheard :
    sweep unheard never (pos 5) (pos 2) instants
    ≡ record { ending = query_failed; total = 0; rows = pos 9 ∷ pos 3 ∷ [] }
unfolding sweep sweep_from int32
swept_unheard = refl

-- The LIMIT of a batch of 2^32 rows is 0.
swept_nothing :
    sweep always never (pos 5) (pos (2 ^ 32)) instants
    ≡ record { ending = finished; total = 0; rows = instants }
unfolding sweep sweep_from int32
swept_nothing = refl
