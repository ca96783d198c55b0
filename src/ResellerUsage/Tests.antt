-- ===== src/ResellerUsage/Tests.antt =====
-- Two ticks, of which the first one's report is not marked.
use rapido_go.Prelude.{pos, ◌+ℤ◌, ◌-ℤ◌, ◌≤ℤ◌, true, false, some, List, [], ◌∷◌, All, ◌≡◌, refl}
use rapido_go.ResellerUsage.{new_state, start_tick, finish_tick}
use rapido_go.ResellerUsage.Books.{Event, queued, starts, ends, run, total_of, accepted_of}
use rapido_go.ResellerUsage.Conserve.{row_of, IsMarked, run_conserves}

abbrev day : List Event
day =
    queued (pos 7) (pos 100)
    ∷ starts (some true) true
    ∷ queued (pos 7) (pos 5)
    ∷ ends true true
    ∷ starts (some true) true
    ∷ ends true false
    ∷ []

run_conserves_example :
    (((row_of (pos 7) (run new_state day)).pending +ℤ (row_of (pos 7) (run new_state day)).reported)
      ≡ total_of (pos 7) day)
    × ((row_of (pos 7) (run new_state day)).reported
        ≤ℤ accepted_of (pos 7) (run new_state day).accepted)
    × (All IsMarked day
        → (row_of (pos 7) (run new_state day)).reported
          ≡ accepted_of (pos 7) (run new_state day).accepted)
run_conserves_example = run_conserves day (pos 7)

-- The second report is accepted and stays pending.
day_books :
    ((row_of (pos 7) (run new_state day)).pending ≡ pos 5)
    × ((row_of (pos 7) (run new_state day)).reported ≡ pos 100)
    × (accepted_of (pos 7) (run new_state day).accepted ≡ pos 105)
unfolding start_tick finish_tick ◌+ℤ◌ ◌-ℤ◌
day_books = (refl, refl, refl)
