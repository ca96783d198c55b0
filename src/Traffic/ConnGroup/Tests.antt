-- ===== src/Traffic/ConnGroup/Tests.antt =====
-- A group that is closed while one connection is held and another was released.
use rapido_go.Prelude.{true, List, [], ◌∷◌, length, ◌≡◌, ◌⊎◌, refl, arith, nat_eq}
use rapido_go.Traffic.ConnGroup.{ConnGroup, new_group, hold, release, close_all, len}
use rapido_go.Traffic.ConnGroup.Covered.{IsConsistent, is_in, hold_at}
use rapido_go.Traffic.ConnGroup.Runs.{
  closed_between, run-IsConsistent, new_group-IsConsistent, Event, holds, releases, run,
  close_all_lem,
}

abbrev before : List Event
before = holds 7 ∷ holds 8 ∷ releases 0 ∷ []

abbrev after : List Event
after = holds 9 ∷ releases 1 ∷ []

abbrev left : ConnGroup
left = closed_between before after

ended_two : left.ended ≡ 8 ∷ 9 ∷ []
unfolding hold release close_all
ended_two = refl

length-left : length left.holds ≡ 3
unfolding hold release close_all
length-left = refl

close_all_lem_example :
    (len left ≡ 0)
    × (((hold_at left 2).released ≡ true) ⊎ (is_in (hold_at left 2).conn left.ended ≡ true))
close_all_lem_example =
    close_all_lem before after 2 (omega (arith, length-left)) (omega (arith, length-left))

length-before : length (run new_group before).holds ≡ 2
unfolding hold release
length-before = refl

run-IsConsistent_example : IsConsistent (run new_group before)
run-IsConsistent_example =
    run-IsConsistent before new_group (omega (arith, length-before)) new_group-IsConsistent
