-- ===== src/Traffic/Presence/Tests.antt =====
-- Connections of two users over a reset.
use rapido_go.Prelude.{
  ◌<◌, ◌^◌, pos, List, [], ◌∷◌, ◌≡◌, refl, arith, lookup, length, nat_eq, string_eq, int64, ◌+ℤ◌,
}
use rapido_go.Traffic.Presence.{
  read_presence, initial, gen_of, snapshot, open_conn, close_conn, current_presence, shift_at,
  shift, reset_presence, open_ports, online_users,
}
use rapido_go.Traffic.Presence.Figures.{of_user, of_port, all}
use rapido_go.Traffic.Presence.Exact.{IsExact, open_count, initial-IsExact}
use rapido_go.Traffic.Presence.Runs.{Event, opens, closes, resets, reads, apply, run, run-IsExact}
use rapido_go.Traffic.Presence.Read.{if_positive, read_presence-run}

abbrev day : List Event
day =
    opens "ann" 443
    ∷ resets
    ∷ reads
    ∷ opens "bob" 443
    ∷ opens "ann" 0
    ∷ closes 0
    ∷ closes 1
    ∷ closes 1
    ∷ []

day_runs :
    ((snapshot (run initial day)).total ≡ pos 1)
    × ((snapshot (run initial day)).users ≡ ("ann", pos 1) ∷ [])
    × ((snapshot (run initial day)).ports ≡ [])
unfolding read_presence snapshot run apply open_conn close_conn current_presence shift_at shift
    reset_presence open_ports online_users int64 ◌+ℤ◌
day_runs = (refl, refl, refl)

run-IsExact_example : IsExact (run initial day)
run-IsExact_example = run-IsExact day initial initial-IsExact

day_conns : length (run initial day).conns < 2 ^ 63
unfolding run apply open_conn close_conn current_presence reset_presence read_presence
day_conns = omega arith

read_presence-run_example :
    let r = read_presence (run initial day) in
    (r.1.total ≡ pos (open_count (gen_of r.0.presence) all r.0.conns))
    × (lookup "ann" r.1.users
        ≡ if_positive (pos (open_count (gen_of r.0.presence) (of_user "ann") r.0.conns)))
    × (lookup 443 r.1.ports
        ≡ if_positive (pos (open_count (gen_of r.0.presence) (of_port 443) r.0.conns)))
read_presence-run_example = read_presence-run day "ann" 443 day_conns
