-- ===== src/Traffic/Presence/Read.antt =====
-- What `Presence` reports is the number of open connections.
use rapido_go.Prelude.{
  ℕ, ◌<◌, ◌^◌, ℤ, pos, ltb_ℤ, int64_small, String, nat_eq, string_eq, Option, none, some, List, [],
  ◌∷◌, length, get_or, Assoc, lookup, if◌then◌else◌, ◌≡◌, refl, ◌∙◌, arith, Bool-cases, inl, inr,
  eq_iff,
}
use rapido_go.Prelude.Sorted.{lookup-insert_sorted}
use rapido_go.Prelude.Keys.{DistinctKeys}
use rapido_go.Prelude.Count.{count-le-length}
use rapido_go.Traffic.Presence.{
  ensure, current_presence, read_presence, State, initial, empty_set, value_of, gen_of, snapshot,
  open_ports, online_users,
}
use rapido_go.Traffic.Presence.Figures.{Figure, of_user, of_port, all, reading}
use rapido_go.Traffic.Presence.Exact.{IsExact, initial-IsExact, open_count, live}
use rapido_go.Traffic.Presence.Runs.{
  ensure-IsExact, ensure-AllDistinct, Event, run, run-IsExact, run-AllDistinct, AllDistinct,
  get_or-HasDistinctKeys,
}

-- A reported entry: only figures above zero are reported.
abbrev pub if_positive : ℤ → Option ℤ
if_positive n = if ltb_ℤ (pos 0) n then some n else none

lookup-open_ports :
    (m : Assoc ℕ ℤ) (p : ℕ)
    → DistinctKeys m
    → lookup p (open_ports m) ≡ if_positive (value_of (lookup p m))
unfolding open_ports
lookup-open_ports [] p h = refl
lookup-open_ports ((q, n) ∷ m) p h = ground (arith, lookup-open_ports m p h.1)

lookup-online_users :
    (m : Assoc String ℤ) (u : String)
    → DistinctKeys m
    → lookup u (online_users m) ≡ if_positive (value_of (lookup u m))
unfolding online_users
lookup-online_users [] u h = refl
lookup-online_users ((v, n) ∷ m) u h =
    let ih = lookup-online_users m u h.1 in
    let absent : lookup v (online_users m) ≡ none = lookup-online_users m v h.1 ∙ rw h.0 refl in
    elim (Bool-cases (ltb_ℤ (pos 0) n)) [
      | inl e ↦
          rw e (lookup-insert_sorted v n (online_users m) u absent ∙ ground (arith, ih, eq_iff v u))
      | inr e ↦ rw e (ground (arith, ih, eq_iff v u, h.0))
    ]

module _ (s : State) (x : IsExact s) (small : length s.conns < 2 ^ 63) where
  -- The generation in use.
  abbrev current : ℕ
  current = gen_of s.presence

  reading-current :
      (f : Figure)
      → reading f (get_or s.sets current empty_set) ≡ pos (open_count current f s.conns)
  reading-current f =
      x.figures current f
      ∙ int64_small (open_count current f s.conns)
          (omega (arith, count-le-length (live current f) s.conns))

  snapshot_lem :
      (user : String) (port : ℕ)
      → AllDistinct s
      → ((snapshot s).total ≡ pos (open_count current all s.conns))
        × (lookup user (snapshot s).users
            ≡ if_positive (pos (open_count current (of_user user) s.conns)))
        × (lookup port (snapshot s).ports
            ≡ if_positive (pos (open_count current (of_port port) s.conns)))
  unfolding snapshot
  snapshot_lem user port d =
      let ps = get_or s.sets current empty_set in
      let keys = get_or-HasDistinctKeys s.sets current d in
      (
        rw (reading-current all) (ground arith),
        lookup-online_users ps.users user keys.0 ∙ rw (reading-current (of_user user)) refl,
        lookup-open_ports ps.ports port keys.1 ∙ rw (reading-current (of_port port)) refl,
      )

conns-current : (s : State) (p : Option ℕ) → (ensure s p).conns ≡ s.conns
conns-current s none = refl
conns-current s (some g) = refl

-- After any opening and closing of connections, any resets and any readings, `Presence` reports
-- the number of open connections of the generation in use: their total, and of each user and each
-- port the number where there is one, if fewer than 2^63 connections were ever made.
pub read_presence-run :
    (es : List Event) (user : String) (port : ℕ)
    → length (run initial es).conns < 2 ^ 63
    → let r = read_presence (run initial es) in
      let g = gen_of r.0.presence in
      (r.1.total ≡ pos (open_count g all r.0.conns))
      × (lookup user r.1.users ≡ if_positive (pos (open_count g (of_user user) r.0.conns)))
      × (lookup port r.1.ports ≡ if_positive (pos (open_count g (of_port port) r.0.conns)))
unfolding read_presence current_presence
read_presence-run es user port small =
    let s = run initial es in
    snapshot_lem (ensure s s.presence)
      (ensure-IsExact s s.presence (run-IsExact es initial initial-IsExact))
      (rw (conns-current s s.presence) small) user port
      (ensure-AllDistinct s s.presence (run-AllDistinct es initial tt))
