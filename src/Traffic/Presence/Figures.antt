-- ===== src/Traffic/Presence/Figures.antt =====
-- The counters of one generation as figures, and how one connection moves them.
use rapido_go.Prelude.{
  ℕ, ℤ, ◌+ℤ◌, int64, String, Bool, true, not, ◌&&◌, ◌==◌, nat_eq, string_eq, lookup, lookup-insert,
  if◌then◌else◌, ◌≡◌, refl, arith, eq_iff,
}
use rapido_go.Traffic.Presence.{PresenceSet, value_of, shift}

-- What a generation counts: a user's connections, a port's, or all of them.
pub data Figure : Type 0 where
  of_user : String → Figure
  of_port : ℕ → Figure
  all : Figure

abbrev pub reading : Figure → PresenceSet → ℤ
reading (of_user u) ps = value_of (lookup u ps.users)
reading (of_port p) ps = value_of (lookup p ps.ports)
reading all ps = ps.total

-- Whether a connection of that user on that port counts for a figure.
abbrev pub counts : Figure → String → ℕ → Bool
counts (of_user u) user port = user == u
counts (of_port p) user port = not (port == 0) && (port == p)
counts all user port = true

pub reading-shift :
    (f : Figure) (d : ℤ) (user : String) (port : ℕ) (ps : PresenceSet)
    → reading f (shift d user port ps)
      ≡ (if counts f user port then int64 (reading f ps +ℤ d) else reading f ps)
unfolding shift
reading-shift (of_user u) d user port ps = ground (
  arith,
  eq_iff user u,
  lookup-insert user u (int64 (value_of (lookup user ps.users) +ℤ d)) ps.users,
)
reading-shift (of_port p) d user port ps =
    ground (arith, lookup-insert port p (int64 (value_of (lookup port ps.ports) +ℤ d)) ps.ports)
reading-shift all d user port ps = refl
