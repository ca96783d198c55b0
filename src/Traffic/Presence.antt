-- ===== src/Traffic/Presence.antt =====
-- internal/nodecore/traffic/presence.go: how many client connections are open. A `presenceSet` is
-- one generation of counters; `sets` holds every generation made so far, and `presence` points at
-- the one in use. A connection is its close func: it keeps the generation that it opened in.
-- Each method is one step; its atomic adds commute with those of other methods.
pub mod Figures
pub mod Exact
pub mod Runs
pub mod Read
mod Tests
use Prim.Native.Nat.{Ordering}
use Prim.Native.String.{compare}
use rapido_go.Prelude.Sorted.{insert_sorted}
use rapido_go.Prelude.{
  ℕ, zero, suc, ◌+◌, ℤ, pos, negsuc, ◌+ℤ◌, int64, String, Bool, true, false, not, ◌&&◌, ◌==◌,
  nat_eq, string_eq, Comparable, Option, none, some, List, [], ◌∷◌, ◌++◌, Assoc, lookup, insert,
  length, get_or, set, ltb_ℤ, if◌then◌else◌,
}

pub record PresenceSet : Type 0 where
  pub users : Assoc String ℤ
  pub ports : Assoc ℕ ℤ
  pub total : ℤ

abbrev pub empty_set : PresenceSet
empty_set = record { users = []; ports = []; total = pos 0 }

-- What a close func has captured, and its `closed` flag.
pub record Conn : Type 0 where
  pub gen : ℕ
  pub user : String
  pub port : ℕ
  pub closed : Bool

-- No connection: as closed.
abbrev pub no_conn : Conn
no_conn = record { gen = 0; user = ""; port = 0; closed = true }

pub record State : Type 0 where
  pub sets : List PresenceSet
  pub presence : Option ℕ
  pub conns : List Conn

abbrev pub initial : State
initial = record { sets = []; presence = none; conns = [] }

-- A fresh generation in use.
abbrev pub new_set : State → State
new_set s = record s { sets = s.sets ++ (empty_set ∷ []); presence = some (length s.sets) }

abbrev pub ensure : State → Option ℕ → State
ensure s none = new_set s
ensure s (some g) = s

-- `currentPresence`: the state after it, in which a generation is in use.
pub current_presence : State → State
current_presence s = ensure s s.presence

abbrev pub gen_of : Option ℕ → ℕ
gen_of none = 0
gen_of (some g) = g

-- A counter that the map does not hold yet starts at 0.
abbrev pub value_of : Option ℤ → ℤ
value_of none = pos 0
value_of (some n) = n

-- counterFor(m, key).Add(d)
pub add_counter {ℓ} : {K : Type ℓ} ⦃e : Comparable K⦄ → K → ℤ → Assoc K ℤ → Assoc K ℤ
add_counter k d m = insert k (int64 (value_of (lookup k m) +ℤ d)) m

-- The three counters of a connection move by d; port 0 is unknown and not counted.
pub shift : ℤ → String → ℕ → PresenceSet → PresenceSet
unfolding add_counter
shift d user port ps = record {
  users = add_counter user d ps.users;
  ports = if port == 0 then ps.ports else add_counter port d ps.ports;
  total = int64 (ps.total +ℤ d);
}

pub shift_at : ℕ → ℤ → String → ℕ → List PresenceSet → List PresenceSet
shift_at g d user port sets = set sets g (shift d user port (get_or sets g empty_set))

-- `OpenConn`: the new connection is the last of `conns`.
pub open_conn : State → String → ℕ → State
open_conn s user port =
    let s' = current_presence s in
    let g = gen_of s'.presence in
    record s' {
      sets = shift_at g (pos 1) user port s'.sets;
      conns = s'.conns ++ (record { gen = g; user = user; port = port; closed = false } ∷ []);
    }

-- The close func of connection i: only the first call counts.
pub close_conn : State → ℕ → State
close_conn s i =
    let c = get_or s.conns i no_conn in
    if c.closed then s else record s {
      sets = shift_at c.gen (negsuc 0) c.user c.port s.sets;
      conns = set s.conns i (record c { closed = true });
    }

-- `ResetPresence`
pub reset_presence : State → State
reset_presence s = new_set s

pub record Snapshot : Type 0 where
  pub total : ℤ
  pub ports : Assoc ℕ ℤ
  pub users : Assoc String ℤ

-- Entries above zero.
pub open_ports : Assoc ℕ ℤ → Assoc ℕ ℤ
open_ports [] = []
open_ports ((p, n) ∷ m) = let rest = open_ports m in if ltb_ℤ (pos 0) n then (p, n) ∷ rest else rest

-- The users above zero, sorted by name.
pub online_users : Assoc String ℤ → Assoc String ℤ
unfolding insert_sorted
online_users [] = []
online_users ((u, n) ∷ m) =
    let rest = online_users m in if ltb_ℤ (pos 0) n then insert_sorted u n rest else rest

-- What `Presence` reads, once a generation is in use.
pub snapshot : State → Snapshot
snapshot s =
    let ps = get_or s.sets (gen_of s.presence) empty_set in
    record {
      total = if ltb_ℤ ps.total (pos 0) then pos 0 else ps.total;
      ports = open_ports ps.ports;
      users = online_users ps.users;
    }

-- `Presence`: the state after it, and its answer.
pub read_presence : State → State × Snapshot
unfolding current_presence
read_presence s = let s' = current_presence s in (s', snapshot s')
