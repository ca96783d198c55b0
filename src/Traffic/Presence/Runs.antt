-- ===== src/Traffic/Presence/Runs.antt =====
-- Any sequence of connections opening and closing and of resets.
use rapido_go.Prelude.{
  ℕ, zero, suc, ℤ, pos, negsuc, String, nat_eq, string_eq, Option, none, some, List, [], ◌∷◌,
  get_or, All, All-append, All-set, Bool-cases, inl, inr, lookup, ◌==◌, int64, ◌+ℤ◌,
}
use rapido_go.Prelude.Keys.{DistinctKeys, insert-DistinctKeys}
use rapido_go.Traffic.Presence.{
  read_presence, ensure, PresenceSet, empty_set, no_conn, State, ensure, current_presence, gen_of,
  shift, shift_at, open_conn, close_conn, reset_presence, value_of, read_presence,
}
use rapido_go.Traffic.Presence.Exact.{
  IsExact, new_set-IsExact, open_conn-IsExact, close_conn-IsExact,
}

-- What happens to the node's connections, in any order.
pub data Event : Type 0 where
  opens : String → ℕ → Event
  closes : ℕ → Event
  resets : Event
  reads : Event

unfoldable pub apply : State → Event → State
apply s (opens user port) = open_conn s user port
apply s (closes i) = close_conn s i
apply s resets = reset_presence s
apply s reads = (read_presence s).0

unfoldable pub run : State → List Event → State
unfolding apply
run s [] = s
run s (e ∷ es) = run (apply s e) es

pub ensure-IsExact : (s : State) (p : Option ℕ) → IsExact s → IsExact (ensure s p)
ensure-IsExact s none x = new_set-IsExact s x
ensure-IsExact s (some g) x = x

-- Whatever connections open and close, also twice or after a reset, and whenever the counters are
-- reset, every counter of every generation stays the number of its open connections.
pub run-IsExact : (es : List Event) (s : State) → IsExact s → IsExact (run s es)
unfolding run apply
run-IsExact [] s x = x
run-IsExact (opens user port ∷ es) s x =
    run-IsExact es (open_conn s user port) (open_conn-IsExact s user port x)
run-IsExact (closes i ∷ es) s x = run-IsExact es (close_conn s i) (close_conn-IsExact s i x)
run-IsExact (resets ∷ es) s x =
    run-IsExact es (reset_presence s) (unfold reset_presence in new_set-IsExact s x)
run-IsExact (reads ∷ es) s x =
    run-IsExact es (read_presence s).0
      (unfold read_presence current_presence in ensure-IsExact s s.presence x)

-- The maps of a generation hold each key once.
abbrev pub HasDistinctKeys : PresenceSet → Type 0
HasDistinctKeys ps = DistinctKeys ps.users × DistinctKeys ps.ports

shift-HasDistinctKeys :
    (d : ℤ) (user : String) (port : ℕ) (ps : PresenceSet)
    → HasDistinctKeys ps
    → HasDistinctKeys (shift d user port ps)
unfolding shift
shift-HasDistinctKeys d user port ps h = (
  insert-DistinctKeys user (int64 (value_of (lookup user ps.users) +ℤ d)) ps.users h.0,
  elim (Bool-cases (port == 0)) [
    | inl e ↦ rw e h.1
    | inr e ↦
        rw e (insert-DistinctKeys port (int64 (value_of (lookup port ps.ports) +ℤ d)) ps.ports h.1)
  ],
)

pub get_or-HasDistinctKeys :
    (sets : List PresenceSet) (g : ℕ)
    → All HasDistinctKeys sets
    → HasDistinctKeys (get_or sets g empty_set)
get_or-HasDistinctKeys [] g h = (tt, tt)
get_or-HasDistinctKeys (x ∷ sets) zero h = h.0
get_or-HasDistinctKeys (x ∷ sets) (suc g) h = get_or-HasDistinctKeys sets g h.1

shift_at-HasDistinctKeys :
    (g : ℕ) (d : ℤ) (user : String) (port : ℕ) (sets : List PresenceSet)
    → All HasDistinctKeys sets
    → All HasDistinctKeys (shift_at g d user port sets)
unfolding shift_at
shift_at-HasDistinctKeys g d user port sets h =
    All-set HasDistinctKeys sets g (shift d user port (get_or sets g empty_set)) h (
      shift-HasDistinctKeys d user port (get_or sets g empty_set) (get_or-HasDistinctKeys sets g h))

abbrev pub AllDistinct : State → Type 0
AllDistinct s = All HasDistinctKeys s.sets

pub ensure-AllDistinct : (s : State) (p : Option ℕ) → AllDistinct s → AllDistinct (ensure s p)
ensure-AllDistinct s none h = All-append HasDistinctKeys s.sets (empty_set ∷ []) h ((tt, tt), tt)
ensure-AllDistinct s (some g) h = h

pub apply-AllDistinct : (s : State) (e : Event) → AllDistinct s → AllDistinct (apply s e)
unfolding apply open_conn close_conn reset_presence current_presence read_presence
apply-AllDistinct s (opens user port) h =
    let s' = ensure s s.presence in
    shift_at-HasDistinctKeys (gen_of s'.presence) (pos 1) user port s'.sets
      (ensure-AllDistinct s s.presence h)
apply-AllDistinct s (closes i) h = elim (Bool-cases (get_or s.conns i no_conn).closed) [
  | inl e ↦ rw e h
  | inr e ↦
      let c = get_or s.conns i no_conn in
      rw e (shift_at-HasDistinctKeys c.gen (negsuc 0) c.user c.port s.sets h)
]
apply-AllDistinct s resets h = ensure-AllDistinct s none h
apply-AllDistinct s reads h = ensure-AllDistinct s s.presence h

pub run-AllDistinct : (es : List Event) (s : State) → AllDistinct s → AllDistinct (run s es)
unfolding run
run-AllDistinct [] s h = h
run-AllDistinct (e ∷ es) s h = run-AllDistinct es (apply s e) (apply-AllDistinct s e h)
