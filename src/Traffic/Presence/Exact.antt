-- ===== src/Traffic/Presence/Exact.antt =====
-- Every counter of every generation is the number of the open connections that count for it.
use rapido_go.Prelude.{
  ℕ, zero, suc, ◌<◌, ℤ, pos, negsuc, ◌+ℤ◌, int64, int64_up, int64_down, String, Bool, true, false,
  not, ◌&&◌, nat_eq, nat_beq, Option, none, some, List, [], ◌∷◌, ◌++◌, length, length-set,
  length-append, get_or, get_or-set_self, get_or-set_ne, All, All-append, All-map, All-set,
  All-get_or, if◌then◌else◌, ◌≡◌, ◌≢◌, refl, arith, Bool-cases, inl, inr, set,
}
use rapido_go.Prelude.Count.{count, count-append, count_one, count-set}
use rapido_go.Traffic.Presence.{
  PresenceSet, empty_set, Conn, no_conn, State, initial, new_set, ensure, current_presence, gen_of,
  shift, shift_at, open_conn, close_conn,
}
use rapido_go.Traffic.Presence.Figures.{
  Figure, of_user, of_port, all, reading, counts, reading-shift,
}

-- A connection that is open, belongs to the generation and counts for the figure.
abbrev pub live : ℕ → Figure → Conn → Bool
live g f c = not c.closed && nat_beq c.gen g && counts f c.user c.port

-- The open connections of a generation that count for a figure.
abbrev pub open_count : ℕ → Figure → List Conn → ℕ
open_count g f conns = count (live g f) conns

pub record IsExact (s : State) : Type 0 where
  pub figures :
      (g : ℕ) (f : Figure)
      → reading f (get_or s.sets g empty_set) ≡ int64 (pos (open_count g f s.conns))
  pub gens : All (λ c. c.gen < length s.sets) s.conns
  pub in_use : (g : ℕ) → s.presence ≡ some g → g < length s.sets

reading-shift_at :
    (g g' : ℕ) (f : Figure) (d : ℤ) (user : String) (port : ℕ) (sets : List PresenceSet)
    → g < length sets
    → reading f (get_or (shift_at g d user port sets) g' empty_set) ≡ (
        if nat_beq g g' && counts f user port
        then int64 (reading f (get_or sets g' empty_set) +ℤ d)
        else reading f (get_or sets g' empty_set))
unfolding shift_at
reading-shift_at g g' f d user port sets h = elim (Bool-cases (nat_beq g g')) [
  | inl e ↦
      let same : g ≡ g' = ground arith in
      rw e (
        rw (← same) (
          rw (get_or-set_self sets g (shift d user port (get_or sets g empty_set)) empty_set h)
            (reading-shift f d user port (get_or sets g empty_set))))
  | inr e ↦
      let differ : g ≢ g' = ground arith in
      rw e (
        rw (get_or-set_ne sets g g' (shift d user port (get_or sets g empty_set)) empty_set differ)
          refl)
]

length-shift_at :
    (g : ℕ) (d : ℤ) (user : String) (port : ℕ) (sets : List PresenceSet)
    → length (shift_at g d user port sets) ≡ length sets
unfolding shift_at
length-shift_at g d user port sets = length-set sets g (shift d user port (get_or sets g empty_set))

reading-empty_set : (f : Figure) → reading f empty_set ≡ int64 (pos 0)
unfolding int64
reading-empty_set (of_user u) = refl
reading-empty_set (of_port p) = refl
reading-empty_set all = refl

get_or-snoc_empty :
    (sets : List PresenceSet) (g : ℕ)
    → get_or (sets ++ (empty_set ∷ [])) g empty_set ≡ get_or sets g empty_set
get_or-snoc_empty [] zero = refl
get_or-snoc_empty [] (suc g) = refl
get_or-snoc_empty (x ∷ sets) zero = refl
get_or-snoc_empty (x ∷ sets) (suc g) = get_or-snoc_empty sets g

pub new_set-IsExact : (s : State) → IsExact s → IsExact (new_set s)
new_set-IsExact s x = record {
  figures = λ g f. rw get_or-snoc_empty (x.figures g f);
  gens =
      All-map (λ c. c.gen < length s.sets) (λ c. c.gen < length (s.sets ++ (empty_set ∷ [])))
        s.conns (λ c h. omega (arith, length-append s.sets (empty_set ∷ []))) x.gens;
  in_use = λ g e. ground (arith, length-append s.sets (empty_set ∷ []));
}

ensure-IsExact :
    (s : State) (p : Option ℕ)
    → s.presence ≡ p
    → IsExact s
    → IsExact (ensure s p) × (gen_of (ensure s p).presence < length (ensure s p).sets)
ensure-IsExact s none e x =
    (new_set-IsExact s x, omega (arith, length-append s.sets (empty_set ∷ [])))
ensure-IsExact s (some g) e x = (x, rw e (x.in_use g e))

pub current_presence-IsExact :
    (s : State)
    → IsExact s
    → IsExact (current_presence s)
      × (gen_of (current_presence s).presence < length (current_presence s).sets)
unfolding current_presence
current_presence-IsExact s x = ensure-IsExact s s.presence refl x

-- A connection opened in generation g.
module _ (s : State) (x : IsExact s) (g : ℕ) (here : g < length s.sets) (user : String)
    (port : ℕ) where
  abbrev opened : Conn
  opened = record { gen = g; user = user; port = port; closed = false }

  opened_figures :
      (g' : ℕ) (f : Figure)
      → reading f (get_or (shift_at g (pos 1) user port s.sets) g' empty_set)
        ≡ int64 (pos (open_count g' f (s.conns ++ (opened ∷ []))))
  opened_figures g' f = ground (
    arith,
    reading-shift_at g g' f (pos 1) user port s.sets here,
    count-append (live g' f) s.conns (opened ∷ []),
    count_one (live g' f) opened,
    x.figures g' f,
    int64_up (open_count g' f s.conns),
  )

  opened-IsExact :
      IsExact
        (record s { sets = shift_at g (pos 1) user port s.sets; conns = s.conns ++ (opened ∷ []) })
  opened-IsExact = record {
    figures = opened_figures;
    gens =
        rw length-shift_at
          (All-append (λ c. c.gen < length s.sets) s.conns (opened ∷ []) x.gens (here, tt));
    in_use = λ k e. rw length-shift_at (x.in_use k e);
  }

pub open_conn-IsExact :
    (s : State) (user : String) (port : ℕ) → IsExact s → IsExact (open_conn s user port)
unfolding open_conn
open_conn-IsExact s user port x =
    let now = current_presence-IsExact s x in
    opened-IsExact (current_presence s) now.0 (gen_of (current_presence s).presence) now.1 user port

module _ (s : State) (x : IsExact s) (i : ℕ) (within : i < length s.conns) where
  abbrev target : Conn
  target = get_or s.conns i no_conn

  abbrev done : Conn
  done = record target { closed = true }

  target_in : target.gen < length s.sets
  target_in = All-get_or (λ c. c.gen < length s.sets) s.conns i no_conn within x.gens

  closed_figures :
      target.closed ≡ false
      → (g : ℕ) (f : Figure)
      → reading f
          (get_or (shift_at target.gen (negsuc 0) target.user target.port s.sets) g empty_set)
        ≡ int64 (pos (open_count g f (set s.conns i done)))
  closed_figures e g f = ground (
    arith,
    reading-shift_at target.gen g f (negsuc 0) target.user target.port s.sets target_in,
    count-set (live g f) s.conns i done no_conn within,
    x.figures g f,
    int64_down (open_count g f (set s.conns i done)) (open_count g f s.conns),
  )

  closed-IsExact :
      target.closed ≡ false
      → IsExact (record s {
        sets = shift_at target.gen (negsuc 0) target.user target.port s.sets;
        conns = set s.conns i done;
      })
  closed-IsExact e = record {
    figures = closed_figures e;
    gens =
        rw length-shift_at (All-set (λ c. c.gen < length s.sets) s.conns i done x.gens target_in);
    in_use = λ k h. rw length-shift_at (x.in_use k h);
  }

-- Only a connection that was opened is not closed.
open_within :
    (conns : List Conn) (i : ℕ) → (get_or conns i no_conn).closed ≡ false → i < length conns
open_within [] i e = cc
open_within (c ∷ conns) zero e = omega arith
open_within (c ∷ conns) (suc i) e = omega (arith, open_within conns i e)

pub close_conn-IsExact : (s : State) (i : ℕ) → IsExact s → IsExact (close_conn s i)
unfolding close_conn
close_conn-IsExact s i x = elim (Bool-cases (get_or s.conns i no_conn).closed) [
  | inl shut ↦ rw shut x
  | inr live_yet ↦ rw live_yet (closed-IsExact s x i (open_within s.conns i live_yet) live_yet)
]

pub initial-IsExact : IsExact initial
initial-IsExact = record {
  figures = λ g f. unfold count in reading-empty_set f;
  gens = tt;
  in_use = λ g e. cc;
}
