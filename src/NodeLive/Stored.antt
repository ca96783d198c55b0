-- ===== src/NodeLive/Stored.antt =====
-- The logs of the nodes in Redis over any requests to internal/httpapi/nodelive.go.
use rapido_go.Prelude.{
  ℕ, ◌+◌, ◌-◌, ◌≤◌, ℤ, pos, ◌≤ℤ◌, int_eq, String, Bool, true, not, ◌&&◌, ◌==◌, Option, none, some,
  List, [], ◌∷◌, ◌++◌, length, ltb, ◌≡◌, refl, ◌∙◌, arith, Bool-cases, inl, inr, if_cases, Assoc,
  lookup, lookup-insert,
}
use rapido_go.Prelude.Suffix.{length-keep_last}
use rapido_go.Prelude.Bytes.{Bytes}
use rapido_go.Logstream.Ring.{Entry, ring_size}
use rapido_go.Logstream.Publisher.{execute_all, pipeline}
use rapido_go.Logstream.Publisher.Flush.{execute_all-pipeline}
use rapido_go.NodeLive.Lines.{NodeLog}
use rapido_go.NodeLive.Logs.{
  Above, Above-weaken, Above-append, Above-drop, last_id-append, last_id-keep_last,
  prepare_node_logs-Above,
}
use rapido_go.NodeLive.{
  Request, Kept, Store, read_key, last_id, or_empty_list, or_zero, put_logs, commit, Fate, Answer,
  is_nil, members, valid_ports, total_of, to_store, handle_members, handle_node_live, node_log_ttl,
  if_kept,
}

-- A request with what its GET of the cursor gave, the moment of its transaction, and what Redis does
-- with both. Where no GET is sent, or it fails, the cursor is not used and can be any. Overlapping
-- requests stand in the order of their transactions.
pub record Event (F : Type 0) : Type 0 where
  pub fate : Fate
  pub watched : Bool
  pub now : ℕ
  pub node : ℤ
  pub cursor : Option ℤ
  pub req : Request F

abbrev pub empty_store : Store
empty_store = record { users = []; live = none; ports = []; totals = []; logs = []; seqs = [] }

-- The two keys of a node go with one another: the lines grow by id, there are no more of them than a
-- list holds, and the cursor is the id of the last.
abbrev pub Agree : Option (Kept (List Entry)) → Option (Kept ℤ) → Type 0
Agree none none = Unit {0}
Agree none (some c) = ⊥
Agree (some k) none = ⊥
Agree (some k) (some c) =
    (k.until ≡ c.until)
    × Above (pos 0) k.held
    × (last_id (pos 0) k.held ≡ c.held)
    × (length k.held ≤ ring_size)

abbrev pub IsConsistent : Store → Type 0
IsConsistent s = (node : ℤ) → Agree (lookup node s.logs) (lookup node s.seqs)

-- The list, and a cursor from before.
abbrev Reads : Option (List Entry) → Option ℤ → Type 0
Reads es c = Above (pos 0) (or_empty_list es) × (last_id (pos 0) (or_empty_list es) ≤ℤ or_zero c)

Above-ge : (lo : ℤ) (es : List Entry) → Above lo es → lo ≤ℤ last_id lo es
Above-ge lo [] a = omega arith
Above-ge lo (e ∷ es) a = omega (arith, a.0, Above-ge e.id es a.1)

or_zero-ge : (at : ℕ) (c : Kept ℤ) → pos 0 ≤ℤ c.held → pos 0 ≤ℤ or_zero (if_kept at (some c))
or_zero-ge at c h = elim (Bool-cases (ltb at c.until)) [
  | inl e ↦ rw e h
  | inr e ↦ rw e (omega arith)
]

if_kept-Reads :
    (at now : ℕ) (k : Option (Kept (List Entry))) (c : Option (Kept ℤ))
    → at ≤ now
    → Agree k c
    → Reads (if_kept now k) (if_kept at c)
if_kept-Reads at now none none le a = (tt, omega arith)
if_kept-Reads at now none (some c) le a = absurd a
if_kept-Reads at now (some k) none le a = absurd a
if_kept-Reads at now (some k) (some c) le a = elim (Bool-cases (ltb now k.until)) [
  | inl e ↦
      let f : ltb at c.until ≡ true = ground (arith, e, le, a.0) in
      rw e (rw f (a.1, rw a.2 (omega arith)))
  | inr e ↦ rw e (tt, or_zero-ge at c (rw (← a.2) (Above-ge (pos 0) k.held a.1)))
]

-- What stands in the list behind a push.
pushed-Agree :
    (now : ℕ) (node : ℤ) (e : Entry) (es : List Entry) (s : Store) (cursor : Option ℤ)
    → Reads (read_key now node s.logs) cursor
    → Above (or_zero cursor) (e ∷ es)
    → Agree
        (some (record {
          held = execute_all (pipeline (e ∷ es)) (or_empty_list (read_key now node s.logs));
          until = now + node_log_ttl;
        }))
        (some (record { held = last_id e.id es; until = now + node_log_ttl }))
pushed-Agree now node e es s cursor reads above =
    let old : List Entry = or_empty_list (read_key now node s.logs) in
    let new : List Entry = e ∷ es in
    let list = execute_all-pipeline new old in
    (
      refl,
      rw list (
          Above-drop (pos 0) (length (old ++ new) - ring_size) (old ++ new) (
            Above-append (pos 0) old new reads.0
              (Above-weaken (last_id (pos 0) old) (or_zero cursor) new reads.1 above))),
      rw list (last_id-keep_last (pos 0) (old ++ new) ∙ last_id-append (pos 0) old new),
      rw list (omega (arith, length-keep_last ring_size (old ++ new))),
    )

put_logs-IsConsistent :
    (now : ℕ) (node : ℤ) (es : List Entry) (s : Store) (cursor : Option ℤ)
    → Reads (read_key now node s.logs) cursor
    → Above (or_zero cursor) es
    → IsConsistent s
    → IsConsistent (put_logs now node es s)
put_logs-IsConsistent now node [] s cursor reads above h j = h j
put_logs-IsConsistent now node (e ∷ es) s cursor reads above h j = elim (Bool-cases (node == j)) [
  | inl same ↦
      rw (lookup-insert node j _ s.logs, lookup-insert node j _ s.seqs, same)
        (pushed-Agree now node e es s cursor reads above)
  | inr apart ↦ rw (lookup-insert node j _ s.logs, lookup-insert node j _ s.seqs, apart) (h j)
]

-- A cursor that was read at a moment before `now`, since when no request of the node was executed.
abbrev pub IsCurrent : ℕ → ℤ → Option ℤ → Store → Type 0
IsCurrent now node cursor s = (at : ℕ) × (at ≤ now) × (cursor ≡ read_key at node s.seqs)

commit-IsConsistent :
    (now : ℕ) (node : ℤ) (users : List Bytes) (ports : Assoc Bytes ℤ) (total : ℤ) (es : List Entry)
    (s : Store) (cursor : Option ℤ)
    → IsCurrent now node cursor s
    → Above (or_zero cursor) es
    → IsConsistent s
    → IsConsistent (commit now node users ports total es s)
unfolding commit
commit-IsConsistent now node users ports total es s cursor (at, le, e) above h =
    put_logs-IsConsistent now node es _ cursor (rw e (if_kept-Reads at now _ _ le (h node))) above h

module _ {F : Type 0} (positive : F → Bool) (fold : String → String) (ts_from_id : ℤ → String) where
  to_store-Above :
      (logs : List NodeLog) (stored : Option ℤ)
      → Above (or_zero stored) (to_store positive fold ts_from_id logs stored)
  to_store-Above [] stored = tt
  to_store-Above (l ∷ logs) stored =
      prepare_node_logs-Above fold ts_from_id (or_zero stored) (or_zero stored) (l ∷ logs)
        (λ id lt _. lt)

  handle_members-IsConsistent :
      (v : Event F) (s : Store) (users : Option (List Bytes))
      → IsCurrent v.now v.node v.cursor s
      → IsConsistent s
      → IsConsistent
          (handle_members positive fold ts_from_id v.fate v.watched v.now v.node v.cursor v.req s
            users).0
  handle_members-IsConsistent v s none current h = h
  handle_members-IsConsistent v s (some users) current h =
      if_cases {A = Store × Answer} (λ r. IsConsistent r.0)
        (not (is_nil v.req.logs) && not v.fate.reads) _ _ (λ _. h)
        (λ _.
          if_cases {A = Store × Answer} (λ r. IsConsistent r.0) v.fate.executes _ _
            (λ _.
              commit-IsConsistent v.now v.node users (valid_ports v.req.port_conns)
                (total_of v.req.conns_total (valid_ports v.req.port_conns)) _ s v.cursor current
                (to_store-Above v.req.logs v.cursor) h)
            (λ _. h))

  abbrev pub handled : Event F → Store → Store
  handled v s =
      (handle_node_live positive fold ts_from_id v.fate v.watched v.now v.node v.cursor v.req s).0

  handled-IsConsistent :
      (v : Event F) (s : Store)
      → IsCurrent v.now v.node v.cursor s
      → IsConsistent s
      → IsConsistent (handled v s)
  unfolding handle_node_live
  handled-IsConsistent v s current h =
      handle_members-IsConsistent v s (members positive v.req.online) current h

  unfoldable pub run : List (Event F) → Store → Store
  unfolding handle_node_live
  run [] s = s
  run (v ∷ vs) s = run vs (handled v s)

  -- Between the two round trips of a request no other one of its node is executed.
  abbrev pub Unraced : List (Event F) → Store → Type 0
  Unraced [] s = Unit
  Unraced (v ∷ vs) s = IsCurrent v.now v.node v.cursor s × Unraced vs (handled v s)

  run_from :
      (vs : List (Event F)) (s : Store) → Unraced vs s → IsConsistent s → IsConsistent (run vs s)
  unfolding run
  run_from [] s u h = h
  run_from (v ∷ vs) s u h = run_from vs (handled v s) u.1 (handled-IsConsistent v s u.0 h)

  -- Over any requests, also refused and failing ones, if no request of a node is executed between the
  -- two round trips of another one of the same node, the list of each node holds at most RingSize
  -- lines, whose ids are positive and strictly growing, and the cursor is the id of the last, kept
  -- until the same time.
  pub run-IsConsistent :
      (vs : List (Event F)) → Unraced vs empty_store → IsConsistent (run vs empty_store)
  run-IsConsistent vs u = run_from vs empty_store u (λ node. tt)
