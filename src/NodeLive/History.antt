-- ===== src/NodeLive/History.antt =====
-- What any requests to internal/httpapi/nodelive.go leave of the keys of presence.
use rapido_go.Prelude.{
  ℕ, ◌+◌, ℤ, int_eq, String, Bool, true, false, not, ◌&&◌, ◌==◌, Option, none, some, List, [], ◌∷◌,
  any, if◌then◌else◌, ◌≡◌, refl, ap, ap₂, ◌∙◌, arith, Assoc, lookup, insert, lookup-insert,
}
use rapido_go.Prelude.Bytes.{Bytes, bytes_eq}
use rapido_go.Logstream.Ring.{Entry}
use rapido_go.NodeLive.{
  Kept, Store, commit, add_members, Answer, unavailable, is_nil, members, valid_ports, total_of,
  to_store, handle_members, handle_node_live, presence_key_ttl, if_kept,
}
use rapido_go.NodeLive.Stored.{Event, empty_store, handled, run}
use rapido_go.NodeLive.Online.{is_live, is_some, all_report}

abbrev pub lists : Bytes → List Bytes → Bool
lists name users = any (λ u. u == name) users

lookup-add_members :
    (now : ℕ) (name : Bytes) (users : List Bytes) (m : Assoc Bytes ℕ)
    → lookup name (add_members now users m) ≡ (if lists name users then some now else lookup name m)
unfolding add_members
lookup-add_members now name [] m = refl
lookup-add_members now name (u ∷ users) m =
    lookup-add_members now name users (insert u now m)
    ∙ ap (λ o. if lists name users then some now else o) (lookup-insert u name now m)
    ∙ ground arith

-- Until when a node's total is kept.
abbrev pub until_of : Option (Kept ℤ) → Option ℕ
until_of none = none
until_of (some k) = some k.until

reports_now-until :
    (now : ℕ) (o : Option (Kept ℤ)) → is_some (if_kept now o) ≡ is_live now (until_of o)
reports_now-until now none = refl
reports_now-until now (some k) = ground arith

abbrev pub listed : Bytes → Option (List Bytes) → Bool
listed name none = false
listed name (some users) = lists name users

-- The users that an executed request lists, none where the request changes nothing.
module _ {F : Type 0} (positive : F → Bool) where
  pub taken_of : Event F → Option (List Bytes) → Option (List Bytes)
  taken_of v none = none
  taken_of v (some users) =
      if not (is_nil v.req.logs) && not v.fate.reads
      then none
      else if v.fate.executes
      then some users
      else none

  pub taken : Event F → Option (List Bytes)
  unfolding taken_of
  taken v = taken_of v (members positive v.req.online)

  -- The millisecond of the last executed request that lists a user.
  pub last_listed : Bytes → List (Event F) → Option ℕ → Option ℕ
  last_listed name [] o = o
  last_listed name (v ∷ vs) o =
      last_listed name vs (if listed name (taken v) then some v.now else o)

  -- The millisecond up to which the last executed request counts, of any node or of one.
  pub reported_until : List (Event F) → Option ℕ → Option ℕ
  reported_until [] o = o
  reported_until (v ∷ vs) o =
      reported_until vs (if is_some (taken v) then some (v.now + presence_key_ttl) else o)

  pub node_reported_until : ℤ → List (Event F) → Option ℕ → Option ℕ
  node_reported_until id [] o = o
  node_reported_until id (v ∷ vs) o =
      node_reported_until id vs
        (if is_some (taken v) && (v.node == id) then some (v.now + presence_key_ttl) else o)

-- What a request of a node leaves of the keys of presence, where it lists `users` or changes nothing.
abbrev Effect : ℕ → ℤ → Option (List Bytes) → Store → Store → Type 0
Effect now node o s t =
    ((name : Bytes)
      → lookup name t.users ≡ (if listed name o then some now else lookup name s.users))
    × (t.live ≡ (if is_some o then some (now + presence_key_ttl) else s.live))
    × ((id : ℤ)
        → until_of (lookup id t.totals) ≡ (
            if is_some o && (node == id)
            then some (now + presence_key_ttl)
            else until_of (lookup id s.totals)))

until-insert :
    (until : ℕ) (node id total : ℤ) (m : Assoc ℤ (Kept ℤ))
    → until_of (lookup id (insert node (record { held = total; until = until }) m))
      ≡ (if node == id then some until else until_of (lookup id m))
until-insert until node id total m =
    ap until_of (lookup-insert node id (record { held = total; until = until }) m) ∙ ground arith

commit-Effect :
    (now : ℕ) (node : ℤ) (users : List Bytes) (ports : Assoc Bytes ℤ) (total : ℤ) (es : List Entry)
    (s : Store)
    → Effect now node (some users) s (commit now node users ports total es s)
unfolding commit
commit-Effect now node users ports total [] s = (
  λ name. lookup-add_members now name users s.users,
  refl,
  λ id. until-insert (now + presence_key_ttl) node id total s.totals,
)
commit-Effect now node users ports total (e ∷ es) s = (
  λ name. lookup-add_members now name users s.users,
  refl,
  λ id. until-insert (now + presence_key_ttl) node id total s.totals,
)

none-Effect : (now : ℕ) (node : ℤ) (s : Store) → Effect now node none s s
none-Effect now node s = ((λ name. refl), refl, (λ id. refl))

branch-Effect :
    (refused executes : Bool) (now : ℕ) (node : ℤ) (users : List Bytes) (s : Store)
    (r : Store × Answer)
    → Effect now node (some users) s r.0
    → Effect now node
        (if refused then none else if executes then some users else none)
        s
        (if refused then (s, unavailable) else if executes then r else (s, unavailable)).0
branch-Effect true executes now node users s r h = none-Effect now node s
branch-Effect false true now node users s r h = h
branch-Effect false false now node users s r h = none-Effect now node s

module _ {F : Type 0} (positive : F → Bool) (fold : String → String) (ts_from_id : ℤ → String) where
  members-Effect :
      (v : Event F) (s : Store) (o : Option (List Bytes))
      → Effect v.now v.node
          (taken_of positive v o)
          s
          (handle_members positive fold ts_from_id v.fate v.watched v.now v.node v.cursor v.req s
            o).0
  unfolding taken_of
  members-Effect v s none = none-Effect v.now v.node s
  members-Effect v s (some users) =
      branch-Effect (not (is_nil v.req.logs) && not v.fate.reads) v.fate.executes v.now v.node users
        s _
        (commit-Effect v.now v.node users (valid_ports v.req.port_conns)
          (total_of v.req.conns_total (valid_ports v.req.port_conns))
          (to_store positive fold ts_from_id v.req.logs v.cursor) s)

  handled-Effect :
      (v : Event F) (s : Store)
      → Effect v.now v.node (taken positive v) s (handled positive fold ts_from_id v s)
  unfolding handle_node_live taken
  handled-Effect v s = members-Effect v s (members positive v.req.online)

  pub users-run :
      (vs : List (Event F)) (s : Store) (name : Bytes)
      → lookup name (run positive fold ts_from_id vs s).users
        ≡ last_listed positive name vs (lookup name s.users)
  unfolding run last_listed
  users-run [] s name = refl
  users-run (v ∷ vs) s name =
      users-run vs (handled positive fold ts_from_id v s) name
      ∙ ap (last_listed positive name vs) ((handled-Effect v s).0 name)

  pub live-run :
      (vs : List (Event F)) (s : Store)
      → (run positive fold ts_from_id vs s).live ≡ reported_until positive vs s.live
  unfolding run reported_until
  live-run [] s = refl
  live-run (v ∷ vs) s =
      live-run vs (handled positive fold ts_from_id v s)
      ∙ ap (reported_until positive vs) (handled-Effect v s).1

  pub totals-run :
      (vs : List (Event F)) (s : Store) (id : ℤ)
      → until_of (lookup id (run positive fold ts_from_id vs s).totals)
        ≡ node_reported_until positive id vs (until_of (lookup id s.totals))
  unfolding run node_reported_until
  totals-run [] s id = refl
  totals-run (v ∷ vs) s id =
      totals-run vs (handled positive fold ts_from_id v s) id
      ∙ ap (node_reported_until positive id vs) ((handled-Effect v s).2 id)

  -- Every node of a list has reported and still counts.
  abbrev pub all_count : ℕ → List ℤ → List (Event F) → Bool
  all_count now [] vs = true
  all_count now (id ∷ ids) vs =
      let rest = all_count now ids vs in
      is_live now (node_reported_until positive id vs none) && rest

  pub all_report-run :
      (now : ℕ) (ids : List ℤ) (vs : List (Event F))
      → all_report now (run positive fold ts_from_id vs empty_store) ids ≡ all_count now ids vs
  all_report-run now [] vs = refl
  all_report-run now (id ∷ ids) vs =
      let s = run positive fold ts_from_id vs empty_store in
      ap₂ (λ a b. a && b)
        (reports_now-until now (lookup id s.totals)
          ∙ ap (is_live now) (totals-run vs empty_store id))
        (all_report-run now ids vs)
