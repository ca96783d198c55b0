-- ===== src/NodeLive.antt =====
-- internal/httpapi/nodelive.go: a node reports who is connected, its open connections and its log
-- lines, which the panel keeps in Redis. Redis is an environment: it keeps each key until a time in
-- milliseconds, and executes a transaction whole or not at all.
pub mod Lines
pub mod Logs
pub mod Stored
pub mod Resent
pub mod Online
pub mod History
pub mod Flags
pub mod Tests
use rapido_go.Prelude.{
  ℕ, ◌+◌, ◌*◌, ℤ, pos, int_eq, ◌+ℤ◌, int64, leb_ℤ, ltb_ℤ, String, string_eq, Bool, true, false, not,
  ◌&&◌, ◌||◌, ◌==◌, Option, none, some, List, [], ◌∷◌, ◌++◌, keep_last, ltb, if◌then◌else◌, Assoc,
  lookup, insert, erase,
}
use rapido_go.Prelude.Bytes.{Bytes, bytes_eq}
use rapido_go.Mysqldump.Literal.{parse_int}
use rapido_go.Logstream.Ring.{Entry, clip, ring_size}
use rapido_go.Logstream.Level.{normalize_level}
use rapido_go.NodeLive.Lines.{NodeLog, prepare_node_logs}
use rapido_go.Logstream.Publisher.{pipeline, execute_all}

-- A value of JSON in a pair of a user and the open connections.
pub data Cell (F : Type 0) : Type 0 where
  name : Bytes → Cell F
  number : F → Cell F
  other : Cell F

-- `nodeLiveRequest`
pub record Request (F : Type 0) : Type 0 where
  pub conns_total : ℤ
  pub port_conns : Assoc Bytes ℤ
  pub online : List (List (Cell F))
  pub logs : List NodeLog

-- What a key holds, and until when.
pub record Kept (A : Type 0) : Type 0 where
  pub held : A
  pub until : ℕ

-- The keys of presence.go and those of the logs of the nodes.
pub record Store : Type 0 where
  pub users : Assoc Bytes ℕ
  pub live : Option ℕ
  pub ports : Assoc ℤ (Kept (Assoc Bytes ℤ))
  pub totals : Assoc ℤ (Kept ℤ)
  pub logs : Assoc ℤ (Kept (List Entry))
  pub seqs : Assoc ℤ (Kept ℤ)

abbrev pub presence_key_ttl : ℕ
presence_key_ttl = 20 * 1000

abbrev pub node_log_ttl : ℕ
node_log_ttl = 7 * 24 * 3600 * 1000

abbrev pub if_kept : {A : Type 0} → ℕ → Option (Kept A) → Option A
if_kept now none = none
if_kept now (some k) = if ltb now k.until then some k.held else none

-- GET of a key.
abbrev pub read_key : {A : Type 0} → ℕ → ℤ → Assoc ℤ (Kept A) → Option A
read_key now id m = if_kept now (lookup id m)

-- A row of `online`: an error, nobody connected, or a user.
pub data Seen : Type 0 where
  bad : Seen
  skipped : Seen
  seen : Bytes → Seen

abbrev pub seen_name : Bytes → Seen
seen_name [] = skipped
seen_name (c ∷ s) = seen (c ∷ s)

abbrev pub add_seen : Seen → Option (List Bytes) → Option (List Bytes)
add_seen bad rest = none
add_seen skipped rest = rest
add_seen (seen u) none = none
add_seen (seen u) (some us) = some (u ∷ us)

-- `positive` is the test that a float is above zero.
module _ {F : Type 0} (positive : F → Bool) where
  unfoldable pub row_seen : List (Cell F) → Seen
  row_seen [] = bad
  row_seen (name u ∷ []) = seen_name u
  row_seen (name u ∷ number n ∷ rest) = if positive n then seen_name u else skipped
  row_seen (name u ∷ name v ∷ rest) = bad
  row_seen (name u ∷ other ∷ rest) = bad
  row_seen (number n ∷ rest) = bad
  row_seen (other ∷ rest) = bad

  -- The users that a request lists, none where a row is refused.
  unfoldable pub members : List (List (Cell F)) → Option (List Bytes)
  unfolding row_seen
  members [] = some []
  members (r ∷ rows) = add_seen (row_seen r) (members rows)

-- The loop over `req.PortConns`.
abbrev pub is_port : Option ℤ → Bool
is_port none = false
is_port (some p) = leb_ℤ (pos 1) p && leb_ℤ p (pos 65535)

unfoldable pub valid_ports : Assoc Bytes ℤ → Assoc Bytes ℤ
valid_ports [] = []
valid_ports ((port, n) ∷ ports) =
    let rest = valid_ports ports in
    if is_port (parse_int port) && leb_ℤ (pos 1) n then (port, n) ∷ rest else rest

unfoldable pub port_sum : Assoc Bytes ℤ → ℤ
port_sum [] = pos 0
port_sum ((port, n) ∷ ports) = int64 (n +ℤ port_sum ports)

abbrev pub total_of : ℤ → Assoc Bytes ℤ → ℤ
total_of conns_total ports = if leb_ℤ conns_total (pos 0) then port_sum ports else conns_total

-- ZADD of all listed users; a later one of the same name has the same score.
unfoldable pub add_members : ℕ → List Bytes → Assoc Bytes ℕ → Assoc Bytes ℕ
add_members now [] m = m
add_members now (u ∷ us) m = add_members now us (insert u now m)

abbrev pub put_ports :
    ℕ → ℤ → Assoc Bytes ℤ → Assoc ℤ (Kept (Assoc Bytes ℤ)) → Assoc ℤ (Kept (Assoc Bytes ℤ))
put_ports now node [] m = erase node m
put_ports now node (p ∷ ports) m =
    insert node (record { held = p ∷ ports; until = now + presence_key_ttl }) m

-- newLogs[len(newLogs)-1].ID
abbrev pub last_id : ℤ → List Entry → ℤ
last_id d [] = d
last_id d (e ∷ es) = last_id e.id es

abbrev pub or_empty_list : Option (List Entry) → List Entry
or_empty_list none = []
or_empty_list (some es) = es

abbrev pub or_zero : Option ℤ → ℤ
or_zero none = pos 0
or_zero (some v) = v

abbrev pub put_logs : ℕ → ℤ → List Entry → Store → Store
put_logs now node [] s = s
put_logs now node (e ∷ es) s = record s {
  logs =
      insert node
        (record {
          held = execute_all (pipeline (e ∷ es)) (or_empty_list (read_key now node s.logs));
          until = now + node_log_ttl;
        })
        s.logs;
  seqs = insert node (record { held = last_id e.id es; until = now + node_log_ttl }) s.seqs;
}

-- The transaction.
unfoldable pub commit : ℕ → ℤ → List Bytes → Assoc Bytes ℤ → ℤ → List Entry → Store → Store
unfolding add_members
commit now node users ports total logs s = put_logs now node logs (record s {
  users = add_members now users s.users;
  live = some (now + presence_key_ttl);
  ports = put_ports now node ports s.ports;
  totals = insert node (record { held = total; until = now + presence_key_ttl }) s.totals;
})

-- `nodeLiveResponse`
pub record Response : Type 0 where
  pub log_stream : Bool
  pub log_after : ℤ
  pub interval_ms : ℕ

pub data Answer : Type 0 where
  unprocessable : Answer
  unavailable : Answer
  done : Response → Answer

-- Whether the read of the cursor works, whether the transaction is executed, and whether its answer
-- arrives.
pub record Fate : Type 0 where
  pub reads : Bool
  pub executes : Bool
  pub answers : Bool

abbrev pub respond : Bool → Option ℤ → Response
respond watched seq = record {
  log_stream = watched;
  log_after = or_zero seq;
  interval_ms = if watched then 1000 else 5000;
}

abbrev pub is_nil {ℓ} : {A : Type ℓ} → List A → Bool
is_nil [] = true
is_nil (a ∷ rest) = false

module _ {F : Type 0} (positive : F → Bool) (fold : String → String) (ts_from_id : ℤ → String) where
  -- The entries to store: with no lines the cursor is not read.
  abbrev pub to_store : List NodeLog → Option ℤ → List Entry
  to_store [] stored = []
  to_store (l ∷ logs) stored = prepare_node_logs fold ts_from_id (l ∷ logs) (or_zero stored)

  abbrev pub answered : Fate → Bool → ℕ → ℤ → Store → Store × Answer
  answered fate watched now node s =
      (s, if fate.answers then done (respond watched (read_key now node s.seqs)) else unavailable)

  abbrev pub handle_members :
      Fate → Bool → ℕ → ℤ → Option ℤ → Request F → Store → Option (List Bytes) → Store × Answer
  handle_members fate watched now node cursor req s none = (s, unprocessable)
  handle_members fate watched now node cursor req s (some users) =
      if not (is_nil req.logs) && not fate.reads
      then (s, unavailable)
      else if fate.executes
      then answered fate watched now node (
          commit now node users (valid_ports req.port_conns)
            (total_of req.conns_total (valid_ports req.port_conns)) (to_store req.logs cursor) s)
      else (s, unavailable)

  -- `handleNodeLive` from what its GET of the cursor gave, which reads Redis before, in a round trip of
  -- its own: other requests may be executed between that and the transaction, at `now`.
  unfoldable pub handle_node_live :
      Fate → Bool → ℕ → ℤ → Option ℤ → Request F → Store → Store × Answer
  unfolding members valid_ports port_sum prepare_node_logs commit
  handle_node_live fate watched now node cursor req s =
      handle_members fate watched now node cursor req s (members positive req.online)

  -- Both round trips, with nothing between them.
  abbrev pub handle_alone : Fate → Bool → ℕ → ℤ → Request F → Store → Store × Answer
  handle_alone fate watched now node req s =
      handle_node_live fate watched now node (read_key now node s.seqs) req s
