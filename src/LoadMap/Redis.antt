-- ===== src/LoadMap/Redis.antt =====
-- `Read` of internal/loadmap/redis.go over the replies of Redis. A port written in two ways in one
-- hash is read in the order of the hash.
use rapido_go.Prelude.{
  ℕ, ℤ, pos, pos_part, ltb_ℤ, leb_ℤ, int_eq, Bool, true, false, not, ◌||◌, Option, none, some, [],
  ◌∷◌, Assoc, insert, if◌then◌else◌,
}
use rapido_go.Prelude.Bytes.{Bytes}
use rapido_go.Mysqldump.Literal.{parse_int}
use rapido_go.LoadMap.Fleet.{NodePresence, PresenceData, no_data, is_nil}

-- The answer to a GET: a text, redis.Nil, or an error.
pub data Reply : Type 0 where
  value : Bytes → Reply
  missing : Reply
  failed : Reply

-- The answers for one node; none for a hash that could not be read.
pub record NodeReply : Type 0 where
  pub total : Reply
  pub ports : Option (Assoc Bytes Bytes)

abbrev pub put_port : Option ℤ → Option ℤ → Assoc ℤ ℕ → Assoc ℤ ℕ
put_port none conns m = m
put_port (some port) none m = m
put_port (some port) (some conns) m =
    if leb_ℤ port (pos 0) || ltb_ℤ conns (pos 0) then m else insert port (pos_part conns) m

-- The loop over the fields of a hash.
abbrev pub read_ports : Assoc Bytes Bytes → Assoc ℤ ℕ → Assoc ℤ ℕ
read_ports [] m = m
read_ports ((field, conns) ∷ raw) m =
    read_ports raw (put_port (parse_int field) (parse_int conns) m)

abbrev pub positive_total : Option ℤ → ℕ
positive_total none = 0
positive_total (some total) = pos_part total

abbrev pub presence_with : Reply → Assoc Bytes Bytes → Option NodePresence
presence_with failed raw = none
presence_with missing raw =
    some (record { reporting = not (is_nil raw); ports = read_ports raw []; total = 0 })
presence_with (value total) raw = some (record {
  reporting = true;
  ports = read_ports raw [];
  total = positive_total (parse_int total);
})

abbrev pub presence_from : Reply → Option (Assoc Bytes Bytes) → Option NodePresence
presence_from total none = none
presence_from total (some raw) = presence_with total raw

abbrev pub put_node : ℤ → Option NodePresence → Assoc ℤ NodePresence → Assoc ℤ NodePresence
put_node id none m = m
put_node id (some np) m = insert id np m

-- The loop over the nodes.
abbrev pub read_nodes : Assoc ℤ NodeReply → Assoc ℤ NodePresence → Assoc ℤ NodePresence
read_nodes [] m = m
read_nodes ((id, r) ∷ rs) m = read_nodes rs (put_node id (presence_from r.total r.ports) m)

-- `Read`; `live` is none where the pipeline or its first answer failed.
unfoldable pub read : Option Bool → Assoc ℤ NodeReply → Option PresenceData
read none replies = none
read (some false) replies = some no_data
read (some true) replies = some (record { live = true; nodes = read_nodes replies [] })
