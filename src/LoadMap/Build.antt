-- ===== src/LoadMap/Build.antt =====
-- `build` and `For` of internal/loadmap/loadmap.go. What Inventory, Presence and the DNS cache
-- answer comes in, with none for an error.
pub mod Index
use text.Mathlib.Text.{find?}
use rapido_go.Prelude.{
  ℕ, ℤ, pos, ltb_ℤ, String, Bool, true, false, not, ◌&&◌, ◌||◌, ◌==◌, string_eq, int_eq, Option,
  none, some, List, [], ◌∷◌, ◌++◌, map, length, get_or, Assoc, lookup, insert, any, if◌then◌else◌,
}
use rapido_go.LoadMap.Level.{Level, unknown, percent}
use rapido_go.LoadMap.Fleet.{
  Node, Host, NodePresence, PresenceData, no_data, total_of, active_nodes, is_nil,
}
use rapido_go.LoadMap.Compute.{HostLoad, compute, capacity_of, is_some}

-- strings.Contains
abbrev pub contains : String → String → Bool
contains s sub = is_some (find? s sub)

-- `UsesLoadVariable`
unfoldable pub uses_load_variable : String → Bool
uses_load_variable s = contains s "{LOAD"

-- `IsInfo`
unfoldable pub is_info : String → Bool
unfolding uses_load_variable
is_info remark = contains remark "{" && not (uses_load_variable remark)

pub data CapacitySource : Type 0 where
  from_node : CapacitySource
  from_default : CapacitySource

pub record NodeLoad : Type 0 where
  pub id : ℤ
  pub name : String
  pub conns : ℕ
  pub capacity : ℤ
  pub capacity_source : CapacitySource
  pub percent : ℕ

pub record Snapshot : Type 0 where
  pub at : ℤ
  pub live : Bool
  pub capacity : ℤ
  pub hosts : List HostLoad
  pub nodes : List NodeLoad
  pub by_id : Assoc ℤ ℕ
  pub known : Bool

-- `emptySnapshot`
abbrev pub empty_snapshot : ℤ → ℤ → Snapshot
empty_snapshot capacity at = record {
  at = at;
  live = false;
  capacity = capacity;
  hosts = [];
  nodes = [];
  by_id = [];
  known = false;
}

-- The load of a host of which nothing is known.
abbrev pub unknown_load : Host → HostLoad
unknown_load h = record {
  host_id = h.id;
  remark = h.remark;
  address = h.address;
  port = h.port;
  known = false;
  conns = 0;
  port_percent = 0;
  node_percent = 0;
  percent = 0;
  level = unknown;
  node_ids = [];
  uses_load = uses_load_variable h.remark;
}

abbrev pub no_load : HostLoad
no_load =
    unknown_load (record { id = pos 0; remark = ""; address = ""; port = pos 0; inbound_tag = "" })

pub record Answers : Type 0 where
  pub default : ℤ  -- m.cfg.Capacity
  pub now : ℤ
  pub hosts : Option (List Host)
  pub nodes : Option (List Node)
  pub presence : Option (List ℤ → Option PresenceData)
  pub node_ips : ℤ → List String
  pub host_ips : String → List String

abbrev pub or_none {ℓ} : {A : Type ℓ} → Option (List A) → List A
or_none none = []
or_none (some xs) = xs

abbrev pub data_of : Option PresenceData → PresenceData
data_of none = no_data
data_of (some d) = d

abbrev pub read_with : Option (List ℤ → Option PresenceData) → List ℤ → PresenceData
read_with none ids = no_data
read_with (some read) ids = data_of (read ids)

-- What is read for the nodes, if there are any.
abbrev pub read_presence : Answers → List Node → PresenceData
read_presence a nodes =
    if is_nil nodes then no_data else read_with a.presence (map (λ n. n.id) nodes)

-- `capacityOf`
abbrev pub source_of : Node → CapacitySource
source_of n = if ltb_ℤ n.capacity (pos 1) then from_default else from_node

abbrev pub node_load : ℤ → Node → NodePresence → NodeLoad
node_load default n np = record {
  id = n.id;
  name = n.name;
  conns = total_of np;
  capacity = capacity_of default n;
  capacity_source = source_of n;
  percent = percent (total_of np) (capacity_of default n);
}

abbrev pub with_load : ℤ → Node → Option NodePresence → List NodeLoad → List NodeLoad
with_load default n none ls = ls
with_load default n (some np) ls = if np.reporting then node_load default n np ∷ ls else ls

abbrev pub node_loads : ℤ → PresenceData → List Node → List NodeLoad
node_loads default d [] = []
node_loads default d (n ∷ ns) = with_load default n (lookup n.id d.nodes) (node_loads default d ns)

-- The load of a host, where its port is known and presence is live.
unfoldable pub load_of : Answers → List Node → PresenceData → Host → HostLoad
load_of a nodes d h =
    if d.live && ltb_ℤ (pos 0) h.port
    then compute a.default a.node_ips (a.host_ips h.address) h nodes d (unknown_load h)
    else unknown_load h

abbrev pub add_load : Snapshot → ℤ → HostLoad → Snapshot
add_load s id hl = record s {
  known = s.known || hl.known;
  by_id = insert id (length s.hosts) s.by_id;
  hosts = s.hosts ++ (hl ∷ []);
}

-- One round of the loop over the hosts.
abbrev pub add_host : (Host → HostLoad) → Snapshot → Host → Snapshot
add_host load s h = if is_info h.remark then s else add_load s h.id (load h)

abbrev pub add_hosts : (Host → HostLoad) → Snapshot → List Host → Snapshot
add_hosts load s [] = s
add_hosts load s (h ∷ hs) = add_hosts load (add_host load s h) hs

-- The snapshot before the loop over the hosts.
abbrev pub start_of : Answers → List Node → PresenceData → Snapshot
start_of a nodes d = record (empty_snapshot a.default a.now) {
  live = d.live;
  nodes = if d.live then node_loads a.default d nodes else [];
}

abbrev pub build_hosts : Answers → List Host → Snapshot
build_hosts a hosts =
    let nodes = active_nodes (or_none a.nodes) in
    let d = read_presence a nodes in add_hosts (load_of a nodes d) (start_of a nodes d) hosts

abbrev pub build_from : Answers → Option (List Host) → Snapshot
build_from a none = empty_snapshot a.default a.now
build_from a (some hosts) = build_hosts a hosts

-- `build`
unfoldable pub build : Answers → Snapshot
build a = build_from a a.hosts

abbrev pub at_index : Snapshot → Option ℕ → Option HostLoad
at_index s none = none
at_index s (some i) = some (get_or s.hosts i no_load)

-- `For`; an index that the map holds is in range.
unfoldable pub load_for : Snapshot → ℤ → Option HostLoad
load_for s id = at_index s (lookup id s.by_id)
