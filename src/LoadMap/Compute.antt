-- ===== src/LoadMap/Compute.antt =====
-- `compute` of internal/loadmap/loadmap.go: the load of one host. What the DNS cache answers for
-- the nodes and for the host comes in as sets.
pub mod Home
pub mod Figures
use rapido_go.Prelude.{
  ℕ, ◌+◌, ◌*◌, max, ℤ, pos, ltb_ℤ, String, Bool, true, false, not, ◌&&◌, ◌||◌, Option, none, some,
  List, [], ◌∷◌, map, any, select, lookup, int_eq, ltb, leb, if◌then◌else◌,
}
use rapido_go.LoadMap.Level.{Level, unknown, level_for, percent}
use rapido_go.LoadMap.Fleet.{
  Node, Host, NodePresence, no_presence, PresenceData, total_of, conns_on, count_of, serves,
  overlaps, is_nil,
}

pub record HostLoad : Type 0 where
  pub host_id : ℤ
  pub remark : String
  pub address : String
  pub port : ℤ
  pub known : Bool
  pub conns : ℕ
  pub port_percent : ℕ
  pub node_percent : ℕ
  pub percent : ℕ
  pub level : Level
  pub node_ids : List ℤ
  pub uses_load : Bool

abbrev pub home_share_divisor : ℕ
home_share_divisor = 5

-- `capacityOf`, without the name of the source.
abbrev pub capacity_of : ℤ → Node → ℤ
capacity_of default n = if ltb_ℤ n.capacity (pos 1) then default else n.capacity

abbrev pub is_some {ℓ} : {A : Type ℓ} → Option A → Bool
is_some none = false
is_some (some a) = true

abbrev pub presence_or : Option NodePresence → NodePresence
presence_or none = no_presence
presence_or (some np) = np

-- data.Nodes[n.ID]
abbrev pub presence_of : PresenceData → Node → NodePresence
presence_of d n = presence_or (lookup n.id d.nodes)

abbrev pub is_candidate : PresenceData → Host → Node → Bool
is_candidate d h n =
    let np = presence_of d n in np.reporting && (is_some (lookup h.port np.ports) || serves n h)

abbrev pub candidates : PresenceData → Host → List Node → List Node
candidates d h nodes = select (is_candidate d h) nodes

abbrev pub or_all : List Node → List Node → List Node
or_all all matched = if is_nil matched then all else matched

-- The candidates whose own address is the host's, or all where none has it.
unfoldable pub matching : (ℤ → List String) → List String → List Node → List Node
matching node_ips host_ips all =
    if is_nil host_ips
    then all
    else or_all all (select (λ n. overlaps host_ips (node_ips n.id)) all)

abbrev pub conns_at : PresenceData → ℤ → Node → ℕ
conns_at d port n = conns_on (presence_of d n) port

abbrev pub sum_conns : PresenceData → ℤ → List Node → ℕ
sum_conns d port [] = 0
sum_conns d port (n ∷ ns) = conns_at d port n + sum_conns d port ns

-- The nodes that carry a fifth of the port's connections, or all while it is idle.
unfoldable pub home_nodes : PresenceData → ℤ → List Node → List Node
home_nodes d port nodes =
    let sum = sum_conns d port nodes in
    if ltb 0 sum
    then select (λ n. leb sum (conns_at d port n * home_share_divisor)) nodes
    else nodes

-- The busiest share of a capacity.
abbrev pub busiest : ℤ → (Node → ℕ) → List Node → ℕ
busiest default f [] = 0
busiest default f (n ∷ ns) = max (percent (f n) (capacity_of default n)) (busiest default f ns)

unfoldable pub fill : ℤ → PresenceData → ℤ → List Node → HostLoad → HostLoad
fill default d port nodes hl =
    let home = home_nodes d port nodes in
    let port_percent = busiest default (conns_at d port) home in
    let node_percent = busiest default (λ n. total_of (presence_of d n)) home in
    record hl {
      known = true;
      conns = sum_conns d port nodes;
      port_percent = port_percent;
      node_percent = node_percent;
      percent = max port_percent node_percent;
      level = level_for (max port_percent node_percent);
      node_ids = map (λ n. n.id) home;
    }

-- The nodes that serve a host.
unfoldable pub serving :
    (ℤ → List String) → List String → Host → List Node → PresenceData → List Node
unfolding matching
serving node_ips host_ips h nodes d = matching node_ips host_ips (candidates d h nodes)

-- `compute`: nothing is known where no node serves the host.
unfoldable pub compute :
    ℤ → (ℤ → List String) → List String → Host → List Node → PresenceData → HostLoad → HostLoad
compute default node_ips host_ips h nodes d hl =
    if is_nil (candidates d h nodes)
    then hl
    else fill default d h.port (serving node_ips host_ips h nodes d) hl
