-- ===== src/LoadMap/Compute/Figures.antt =====
-- The figures of a host.
use rapido_go.Prelude.{
  ℕ, ◌≤◌, ◌<◌, max, ℤ, String, true, false, List, [], ◌∷◌, map, length, select, All, ◌≡◌, ◌≢◌, refl,
  arith,
}
use rapido_go.LoadMap.Level.{free, level_for, percent, percent-le}
use rapido_go.LoadMap.Fleet.{Node, Host, PresenceData, total_of, is_nil, overlaps}
use rapido_go.LoadMap.Compute.{
  HostLoad, home_share_divisor, conns_at, sum_conns, home_nodes, busiest, fill, compute, serving,
  candidates, capacity_of, presence_of, matching, or_all,
}
use rapido_go.LoadMap.Compute.Home.{IsMinor, home_nodes_none, home_nodes-ne-nil}

module _ (default : ℤ) (f : Node → ℕ) where
  abbrev pub share : Node → ℕ
  share n = percent (f n) (capacity_of default n)

  busiest-le : (ns : List Node) → busiest default f ns ≤ 100
  busiest-le [] = omega arith
  busiest-le (n ∷ ns) = omega (arith, percent-le (f n) (capacity_of default n), busiest-le ns)

  All-raise :
      (a b : ℕ) (ns : List Node) → a ≤ b → All (λ n. share n ≤ a) ns → All (λ n. share n ≤ b) ns
  All-raise a b [] h k = tt
  All-raise a b (n ∷ ns) h k = (omega (arith, k.0), All-raise a b ns h k.1)

  le-busiest : (ns : List Node) → All (λ n. share n ≤ busiest default f ns) ns
  le-busiest [] = tt
  le-busiest (n ∷ ns) = (
    omega arith,
    All-raise (busiest default f ns) (busiest default f (n ∷ ns)) ns (omega arith) (le-busiest ns),
  )

  busiest_least : (b : ℕ) (ns : List Node) → All (λ n. share n ≤ b) ns → busiest default f ns ≤ b
  busiest_least b [] h = omega arith
  busiest_least b (n ∷ ns) h = omega (arith, h.0, busiest_least b ns h.1)

is_nil-false : (ns : List Node) → ns ≢ [] → is_nil ns ≡ false
is_nil-false [] ne = absurd (ne refl)
is_nil-false (n ∷ ns) ne = refl

map-ne-nil : (ns : List Node) → ns ≢ [] → map (λ (n : Node). n.id) ns ≢ []
map-ne-nil [] ne = absurd (ne refl)
map-ne-nil (n ∷ ns) ne = λ e. cc

or_all-ne-nil : (all matched : List Node) → all ≢ [] → or_all all matched ≢ []
or_all-ne-nil all [] ne = ne
or_all-ne-nil all (n ∷ ns) ne = λ e. cc

matching-ne-nil :
    (node_ips : ℤ → List String) (host_ips : List String) (all : List Node)
    → all ≢ []
    → matching node_ips host_ips all ≢ []
unfolding matching
matching-ne-nil node_ips [] all ne = ne
matching-ne-nil node_ips (ip ∷ host_ips) all ne =
    or_all-ne-nil all (select (λ n. overlaps (ip ∷ host_ips) (node_ips n.id)) all) ne

module _ (default : ℤ) (node_ips : ℤ → List String) (host_ips : List String) (h : Host)
    (nodes : List Node) (d : PresenceData) (hl : HostLoad)
    (served : candidates d h nodes ≢ []) where
  abbrev load : HostLoad
  load = compute default node_ips host_ips h nodes d hl

  abbrev servers : List Node
  servers = serving node_ips host_ips h nodes d

  computed : load ≡ fill default d h.port servers hl
  unfolding compute
  computed = rw (is_nil-false (candidates d h nodes) served) refl

  servers-ne-nil : servers ≢ []
  unfolding serving
  servers-ne-nil = matching-ne-nil node_ips host_ips (candidates d h nodes) served

  -- The shares that the port's connections and that all connections take of a node's capacity.
  abbrev pub port_share : Node → ℕ
  port_share n = percent (conns_at d h.port n) (capacity_of default n)

  abbrev pub node_share : Node → ℕ
  node_share n = percent (total_of (presence_of d n)) (capacity_of default n)

  -- The percent of a host that some node serves is at most 100, at least the share that the port's
  -- connections and that all connections take of each home node's capacity, and no greater than
  -- any number that is at least all of these shares.
  pub compute-percent :
      (b : ℕ)
      → All (λ n. port_share n ≤ b) (home_nodes d h.port servers)
      → All (λ n. node_share n ≤ b) (home_nodes d h.port servers)
      → (load.percent ≤ 100)
        × (load.percent ≤ b)
        × All (λ n. port_share n ≤ load.percent) (home_nodes d h.port servers)
        × All (λ n. node_share n ≤ load.percent) (home_nodes d h.port servers)
  unfolding fill
  compute-percent b p q =
      let home : List Node = home_nodes d h.port servers in
      let fp : Node → ℕ = conns_at d h.port in
      let fn : Node → ℕ = λ n. total_of (presence_of d n) in
      let bp : ℕ = busiest default fp home in
      let bn : ℕ = busiest default fn home in
      rw computed (
        omega (arith, busiest-le default fp home, busiest-le default fn home),
        omega (arith, busiest_least default fp b home p, busiest_least default fn b home q),
        All-raise default fp bp (max bp bn) home (omega arith) (le-busiest default fp home),
        All-raise default fn bn (max bp bn) home (omega arith) (le-busiest default fn home),
      )

  -- A host that some node serves, up to five of them once addresses are matched, has a home node.
  pub compute_few : length servers ≤ home_share_divisor → load.node_ids ≢ []
  unfolding fill
  compute_few few = rw computed (
      map-ne-nil (home_nodes d h.port servers)
        (home_nodes-ne-nil d h.port servers servers-ne-nil few))

  -- Where some node that serves a host carries a connection on its port and each of them carries
  -- less than a fifth of the port's connections, the host is reported as known, free and at 0
  -- percent, whatever the loads of the nodes are.
  pub compute_even :
      0 < sum_conns d h.port servers
      → All (IsMinor d h.port (sum_conns d h.port servers)) servers
      → (load.known ≡ true) × (load.percent ≡ 0) × (load.level ≡ free) × (load.node_ids ≡ [])
  unfolding fill level_for
  compute_even busy minor =
      rw computed (rw (home_nodes_none d h.port servers busy minor) (refl, refl, refl, refl))
