-- ===== src/LoadMap/Tests.antt =====
-- A small fleet, and its load.
use rapido_go.Prelude.{
  ◌+◌, ◌*◌, ◌≤◌, ◌<◌, ℤ, pos, ◌-ℤ◌, true, false, int_eq, string_eq, none, some, List, [], ◌∷◌, All,
  if◌then◌else◌, ◌≡◌, ◌≢◌, refl, arith,
}
use rapido_go.LoadMap.Level.{free, percent, percent-le, percent_nearest, level_for}
use rapido_go.LoadMap.Fleet.{
  total_of, Node, Host, NodePresence, PresenceData, serves, insert_node, active_nodes,
}
use rapido_go.LoadMap.Compute.{HostLoad, home_nodes, serving, candidates, compute, matching, fill}
use rapido_go.LoadMap.Compute.Figures.{
  compute-percent, compute_even, compute_few, port_share, node_share,
}
use rapido_go.LoadMap.Dns.{new_cache}
use rapido_go.LoadMap.Dns.Refresh.{Event, asks, answers, IsSingle, run, run_lookups}
use rapido_go.LoadMap.Cache.{MapState, IsTimely, request, request_lem}
use rapido_go.Prelude.Bytes.{bytes}
use rapido_go.LoadMap.Redis.{read, missing}
use rapido_go.LoadMap.Build.{
  Answers, build, load_for, load_of, read_presence, unknown_load, is_info, uses_load_variable,
}
use rapido_go.LoadMap.Build.Index.{nodes_of, load_for-build}

abbrev node : ℤ → Node
node id = record {
  id = id;
  name = "n";
  address = "10.0.0.1";
  status = "connected";
  capacity = pos 0;
  inbound_tags = [];
  listen_ports = [];
}

abbrev six : List Node
six = node (pos 1) ∷ node (pos 2) ∷ node (pos 3) ∷ node (pos 4) ∷ node (pos 5) ∷ node (pos 6) ∷ []

-- A node that is over its capacity and carries one connection on the port.
abbrev crowded : NodePresence
crowded = record { reporting = true; ports = (pos 443, 1) ∷ []; total = 20000 }

abbrev reports : PresenceData
reports = record {
  live = true;
  nodes =
      (pos 1, crowded)
      ∷ (pos 2, crowded)
      ∷ (pos 3, crowded)
      ∷ (pos 4, crowded)
      ∷ (pos 5, crowded)
      ∷ (pos 6, crowded)
      ∷ [];
}

abbrev host : Host
host = record {
  id = pos 9;
  remark = "DE";
  address = "de.example";
  port = pos 443;
  inbound_tag = "vless";
}

abbrev loaded : List Node → HostLoad
loaded nodes = compute (pos 10000) (λ id. []) [] host nodes reports (unknown_load host)

abbrev pair : List Node
pair = node (pos 1) ∷ node (pos 2) ∷ []

served_six : candidates reports host six ≢ []
unfolding serves
served_six = λ e. cc

served_two : candidates reports host pair ≢ []
unfolding serves
served_two = λ e. cc

compute_even_example :
    ((loaded six).known ≡ true)
    × ((loaded six).percent ≡ 0)
    × ((loaded six).level ≡ free)
    × ((loaded six).node_ids ≡ [])
unfolding serves serving matching
compute_even_example =
    compute_even (pos 10000) (λ id. []) [] host six reports (unknown_load host) served_six
      (omega arith) (omega arith)

compute_few_example : (loaded pair).node_ids ≢ []
unfolding serves serving matching
compute_few_example =
    compute_few (pos 10000) (λ id. []) [] host pair reports (unknown_load host) served_two
      (omega arith)

compute-percent_example :
    ((loaded pair).percent ≤ 100)
    × ((loaded pair).percent ≤ 100)
    × All
        (λ n.
          port_share (pos 10000) (λ id. []) [] host pair reports (unknown_load host) served_two n
          ≤ (loaded pair).percent)
        (home_nodes reports (pos 443) (serving (λ id. []) [] host pair reports))
    × All
        (λ n.
          node_share (pos 10000) (λ id. []) [] host pair reports (unknown_load host) served_two n
          ≤ (loaded pair).percent)
        (home_nodes reports (pos 443) (serving (λ id. []) [] host pair reports))
unfolding serves serving matching home_nodes total_of
compute-percent_example =
    compute-percent (pos 10000) (λ id. []) [] host pair reports (unknown_load host) served_two 100
      (percent-le 1 (pos 10000), (percent-le 1 (pos 10000), tt))
      (percent-le 20000 (pos 10000), (percent-le 20000 (pos 10000), tt))

abbrev asked : List Event
asked =
    asks "de.example" (pos 1)
    ∷ asks "de.example" (pos 2)
    ∷ answers "de.example" true [] (pos 3)
    ∷ asks "de.example" (pos 4)
    ∷ []

run_lookups_example : IsSingle (run (λ s. none) new_cache asked)
run_lookups_example = run_lookups (λ s. none) asked

percent_nearest_example :
    (2 * 300 * percent 100 (pos 300) ≤ 200 * 100 + 300)
    × (200 * 100 + 300 < 2 * 300 * (percent 100 (pos 300) + 1))
percent_nearest_example = percent_nearest 100 (pos 300) (omega arith)

abbrev cached : MapState ℤ
cached = record { snap = some (pos 7); flight = false; started = 0; ended = 0 }

request_lem_example :
    IsTimely (λ at. at) (pos 3) (pos 7) (pos 9 -ℤ pos 7) (request (λ at. at) (pos 3) cached (pos 9))
request_lem_example = request_lem (λ at. at) (pos 3) cached (pos 9) (pos 7) refl

abbrev info : Host
info = record { id = pos 8; remark = "{DATA_LEFT}"; address = ""; port = pos 0; inbound_tag = "" }

abbrev answered : Answers
answered = record {
  default = pos 10000;
  now = pos 1;
  hosts = some (info ∷ host ∷ []);
  nodes = some pair;
  presence = some (λ ids. some reports);
  node_ips = λ id. [];
  host_ips = λ address. [];
}

load_for-build_example :
    All
      (λ h. load_for (build answered) h.id ≡ (
        if is_info h.remark
        then none
        else some
            (load_of answered (nodes_of answered) (read_presence answered (nodes_of answered)) h)))
      (info ∷ host ∷ [])
load_for-build_example =
    load_for-build answered (info ∷ host ∷ []) refl ((λ e. ground (arith, e), tt), (tt, tt))

-- The info host is left out, and the crowded pair is full.
built : (load_for (build answered) (pos 8) ≡ none) × ((loaded pair).percent ≡ 100)
unfolding build load_for is_info uses_load_variable load_of compute serving matching fill serves
    active_nodes insert_node percent level_for home_nodes total_of
built = (refl, refl)

-- A node without a total key that has ports is reporting; a port below one is left out.
ports_read :
    read (some true) (
      (
        pos 1,
        record {
          total = missing;
          ports = some ((bytes "443", bytes "7") ∷ (bytes "0", bytes "9") ∷ []);
        },
      )
      ∷ [])
    ≡ some (record {
      live = true;
      nodes = (pos 1, record { reporting = true; ports = (pos 443, 7) ∷ []; total = 0 }) ∷ [];
    })
unfolding read
ports_read = refl
