-- ===== src/LoadMap/Fleet.antt =====
-- Nodes, hosts and what the nodes report, of internal/loadmap/loadmap.go and redis.go.
use rapido_go.Prelude.{
  ℕ, ◌+◌, max, ℤ, leb_ℤ, int_eq, String, Bool, true, false, ◌&&◌, ◌||◌, ◌==◌, string_eq, Option,
  none, some, List, [], ◌∷◌, length, any, Assoc, lookup, ltb, if◌then◌else◌,
}

pub record Node : Type 0 where
  pub id : ℤ
  pub name : String
  pub address : String
  pub status : String
  pub capacity : ℤ
  pub inbound_tags : List String
  pub listen_ports : List ℤ

pub record Host : Type 0 where
  pub id : ℤ
  pub remark : String
  pub address : String
  pub port : ℤ
  pub inbound_tag : String

pub record NodePresence : Type 0 where
  pub reporting : Bool
  pub ports : Assoc ℤ ℕ
  pub total : ℕ

-- The zero value, which a missing key of the map gives.
abbrev pub no_presence : NodePresence
no_presence = record { reporting = false; ports = []; total = 0 }

pub record PresenceData : Type 0 where
  pub live : Bool
  pub nodes : Assoc ℤ NodePresence

abbrev pub no_data : PresenceData
no_data = record { live = false; nodes = [] }

abbrev pub sum_ports : Assoc ℤ ℕ → ℕ
sum_ports [] = 0
sum_ports ((p, n) ∷ m) = n + sum_ports m

-- `NodePresence.total`
unfoldable pub total_of : NodePresence → ℕ
total_of np = max np.total (sum_ports np.ports)

abbrev pub count_of : Option ℕ → ℕ
count_of none = 0
count_of (some n) = n

-- np.Ports[port]
abbrev pub conns_on : NodePresence → ℤ → ℕ
conns_on np port = count_of (lookup port np.ports)

-- A node put into a list sorted by id.
unfoldable pub insert_node : Node → List Node → List Node
insert_node n [] = n ∷ []
insert_node n (x ∷ xs) =
    let rest = insert_node n xs in if leb_ℤ n.id x.id then n ∷ x ∷ xs else x ∷ rest

-- `activeNodes`
unfoldable pub active_nodes : List Node → List Node
unfolding insert_node
active_nodes [] = []
active_nodes (n ∷ ns) =
    let rest = active_nodes ns in if n.status == "disabled" then rest else insert_node n rest

abbrev pub is_nil {ℓ} : {A : Type ℓ} → List A → Bool
is_nil [] = true
is_nil (x ∷ xs) = false

-- `serves`: an empty list restricts nothing.
unfoldable pub serves : Node → Host → Bool
serves n h =
    (is_nil n.inbound_tags || any (λ t. t == h.inbound_tag) n.inbound_tags)
    && (is_nil n.listen_ports || any (λ p. p == h.port) n.listen_ports)

abbrev pub is_in : List String → String → Bool
is_in set x = any (λ y. y == x) set

-- `overlaps`: the smaller set is gone through.
unfoldable pub overlaps : List String → List String → Bool
overlaps a b = if ltb (length b) (length a) then any (is_in a) b else any (is_in b) a
