-- ===== src/LoadMap/Build/Index.antt =====
-- The index of a snapshot finds each host's own load.
use rapido_go.Prelude.{
  ℕ, ◌<◌, ℤ, ◌==◌, int_eq, Option, none, some, List, [], ◌∷◌, ◌++◌, length, length-append,
  get_or-append_left, get_or-append_end, lookup, lookup-insert, All, if◌then◌else◌, ◌≡◌, ◌≢◌, refl,
  sym, ap, ◌∙◌, arith, Bool-cases, inl, inr, beq_ℤ_iff, eq_false,
}
use mathlib.Core.Path.{subst}
use rapido_go.LoadMap.Fleet.{Node, Host, active_nodes, PresenceData}
use rapido_go.LoadMap.Compute.{HostLoad}
use rapido_go.LoadMap.Build.{
  Snapshot, no_load, add_load, add_host, add_hosts, Answers, or_none, read_presence, load_of,
  start_of, build, build_from, at_index, load_for, is_info,
}

-- Every index that the map holds is in range.
abbrev pub InRange : Snapshot → Type 0
InRange s = (id : ℤ) (i : ℕ) → lookup id s.by_id ≡ some i → i < length s.hosts

add_load-InRange : (s : Snapshot) (id : ℤ) (hl : HostLoad) → InRange s → InRange (add_load s id hl)
add_load-InRange s id hl h j i e =
    let grown = length-append s.hosts (hl ∷ []) in
    let found = rw (lookup-insert id j (length s.hosts) s.by_id) at e in
    elim (Bool-cases (id == j)) [
      | inl t ↦ let new = rw t at found in ground (arith, grown, new)
      | inr t ↦ omega (arith, grown, h j i (rw t at found))
    ]

at_index_kept :
    (s : Snapshot) (hl : HostLoad) (o : Option ℕ)
    → ((i : ℕ) → o ≡ some i → i < length s.hosts)
    → at_index (record s { hosts = s.hosts ++ (hl ∷ []) }) o ≡ at_index s o
at_index_kept s hl none h = refl
at_index_kept s hl (some i) h = ap some (get_or-append_left s.hosts (hl ∷ []) i no_load (h i refl))

load_for-add_load :
    (s : Snapshot) (id j : ℤ) (hl : HostLoad)
    → InRange s
    → load_for (add_load s id hl) j ≡ (if id == j then some hl else load_for s j)
unfolding load_for
load_for-add_load s id j hl h = elim (Bool-cases (id == j)) [
  | inl t ↦
      rw (lookup-insert id j (length s.hosts) s.by_id)
        (rw t (ap some (get_or-append_end s.hosts hl (length s.hosts) no_load refl)))
  | inr t ↦
      rw (lookup-insert id j (length s.hosts) s.by_id)
        (rw t (at_index_kept s hl (lookup j s.by_id) (h j)))
]

-- Hosts with ids of their own.
abbrev pub HasOwnIds : List Host → Type 0
HasOwnIds [] = Unit
HasOwnIds (h ∷ hs) = All (λ g. g.id ≢ h.id) hs × HasOwnIds hs

abbrev shown : (Host → HostLoad) → Host → Option HostLoad
shown load h = if is_info h.remark then none else some (load h)

-- What the snapshot says of a host: nothing where it is an info host.
module _ (load : Host → HostLoad) where
  add_host-InRange : (s : Snapshot) (h : Host) → InRange s → InRange (add_host load s h)
  add_host-InRange s h r = elim (Bool-cases (is_info h.remark)) [
    | inl t ↦ rw t r
    | inr t ↦ rw t (add_load-InRange s h.id (load h) r)
  ]

  load_for-add_host_other :
      (s : Snapshot) (h : Host) (j : ℤ)
      → InRange s
      → j ≢ h.id
      → load_for (add_host load s h) j ≡ load_for s j
  load_for-add_host_other s h j r ne = elim (Bool-cases (is_info h.remark)) [
    | inl t ↦ rw t refl
    | inr t ↦ rw t (
        load_for-add_load s h.id j (load h) r
        ∙ rw (eq_false (h.id == j) (λ e. ne (sym ((beq_ℤ_iff h.id j).0 e)))) refl)
  ]

  load_for-add_host_self :
      (s : Snapshot) (h : Host)
      → InRange s
      → load_for s h.id ≡ none
      → load_for (add_host load s h) h.id ≡ shown load h
  load_for-add_host_self s h r fresh = elim (Bool-cases (is_info h.remark)) [
    | inl t ↦ rw t fresh
    | inr t ↦
        rw t (load_for-add_load s h.id h.id (load h) r ∙ rw ((beq_ℤ_iff h.id h.id).1 refl) refl)
  ]

  load_for-add_hosts_other :
      (hs : List Host) (s : Snapshot) (j : ℤ)
      → InRange s
      → All (λ g. g.id ≢ j) hs
      → load_for (add_hosts load s hs) j ≡ load_for s j
  load_for-add_hosts_other [] s j r ne = refl
  load_for-add_hosts_other (h ∷ hs) s j r ne =
      load_for-add_hosts_other hs (add_host load s h) j (add_host-InRange s h r) ne.1
      ∙ load_for-add_host_other s h j r (λ e. ne.0 (sym e))

  load_for-add_hosts :
      (hs : List Host) (s : Snapshot)
      → InRange s
      → HasOwnIds hs
      → All (λ h. load_for s h.id ≡ none) hs
      → All (λ h. load_for (add_hosts load s hs) h.id ≡ shown load h) hs
  load_for-add_hosts [] s r own fresh = tt
  load_for-add_hosts (h ∷ hs) s r own fresh = (
    load_for-add_hosts_other hs (add_host load s h) h.id (add_host-InRange s h r) own.0
        ∙ load_for-add_host_self s h r fresh.0,
    load_for-add_hosts hs (add_host load s h) (add_host-InRange s h r) own.1
        (still_fresh s h hs r own.0 fresh.1),
  )
    where
      still_fresh :
          (s : Snapshot) (h : Host) (hs : List Host)
          → InRange s
          → All (λ g. g.id ≢ h.id) hs
          → All (λ g. load_for s g.id ≡ none) hs
          → All (λ g. load_for (add_host load s h) g.id ≡ none) hs
      still_fresh s h [] r ne fresh = tt
      still_fresh s h (g ∷ hs) r ne fresh =
          (load_for-add_host_other s h g.id r ne.0 ∙ fresh.0, still_fresh s h hs r ne.1 fresh.1)

All-fresh :
    (hs : List Host) (s : Snapshot)
    → ((j : ℤ) → load_for s j ≡ none)
    → All (λ (h : Host). load_for s h.id ≡ none) hs
All-fresh [] s h = tt
All-fresh (g ∷ hs) s h = (h g.id, All-fresh hs s h)

-- The nodes and the presence that a build works with.
abbrev pub nodes_of : Answers → List Node
nodes_of a = active_nodes (or_none a.nodes)

load_for-start_of :
    (a : Answers) (nodes : List Node) (d : PresenceData) (j : ℤ)
    → load_for (start_of a nodes d) j ≡ none
unfolding load_for
load_for-start_of a nodes d j = refl

-- A snapshot built from hosts with ids of their own finds each host's load by its id, and nothing
-- for an info host.
pub load_for-build :
    (a : Answers) (hosts : List Host)
    → a.hosts ≡ some hosts
    → HasOwnIds hosts
    → All
        (λ h. load_for (build a) h.id ≡ (
          if is_info h.remark
          then none
          else some (load_of a (nodes_of a) (read_presence a (nodes_of a)) h)))
        hosts
unfolding build
load_for-build a hosts e own =
    let nodes : List Node = nodes_of a in
    let d : PresenceData = read_presence a nodes in
    subst (λ o. All (λ h. load_for (build_from a o) h.id ≡ shown (load_of a nodes d) h) hosts)
      (sym e)
      (load_for-add_hosts (load_of a nodes d) hosts (start_of a nodes d)
        (λ id i f. absurd (ground (arith, f))) own
        (All-fresh hosts (start_of a nodes d) (load_for-start_of a nodes d)))
