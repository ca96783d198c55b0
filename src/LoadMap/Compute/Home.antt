-- ===== src/LoadMap/Compute/Home.antt =====
-- Which nodes are the home nodes of a port.
use rapido_go.Prelude.{
  ℕ, ◌+◌, ◌*◌, ◌≤◌, ◌<◌, ℤ, Bool, true, List, [], ◌∷◌, length, select, All, ltb, leb, ◌≡◌, ◌≢◌,
  refl, arith, Bool-cases, inl, inr, eq_false,
}
use rapido_go.LoadMap.Fleet.{Node, PresenceData}
use rapido_go.LoadMap.Compute.{home_share_divisor, conns_at, sum_conns, home_nodes}

length_pos : (ns : List Node) → ns ≢ [] → 0 < length ns
length_pos [] ne = absurd (ne refl)
length_pos (n ∷ ns) ne = omega arith

module _ (d : PresenceData) (port : ℤ) where
  -- A node that carries less than a fifth of the connections.
  abbrev pub IsMinor : ℕ → Node → Type 0
  IsMinor sum n = conns_at d port n * home_share_divisor < sum

  abbrev carries : ℕ → Node → Bool
  carries sum n = leb sum (conns_at d port n * home_share_divisor)

  none_carries : (sum : ℕ) (ns : List Node) → select (carries sum) ns ≡ [] → All (IsMinor sum) ns
  none_carries sum [] h = tt
  none_carries sum (n ∷ ns) h = elim (Bool-cases (carries sum n)) [
    | inl e ↦ absurd (ground (arith, rw e at h))
    | inr e ↦ (ground arith, none_carries sum ns (rw e at h))
  ]

  minor_none : (sum : ℕ) (ns : List Node) → All (IsMinor sum) ns → select (carries sum) ns ≡ []
  minor_none sum [] h = refl
  minor_none sum (n ∷ ns) h =
      rw (eq_false (carries sum n) (λ e. ground (arith, h.0))) (minor_none sum ns h.1)

  -- Nodes that each carry less than a fifth are together less than a fifth of their number.
  minor_sum :
      (sum : ℕ) (ns : List Node)
      → All (IsMinor sum) ns
      → sum_conns d port ns * home_share_divisor + length ns ≤ sum * length ns
  minor_sum sum [] h = omega arith
  minor_sum sum (n ∷ ns) h = grind (arith, minor_sum sum ns h.1)

  -- Up to five nodes that serve a port have a home node among them.
  pub home_nodes-ne-nil :
      (ns : List Node) → ns ≢ [] → length ns ≤ home_share_divisor → home_nodes d port ns ≢ []
  unfolding home_nodes
  home_nodes-ne-nil ns ne few = elim (Bool-cases (ltb 0 (sum_conns d port ns))) [
    | inl e ↦ rw e (λ none.
        let sum = sum_conns d port ns in
        let minor = minor_sum sum ns (none_carries sum ns none) in
        let at_most : sum * length ns ≤ sum * home_share_divisor = grind (arith, few) in
        let some_node : 0 < length ns = length_pos ns ne in omega arith)
    | inr e ↦ rw e ne
  ]

  -- Where some node carries a connection and each carries less than a fifth, there is no home node.
  pub home_nodes_none :
      (ns : List Node)
      → 0 < sum_conns d port ns
      → All (IsMinor (sum_conns d port ns)) ns
      → home_nodes d port ns ≡ []
  unfolding home_nodes
  home_nodes_none ns busy h =
      let tested : ltb 0 (sum_conns d port ns) ≡ true = ground arith in
      rw tested (minor_none (sum_conns d port ns) ns h)
