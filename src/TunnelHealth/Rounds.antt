-- ===== src/TunnelHealth/Rounds.antt =====
-- Whole rounds of probes: what one tick leaves for each tunnel.
use rapido_go.Prelude.{
  ◌≡◌, refl, ap, ◌∙◌, ℤ, String, Bool, ◌||◌, ◌==◌, string_eq, Option, none, some, List, [], ◌∷◌,
  Assoc, lookup, lookup-insert, arith, if◌then◌else◌, any, Bool-cases, inl, inr, beq_refl, eq_iff,
}
use Prim.Native.Nat.{Ordering}
use Prim.Native.String.{compare}
use text.Mathlib.TextEquality.{path_by_compare}
use rapido_go.TunnelHealth.{
  Options, Entry, Monitor, Arrival, ProbeResult, updated, record_probe, record_all, keep_names,
  tick, tracked_names, add_name, add_names,
}

-- Whether a name is in a list.
abbrev pub elem : String → List String → Bool
elem n names = any (λ k. k == n) names

elem-add_name_at :
    (k n x : String) (xs : List String) (o : Ordering)
    → compare n x ≡ o
    → elem k (add_name n xs) ≡ (n == k || elem k xs)
    → elem k (elim o [
      | Ordering.lt ↦ n ∷ x ∷ xs
      | Ordering.eq ↦ x ∷ xs
      | Ordering.gt ↦ x ∷ add_name n xs
    ])
      ≡ (n == k || elem k (x ∷ xs))
elem-add_name_at k n x xs Ordering.lt e ih = ground arith
elem-add_name_at k n x xs Ordering.eq e ih = rw (path_by_compare n x e) (ground arith)
elem-add_name_at k n x xs Ordering.gt e ih = ground (arith, ih)

elem-add_name :
    (k n : String) (set : List String) → elem k (add_name n set) ≡ (n == k || elem k set)
unfolding add_name
elem-add_name k n [] = ground arith
elem-add_name k n (x ∷ xs) = elem-add_name_at k n x xs (compare n x) refl (elem-add_name k n xs)

elem-add_names :
    (k : String) (ns set : List String) → elem k (add_names ns set) ≡ (elem k ns || elem k set)
elem-add_names k [] set = refl
elem-add_names k (n ∷ ns) set =
    elem-add_names k ns (add_name n set) ∙ rw elem-add_name (ground arith)

lookup-keep_names :
    (names : List String) (k : String) (es : Assoc String Entry)
    → lookup k (keep_names names es) ≡ (if elem k names then lookup k es else none)
lookup-keep_names names k [] = ground arith
lookup-keep_names names k ((n, e) ∷ es) =
    let ih = lookup-keep_names names k es in
    elim (Bool-cases (n == k)) [
      | inl h ↦ let same : n ≡ k = (eq_iff n k).0 h in rw same (ground (arith, ih, beq_refl k))
      | inr h ↦ ground (arith, ih)
    ]

-- The entry of a name after the results of a round.
abbrev pub entry_then : Options → String → List Arrival → Option Entry → Option Entry
entry_then o k [] m = m
entry_then o k (a ∷ rest) m =
    entry_then o k rest (if a.name == k then some (updated o k a.now a.result m) else m)

lookup-record_probe :
    (m : Monitor) (name : String) (r : ProbeResult) (now : ℤ) (k : String)
    → lookup k (record_probe m name r now).entries ≡ (
        if name == k
        then some (updated m.opts k now r (lookup k m.entries))
        else lookup k m.entries)
unfolding record_probe
lookup-record_probe m name r now k = elim (Bool-cases (name == k)) [
  | inl h ↦
      let same : name ≡ k = (eq_iff name k).0 h in rw same (rw lookup-insert (rw beq_refl refl))
  | inr h ↦ rw lookup-insert (rw h refl)
]

lookup-record_all :
    (arrivals : List Arrival) (m : Monitor) (k : String)
    → lookup k (record_all m arrivals).entries ≡ entry_then m.opts k arrivals (lookup k m.entries)
unfolding record_all record_probe
lookup-record_all [] m k = refl
lookup-record_all (a ∷ rest) m k =
    lookup-record_all rest (record_probe m a.name a.result a.now) k
    ∙ ap (entry_then m.opts k rest) (lookup-record_probe m a.name a.result a.now k)

elem-tracked_names :
    (m : Monitor) (discovered : List String) (k : String)
    → elem k (tracked_names m discovered) ≡ (elem k m.watched || elem k discovered)
unfolding tracked_names
elem-tracked_names m discovered k = rw (elem-add_names, elem-add_names) (ground arith)

-- A tunnel is tracked if it was found on the host or is watched.
abbrev pub is_tracked : Monitor → List String → String → Bool
is_tracked m discovered k = elem k m.watched || elem k discovered

-- After a tick a tracked tunnel has the entry that its own results of the round make of the one it
-- had, and every other tunnel has none.
pub tick_lem :
    (m : Monitor) (discovered : List String) (arrivals : List Arrival) (k : String)
    → lookup k (tick m discovered arrivals).entries ≡ (
        if is_tracked m discovered k
        then entry_then m.opts k arrivals (lookup k m.entries)
        else none)
unfolding tick tracked_names
tick_lem m discovered arrivals k =
    lookup-keep_names (tracked_names m discovered) k (record_all m arrivals).entries
    ∙ rw (lookup-record_all, elem-tracked_names) refl
