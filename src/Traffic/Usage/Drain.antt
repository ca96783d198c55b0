-- ===== src/Traffic/Usage/Drain.antt =====
-- `Drain`: what it reports and what it leaves.
use rapido_go.Prelude.{
  pos, beq_ℤ_iff, String, string_eq, ◌==◌, Bool, not, ◌||◌, Option, none, some, [], ◌∷◌, lookup,
  if◌then◌else◌, ◌≡◌, refl, arith, Bool-cases, inl, inr,
}
use rapido_go.Prelude.Keys.{DistinctKeys}
use rapido_go.Traffic.Usage.{Usage, no_usage, Manager, or_none, is_zero, drained, reset, drain}

abbrev pub moved : Usage → Bool
moved c = not (is_zero c.up) || not (is_zero c.down)

lookup-reset : (m : Manager) (u : String) → or_none (lookup u (reset m)) ≡ no_usage
unfolding reset
lookup-reset [] u = refl
lookup-reset ((v, c) ∷ m) u = ground (arith, lookup-reset m u)

reset-absent : (m : Manager) (u : String) → lookup u m ≡ none → lookup u (reset m) ≡ none
unfolding reset
reset-absent [] u h = refl
reset-absent ((v, c) ∷ m) u h = ground (arith, reset-absent m u)

pub reset-DistinctKeys : (m : Manager) → DistinctKeys m → DistinctKeys (reset m)
unfolding reset
reset-DistinctKeys [] h = tt
reset-DistinctKeys ((v, c) ∷ m) h = (reset-absent m v h.0, reset-DistinctKeys m h.1)

drained-absent : (m : Manager) (u : String) → lookup u m ≡ none → lookup u (drained m) ≡ none
unfolding drained
drained-absent [] u h = refl
drained-absent ((v, c) ∷ m) u h = ground (arith, drained-absent m u)

-- What a user has moved, if that is more than nothing.
abbrev pub if_moved : Option Usage → Option Usage
if_moved none = none
if_moved (some c) = if moved c then some c else none

lookup-drained :
    (m : Manager) (u : String) → DistinctKeys m → lookup u (drained m) ≡ if_moved (lookup u m)
unfolding drained
lookup-drained [] u h = refl
lookup-drained ((v, c) ∷ m) u h = elim (Bool-cases (v == u)) [
  | inl e ↦
      let gone : lookup u (drained m) ≡ none =
        drained-absent m u (rw (← (string_eq.beq_path v u).0 e) h.0) in
      elim (Bool-cases (moved c)) [ inl b ↦ simp (b, e) | inr b ↦ simp (b, e, gone) ]
  | inr e ↦
      let rest : lookup u (drained m) ≡ if_moved (lookup u m) = lookup-drained m u h.1 in
      elim (Bool-cases (moved c)) [ inl b ↦ simp (b, e, rest) | inr b ↦ simp (b, e, rest) ]
]

pub if_moved_keeps : (c : Option Usage) → or_none (if_moved c) ≡ or_none c
if_moved_keeps none = refl
if_moved_keeps (some c) = ground (arith, beq_ℤ_iff c.up (pos 0), beq_ℤ_iff c.down (pos 0))

-- `Drain` reports what each user has moved, those that moved nothing left out, and sets every
-- counter to zero, for a manager that holds each user once.
pub drain_lem :
    (m : Manager) (u : String)
    → DistinctKeys m
    → (lookup u (drain m).1 ≡ if_moved (lookup u m)) × (or_none (lookup u (drain m).0) ≡ no_usage)
unfolding drain drained
drain_lem m u h = (lookup-drained m u h, lookup-reset m u)
