-- ===== src/Prelude/Keys.antt =====
-- Association lists that hold each key once.
use mathlib.Core.Path.{◌≡◌, refl}
use mathlib.Core.Option.{none}
use mathlib.Core.List.{[], ◌∷◌}
use mathlib.Core.Logic.{inl, inr}
use native.Mathlib.Omega.{arith}
use rapido_go.Prelude.Tests.{Comparable, ◌==◌, Bool-cases}
use rapido_go.Prelude.Maps.{Assoc, lookup, insert, lookup-insert}

module _ {ℓ κ} {K : Type ℓ} {V : Type κ} ⦃e : Comparable K⦄ where
  abbrev pub DistinctKeys : Assoc K V → Type κ
  DistinctKeys [] = Unit
  DistinctKeys ((k, v) ∷ m) = (lookup k m ≡ none) × DistinctKeys m

  pub insert-DistinctKeys :
      (k : K) (v : V) (m : Assoc K V) → DistinctKeys m → DistinctKeys (insert k v m)
  insert-DistinctKeys k v [] h = (refl, tt)
  insert-DistinctKeys k v ((j, w) ∷ m) h = elim (Bool-cases (j == k)) [
    | inl same ↦ rw same (rw (← (e.beq_path j k).0 same) h.0, h.1)
    | inr other ↦ rw other (
      ground (arith, lookup-insert k j v m, e.beq_path k j, e.beq_path j k, h.0),
      insert-DistinctKeys k v m h.1,
    )
  ]
