-- ===== src/Prelude/Sorted.antt =====
-- Maps listed in the order of their texts.
use Prim.Native.Nat.{Ordering}
use Prim.Native.String.{String, compare}
use mathlib.Core.Path.{◌≡◌, refl}
use mathlib.Core.Option.{none, some}
use mathlib.Core.List.{[], ◌∷◌}
use native.Mathlib.Omega.{arith}
use text.Mathlib.TextEquality.{eq_iff}
use rapido_go.Prelude.Tests.{◌==◌, string_eq, if◌then◌else◌}
use rapido_go.Prelude.Int.{ℤ}
use rapido_go.Prelude.Maps.{Assoc, lookup}

-- A pair put into a list that is sorted by its texts, as sort.Slice and sort.Strings order them.
unfoldable pub insert_sorted : String → ℤ → Assoc String ℤ → Assoc String ℤ
insert_sorted u n [] = (u, n) ∷ []
insert_sorted u n ((v, k) ∷ m) = elim (compare u v) [
  | Ordering.gt ↦ (v, k) ∷ insert_sorted u n m
  | _ ↦ (u, n) ∷ (v, k) ∷ m
]

lookup-insert_sorted_at :
    (o : Ordering) (u : String) (n : ℤ) (v : String) (k : ℤ) (m : Assoc String ℤ) (j : String)
    → lookup u ((v, k) ∷ m) ≡ none
    → lookup j (insert_sorted u n m) ≡ (if u == j then some n else lookup j m)
    → lookup j (elim o [ Ordering.gt ↦ (v, k) ∷ insert_sorted u n m | _ ↦ (u, n) ∷ (v, k) ∷ m ])
      ≡ (if u == j then some n else lookup j ((v, k) ∷ m))
lookup-insert_sorted_at Ordering.lt u n v k m j h ih = refl
lookup-insert_sorted_at Ordering.eq u n v k m j h ih = refl
lookup-insert_sorted_at Ordering.gt u n v k m j h ih =
    ground (arith, ih, eq_iff v u, eq_iff v j, eq_iff u j)

pub lookup-insert_sorted :
    (u : String) (n : ℤ) (m : Assoc String ℤ) (j : String)
    → lookup u m ≡ none
    → lookup j (insert_sorted u n m) ≡ (if u == j then some n else lookup j m)
unfolding insert_sorted
lookup-insert_sorted u n [] j h = refl
lookup-insert_sorted u n ((v, k) ∷ m) j h =
    lookup-insert_sorted_at (compare u v) u n v k m j h
      (lookup-insert_sorted u n m j (ground (arith, eq_iff v u)))
